-- ===== src/Fakeroot/Normalize/Names.antt =====
-- fakeroot.c: the components of a path, and what `fr_normalize_path` keeps of them.
use bxroot.Prelude.{
  ℕ, ◌≡◌, refl, sym, ap, ◌∙◌, inl, inr, true, false, List, [], ◌∷◌, ◌++◌, append-nil, append_assoc,
  Str, codes, str_eq, if◌then◌else◌, Bool-cases,
}
use bxroot.Fakeroot.Normalize.{is_slash, ends_in_slash}

abbrev onto : ℕ → List Str → List Str
onto c [] = (c ∷ []) ∷ []
onto c (p ∷ ps) = (c ∷ p) ∷ ps

-- What stands between slashes, nothing too.
unfoldable pub pieces : Str → List Str
pieces [] = [] ∷ []
pieces (c ∷ s) = if is_slash c then [] ∷ pieces s else onto c (pieces s)

abbrev some_name : Str → List Str → List Str
some_name [] ps = ps
some_name (c ∷ p) ps = (c ∷ p) ∷ ps

abbrev parts_of : List Str → List Str
parts_of [] = []
parts_of (p ∷ ps) = some_name p (parts_of ps)

abbrev pub keep : Str → List Str → List Str
keep p ps = if str_eq p (codes ".") then ps else some_name p ps

abbrev names_of : List Str → List Str
names_of [] = []
names_of (p ∷ ps) = keep p (names_of ps)

-- The components that are not empty.
abbrev pub parts : Str → List Str
parts s = parts_of (pieces s)

-- Those of them that are not ".".
abbrev pub names : Str → List Str
names s = names_of (pieces s)

-- The rest of a component, and what stands behind its slash.
unfoldable pub upto : Str → Str
upto [] = []
upto (c ∷ s) = if is_slash c then [] else c ∷ upto s

unfoldable pub beyond : Str → Str
beyond [] = []
beyond (c ∷ s) = if is_slash c then s else beyond s

pub upto-slash : (c : ℕ) (s : Str) → is_slash c ≡ true → upto (c ∷ s) ≡ []
unfolding upto
upto-slash c s e = rw e refl

pub beyond-slash : (c : ℕ) (s : Str) → is_slash c ≡ true → beyond (c ∷ s) ≡ s
unfolding beyond
beyond-slash c s e = rw e refl

pub upto-byte : (c : ℕ) (s : Str) → is_slash c ≡ false → upto (c ∷ s) ≡ c ∷ upto s
unfolding upto
upto-byte c s e = rw e refl

pub beyond-byte : (c : ℕ) (s : Str) → is_slash c ≡ false → beyond (c ∷ s) ≡ beyond s
unfolding beyond
beyond-byte c s e = rw e refl

pub pieces-slash : (c : ℕ) (s : Str) → is_slash c ≡ true → pieces (c ∷ s) ≡ [] ∷ pieces s
unfolding pieces
pieces-slash c s e = rw e refl

pieces-byte : (c : ℕ) (s : Str) → is_slash c ≡ false → pieces (c ∷ s) ≡ onto c (pieces s)
unfolding pieces
pieces-byte c s e = rw e refl

pub pieces-nothing : pieces [] ≡ [] ∷ []
unfolding pieces
pieces-nothing = refl

-- The first piece, and what the others come to.
pieces-first :
    (s : Str) → (ps : List Str) × (pieces s ≡ upto s ∷ ps) × (names_of ps ≡ names (beyond s))
unfolding upto beyond str_eq
pieces-first [] = ([], pieces-nothing, ap names_of (sym pieces-nothing))
pieces-first (c ∷ s) = elim (Bool-cases (is_slash c)) [
  | inl e ↦ rw e (pieces s, pieces-slash c s e, refl)
  | inr e ↦
      let (ps, first, rest) = pieces-first s in
      rw e (ps, pieces-byte c s e ∙ ap (onto c) first, rest)
]

pub names-first : (s : Str) → names s ≡ keep (upto s) (names (beyond s))
names-first s =
    let (ps, first, rest) = pieces-first s in ap names_of first ∙ ap (keep (upto s)) rest

pub names-slash : (c : ℕ) (s : Str) → is_slash c ≡ true → names (c ∷ s) ≡ names s
unfolding str_eq
names-slash c s e = ap names_of (pieces-slash c s e)

pub upto-nothing : upto [] ≡ []
unfolding upto
upto-nothing = refl

pieces-upto : (s : Str) → pieces (upto s) ≡ upto s ∷ []
pieces-upto [] = rw upto-nothing pieces-nothing
pieces-upto (c ∷ s) = elim (Bool-cases (is_slash c)) [
  | inl e ↦ rw (upto-slash c s e) pieces-nothing
  | inr e ↦ rw (upto-byte c s e) (pieces-byte c (upto s) e ∙ ap (onto c) (pieces-upto s))
]

-- A component by itself.
pub parts-upto : (c : ℕ) (s : Str) → is_slash c ≡ false → parts (c ∷ upto s) ≡ (c ∷ upto s) ∷ []
parts-upto c s e = ap parts_of (pieces-byte c (upto s) e ∙ ap (onto c) (pieces-upto s))

onto-append :
    (c : ℕ) (s : Str) (more : List Str) → onto c (pieces s ++ more) ≡ onto c (pieces s) ++ more
onto-append c s more = let (ps, first, _) = pieces-first s in rw first refl

pieces-append :
    (a : Str) (c : ℕ) (b : Str) → is_slash c ≡ true → pieces (a ++ (c ∷ b)) ≡ pieces a ++ pieces b
pieces-append [] c b slash = pieces-slash c b slash ∙ ap (λ ps. ps ++ pieces b) (sym pieces-nothing)
pieces-append (x ∷ a) c b slash = elim (Bool-cases (is_slash x)) [
  | inl e ↦
      pieces-slash x (a ++ (c ∷ b)) e
      ∙ ap (λ ps. [] ∷ ps) (pieces-append a c b slash)
      ∙ ap (λ ps. ps ++ pieces b) (sym (pieces-slash x a e))
  | inr e ↦
      pieces-byte x (a ++ (c ∷ b)) e
      ∙ ap (onto x) (pieces-append a c b slash)
      ∙ onto-append x a (pieces b)
      ∙ ap (λ ps. ps ++ pieces b) (sym (pieces-byte x a e))
]

parts_of-append : (xs ys : List Str) → parts_of (xs ++ ys) ≡ parts_of xs ++ parts_of ys
parts_of-append [] ys = refl
parts_of-append ([] ∷ xs) ys = parts_of-append xs ys
parts_of-append ((c ∷ p) ∷ xs) ys = ap (λ ps. (c ∷ p) ∷ ps) (parts_of-append xs ys)

pub parts-append :
    (a : Str) (c : ℕ) (b : Str) → is_slash c ≡ true → parts (a ++ (c ∷ b)) ≡ parts a ++ parts b
parts-append a c b slash =
    ap parts_of (pieces-append a c b slash) ∙ parts_of-append (pieces a) (pieces b)

pub parts-nothing : parts [] ≡ []
parts-nothing = ap parts_of pieces-nothing

-- A text that ends in a slash, without it.
pub before_slash :
    (a : Str)
    → ends_in_slash a ≡ true
    → (o : Str) × (c : ℕ) × (a ≡ o ++ (c ∷ [])) × (is_slash c ≡ true)
unfolding ends_in_slash
before_slash [] h = absurd (cc)
before_slash (c ∷ []) h = ([], c, refl, h)
before_slash (c ∷ d ∷ s) h =
    let (o, e, same, slash) = before_slash (d ∷ s) h in (c ∷ o, e, ap (λ t. c ∷ t) same, slash)

pub parts-drop_slash : (o : Str) (c : ℕ) → is_slash c ≡ true → parts (o ++ (c ∷ [])) ≡ parts o
parts-drop_slash o c slash =
    parts-append o c [] slash ∙ ap (λ ps. parts o ++ ps) parts-nothing ∙ append-nil (parts o)

pub parts-after_slash : (a b : Str) → ends_in_slash a ≡ true → parts (a ++ b) ≡ parts a ++ parts b
parts-after_slash a b h =
    let (o, c, same, slash) = before_slash a h in
    ap (λ t. parts (t ++ b)) same
    ∙ ap parts (append_assoc o (c ∷ []) b)
    ∙ parts-append o c b slash
    ∙ ap (λ ps. ps ++ parts b) (sym (ap parts same ∙ parts-drop_slash o c slash))
