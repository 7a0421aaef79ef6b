-- ===== src/Proc/Search/Laws.antt =====
-- proc.c: the search of PATH against the list of its candidates.
use mathlib.Core.List.{map}
use bxroot.Prelude.{
  ℕ, zero, suc, ◌+◌, ◌<◌, ◌≡◌, ◌≢◌, refl, sym, ap, ◌∙◌, true, false, Option, none, some, List, [],
  ◌∷◌, ◌++◌, append-nil, append_assoc, Str, byte_at, has_byte, length, get_elem?, ◌==◌, ◌!=◌,
  if◌then◌else◌, Result, fail, Bool-cases, ==_iff, inl, inr, arith,
}
use bxroot.Proc.Search.{
  SearchCode, enoent, path_or_default, count_from, search_count, candidate, written, alone,
  search_from, search_get,
}

-- The parts of a text between its colons, empty ones too.
unfoldable pub directories : Str → List Str
directories [] = [] ∷ []
directories (c ∷ s) =
    let rest = directories s in
    if c == b':' then [] ∷ rest else elim rest [ [] ↦ (c ∷ []) ∷ [] | p ∷ ps ↦ (c ∷ p) ∷ ps ]

-- The candidates in their order: the name itself, if it has a slash.
unfoldable pub candidates : Str → Option Str → List Str
candidates file path =
    if has_byte b'/' file
    then file ∷ []
    else map (candidate file) (directories (path_or_default path))

abbrev pub answer : ℕ → Option Str → Result SearchCode Str
answer size none = fail enoent
answer size (some s) = written size s

abbrev behind : Str → List Str → List Str
behind dir [] = dir ∷ []
behind dir (p ∷ ps) = (dir ++ p) ∷ ps

directories-some : (s : Str) → (p : Str) × (ps : List Str) × (directories s ≡ p ∷ ps)
unfolding directories
directories-some [] = ([], [], refl)
directories-some (c ∷ s) = elim (Bool-cases (c == b':')) [
  | inl e ↦ rw e ([], directories s, refl)
  | inr e ↦ let (p, ps, d) = directories-some s in (c ∷ p, ps, rw (e, d) refl)
]

at_colon : (c : ℕ) (s : Str) → (c == b':') ≡ true → directories (c ∷ s) ≡ [] ∷ directories s
unfolding directories
at_colon c s e = rw e refl

-- A byte that is no colon joins what was read.
at_byte :
    (c : ℕ) (s dir : Str)
    → (c == b':') ≡ false
    → behind dir (directories (c ∷ s)) ≡ behind (dir ++ (c ∷ [])) (directories s)
unfolding directories
at_byte c s dir e =
    let (p, ps, d) = directories-some s in
    rw (e, d) (ap (λ t. t ∷ ps) (sym (append_assoc dir (c ∷ []) p)))

length-behind :
    (dir : Str) (c : ℕ) (s : Str)
    → (c == b':') ≡ false
    → length (directories (c ∷ s)) ≡ length (directories s)
unfolding directories
length-behind dir c s e = let (p, ps, d) = directories-some s in rw (e, d) refl

nothing_left : directories [] ≡ [] ∷ []
unfolding directories
nothing_left = refl

count_from-directories : (s : Str) (n : ℕ) → count_from s n ≡ n + length (directories s)
unfolding count_from
count_from-directories [] n = rw nothing_left refl
count_from-directories (c ∷ s) n = elim (Bool-cases (c == b':')) [
  | inl e ↦ rw (e, at_colon c s e) (omega (arith, count_from-directories s (n + 1)))
  | inr e ↦ rw (e, length-behind [] c s e) (count_from-directories s n)
]

at_same : (a b : ℕ) → a ≡ b → (a == b) ≡ true
at_same a b e = ground arith

at_other : (a b : ℕ) → a < b → (a == b) ≡ false
at_other a b lt = elim (Bool-cases (a == b)) [
  | inl e ↦ absurd (omega (arith, lt, (==_iff a b).0 e))
  | inr e ↦ e
]

behind-nil : (s : Str) → behind [] (directories s) ≡ directories s
behind-nil s = let (p, ps, d) = directories-some s in rw d refl

behind-last : (dir : Str) → dir ∷ [] ≡ behind dir (directories [])
unfolding directories
behind-last dir = ap (λ t. t ∷ []) (sym (append-nil dir))

search_from-end :
    (file dir : Str) (i size seg k : ℕ)
    → i ≡ seg + k
    → search_from file i size [] dir seg ≡ answer size (get_elem? (candidate file dir ∷ []) k)
unfolding search_from
search_from-end file dir i size seg zero e = rw (at_same seg i (omega (arith, e))) refl
search_from-end file dir i size seg (suc k) e = rw (at_other seg i (omega (arith, e))) refl

-- A colon ends the directory `dir`; what is after it is behind the first candidate.
search_from-colon :
    (file dir : Str) (i size c : ℕ) (s : Str) (seg k : ℕ)
    → (c == b':') ≡ true
    → i ≡ seg + k
    → ((later : ℕ)
        → i ≡ (seg + 1) + later
        → search_from file i size s [] (seg + 1)
          ≡ answer size (get_elem? (map (candidate file) (behind [] (directories s))) later))
    → search_from file i size (c ∷ s) dir seg
      ≡ answer size (get_elem? (map (candidate file) (behind dir (directories (c ∷ s)))) k)
unfolding search_from
search_from-colon file dir i size c s seg zero colon e next =
    rw (colon, at_colon c s colon, at_same seg i (omega (arith, e)), append-nil dir) refl
search_from-colon file dir i size c s seg (suc k) colon e next =
    rw (colon, at_colon c s colon, at_other seg i (omega (arith, e)))
      (next k (omega (arith, e))
        ∙ ap (λ t. answer size (get_elem? (map (candidate file) t) k)) (behind-nil s))

search_from-picked :
    (file : Str) (i size : ℕ) (s dir : Str) (seg k : ℕ)
    → i ≡ seg + k
    → search_from file i size s dir seg
      ≡ answer size (get_elem? (map (candidate file) (behind dir (directories s))) k)
unfolding search_from
search_from-picked file i size [] dir seg k e =
    search_from-end file dir i size seg k e
    ∙ ap (λ t. answer size (get_elem? (map (candidate file) t) k)) (behind-last dir)
search_from-picked file i size (c ∷ s) dir seg k e = elim (Bool-cases (c == b':')) [
  | inl colon ↦
      search_from-colon file dir i size c s seg k colon e
        (λ later at. search_from-picked file i size s [] (seg + 1) later at)
  | inr other ↦ rw other (
      search_from-picked file i size s (dir ++ (c ∷ [])) seg k e
      ∙ ap (λ t. answer size (get_elem? (map (candidate file) t) k)) (sym (at_byte c s dir other)))
]

unnamed : (b : ℕ) → b ≢ 0 → (b == 0) ≡ false
unnamed b ne = elim (Bool-cases (b == 0)) [ inl e ↦ absurd (ne ((==_iff b 0).0 e)) | inr e ↦ e ]

length-map {ℓ} : {A B : Type ℓ} (f : A → B) (xs : List A) → length (map f xs) ≡ length xs
length-map f [] = refl
length-map f (x ∷ xs) = ap suc (length-map f xs)

count_from-map : (file s : Str) → count_from s 0 ≡ length (map (candidate file) (directories s))
count_from-map file s =
    rw (length-map (candidate file) (directories s)) (omega (arith, count_from-directories s 0))

positive_other : (i : ℕ) → (suc i != 0) ≡ true
positive_other i = ground arith

alone-answer : (file : Str) (i size : ℕ) → alone file i size ≡ answer size (get_elem? (file ∷ []) i)
alone-answer file zero size = ground arith
alone-answer file (suc i) size = rw (positive_other i) refl

-- Counting and reading agree with the list of candidates: px_search_count is its length, and
-- px_search_get gives its entries by number, PX_ETOOLONG for one that does not fit the buffer, and
-- PX_ENOENT behind its end; for a name that is not empty, and a buffer that is there.
pub search_get-candidates :
    (file : Str) (path : Option Str) (i size : ℕ)
    → byte_at file 0 ≢ 0
    → 0 < size
    → (search_count (some file) path ≡ length (candidates file path))
      × (search_get (some file) path i size ≡ answer size (get_elem? (candidates file path) i))
unfolding search_count search_get candidates
search_get-candidates file path i size named room =
    let named_at = unnamed (byte_at file 0) named in
    elim (Bool-cases (has_byte b'/' file)) [
      | inl slash ↦
          rw (slash, named_at, unnamed size (λ e. omega (arith, room, e)))
            (refl, alone-answer file i size)
      | inr none_of ↦
          rw (none_of, named_at, unnamed size (λ e. omega (arith, room, e)))
            (
              count_from-map file (path_or_default path),
              search_from-picked file i size (path_or_default path) [] 0 i (omega arith)
                  ∙ ap (λ t. answer size (get_elem? (map (candidate file) t) i))
                      (behind-nil (path_or_default path)),
            )
    ]
