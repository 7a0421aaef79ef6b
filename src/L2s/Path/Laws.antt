-- ===== src/L2s/Path/Laws.antt =====
-- What `l2s_split` and `l2s_join` are to one another.
use bxroot.Prelude.{
  ℕ, zero, suc, ◌<◌, ◌≡◌, refl, sym, ap, ◌∙◌, ◌⊎◌, inl, inr, false, none, some, [], ◌∷◌, ◌++◌, Str,
  has_byte, length, take, drop, ◌==◌, Bool-cases, Option-cases, if◌then◌else◌, ok, arith,
  length-append, take-append, drop-append_cons, str_eq,
}
use bxroot.L2s.Path.{last_slash, name_part, dir_len, overflows, is_dots, split, separator, join}

-- A path component that names a file: not empty, no slash, neither "." nor "..".
pub record IsComponent (b : Str) : Type 0 where
  pub no_slash : has_byte b'/' b ≡ false
  pub not_empty : 0 < length b
  pub not_dots : is_dots b ≡ false

pub last_slash-none : (s : Str) → has_byte b'/' s ≡ false → last_slash s ≡ none
unfolding last_slash has_byte
last_slash-none [] h = refl
last_slash-none (c ∷ cs) h = ground (arith, last_slash-none cs)

pub last_slash-append :
    (d b : Str) → has_byte b'/' b ≡ false → last_slash (d ++ (b'/' ∷ b)) ≡ some (length d)
unfolding last_slash
last_slash-append [] b h = rw (last_slash-none b h)
last_slash-append (c ∷ d) b h = rw (last_slash-append d b h)

last_slash_free : (s : Str) → last_slash s ≡ none → has_byte b'/' s ≡ false
unfolding last_slash has_byte
last_slash_free [] h = refl
last_slash_free (c ∷ cs) h = ground (arith, last_slash_free cs)

-- What the index of the last slash says of the text.
pub record Cut (s : Str) (i : ℕ) : Type 0 where
  pub whole : s ≡ take i s ++ (b'/' ∷ drop (suc i) s)
  pub free : has_byte b'/' (drop (suc i) s) ≡ false
  pub inside : i < length s

last_slash-Cut_here :
    (c : ℕ) (cs : Str) {i : ℕ}
    → last_slash cs ≡ none
    → (if c == b'/' then some 0 else none) ≡ some i
    → Cut (c ∷ cs) i
last_slash-Cut_here c cs {i} e h = elim (Bool-cases (c == b'/')) [
  | inl t ↦
      let at_zero : i ≡ 0 = ground arith in
      let is_slash : c ≡ b'/' = ground arith in
      rw (at_zero, is_slash)
        (record { whole = refl; free = last_slash_free cs e; inside = omega arith })
  | inr f ↦ absurd (ground arith)
]

last_slash-Cut_there :
    (c : ℕ) (cs : Str) {i j : ℕ} → Cut cs j → some (suc j) ≡ some i → Cut (c ∷ cs) i
last_slash-Cut_there c cs {i} {j} k h =
    let next : i ≡ suc j = ground arith in
    rw next
      (record { whole = ap (λ t. c ∷ t) k.whole; free = k.free; inside = omega (arith, k.inside) })

pub last_slash-Cut : (s : Str) {i : ℕ} → last_slash s ≡ some i → Cut s i
unfolding last_slash
last_slash-Cut [] h = cc
last_slash-Cut (c ∷ cs) {i} h = elim (Option-cases (last_slash cs)) [
  | inl e ↦ last_slash-Cut_here c cs e (rw (e, last_slash) at h)
  | inr (j, e) ↦ last_slash-Cut_there c cs (last_slash-Cut cs e) (rw (e, last_slash) at h)
]

-- What `l2s_join` writes when it fits.
abbrev pub joined : Str → Str → Str
joined d b = d ++ (separator d ++ b)

pub join-joined :
    (d b : Str) (outsz : ℕ) {p : Str}
    → join (some d) (some b) (some outsz) ≡ ok p
    → (p ≡ joined d b) × (length p < outsz)
unfolding join
join-joined d b outsz h =
    ground (arith, length-append d (separator d ++ b), length-append (separator d) b)

-- The three values that `l2s_split` computes from the last slash.
pub record Parts (p d b : Str) : Type 0 where
  pub name_is : name_part p (last_slash p) ≡ b
  pub dir_is : take (dir_len (last_slash p)) p ≡ d
  pub len_is : dir_len (last_slash p) ≡ length d

Parts-slash :
    (x : ℕ) (d b : Str) → has_byte b'/' b ≡ false → Parts ((x ∷ d) ++ (b'/' ∷ b)) (x ∷ d) b
unfolding name_part dir_len
Parts-slash x d b f = record {
  name_is = rw (last_slash-append (x ∷ d) b f) (drop-append_cons (x ∷ d) b'/' b);
  dir_is = rw (last_slash-append (x ∷ d) b f) (take-append (x ∷ d) (b'/' ∷ b));
  len_is = rw (last_slash-append (x ∷ d) b f);
}

Parts-root : (b : Str) → has_byte b'/' b ≡ false → Parts (b'/' ∷ b) (b'/' ∷ []) b
unfolding name_part dir_len
Parts-root b f = record {
  name_is = rw (last_slash-append [] b f);
  dir_is = rw (last_slash-append [] b f);
  len_is = rw (last_slash-append [] b f);
}

Parts-bare : (b : Str) → has_byte b'/' b ≡ false → Parts b [] b
unfolding name_part dir_len
Parts-bare b f = record {
  name_is = rw (last_slash-none b f);
  dir_is = rw (last_slash-none b f);
  len_is = rw (last_slash-none b f);
}

separator_nil : separator [] ≡ []
unfolding separator
separator_nil = refl

separator_root : separator (b'/' ∷ []) ≡ []
unfolding separator
separator_root = refl

separator_short : (x : ℕ) → (x == b'/') ≡ false → separator (x ∷ []) ≡ b'/' ∷ []
unfolding separator
separator_short x e = ground arith

separator_long : (x y : ℕ) (d : Str) → separator (x ∷ (y ∷ d)) ≡ b'/' ∷ []
unfolding separator
separator_long x y d = ground arith

pub Parts-joined : (d b : Str) → has_byte b'/' b ≡ false → Parts (joined d b) d b
Parts-joined [] b f = rw separator_nil (Parts-bare b f)
Parts-joined (x ∷ []) b f = elim (Bool-cases (x == b'/')) [
  | inl e ↦ let is_slash : x ≡ b'/' = ground arith in rw (is_slash, separator_root) (Parts-root b f)
  | inr e ↦ rw (separator_short x e) (Parts-slash x [] b f)
]
Parts-joined (x ∷ (y ∷ d)) b f = rw (separator_long x y d) (Parts-slash x (y ∷ d) b f)

-- `l2s_split` accepts these parts.
pub split-Parts :
    (p : Str) {d b : Str} (ds bs : ℕ)
    → Parts p d b
    → IsComponent b
    → length d < ds
    → length b < bs
    → split (some p) (some ds) (some bs) ≡ ok (d, b)
unfolding split
split-Parts p ds bs q c hd hb = rw (q.name_is, q.dir_is, q.len_is) (ground arith)

-- `l2s_split` undoes `l2s_join`.
pub split-join :
    (d b : Str) (outsz ds bs : ℕ) {p : Str}
    → join (some d) (some b) (some outsz) ≡ ok p
    → IsComponent b
    → length d < ds
    → length b < bs
    → split (some p) (some ds) (some bs) ≡ ok (d, b)
split-join d b outsz ds bs h c hd hb =
    rw ((join-joined d b outsz h).0)
      (split-Parts (joined d b) ds bs (Parts-joined d b c.no_slash) c hd hb)

name_part_free : (p : Str) → has_byte b'/' (name_part p (last_slash p)) ≡ false
unfolding name_part
name_part_free p = elim (Option-cases (last_slash p)) [
  | inl e ↦ rw e (last_slash_free p e)
  | inr (i, e) ↦ rw e ((last_slash-Cut p e).free)
]

-- What is known of a path that `l2s_split` accepts.
pub record Accepted (p d b : Str) (ds bs : ℕ) : Type 0 where
  pub component : IsComponent b
  pub name_is : b ≡ name_part p (last_slash p)
  pub dir_is : d ≡ take (dir_len (last_slash p)) p
  pub name_fits : length b < bs
  pub dir_fits : dir_len (last_slash p) < ds

pub split-Accepted :
    (p : Str) (ds bs : ℕ) {d b : Str}
    → split (some p) (some ds) (some bs) ≡ ok (d, b)
    → Accepted p d b ds bs
unfolding split
split-Accepted p ds bs h = ground (arith, name_part_free p)

abbrev pub DoubleRoot : Str → Str → Type 0
DoubleRoot p b = p ≡ b'/' ∷ (b'/' ∷ b)

joined_slash :
    (i : ℕ) (p : Str)
    → Cut p i
    → (joined (take (dir_len (some i)) p) (drop (suc i) p) ≡ p) ⊎ DoubleRoot p (drop (suc i) p)
unfolding dir_len
joined_slash i [] c = absurd (omega (arith, c.inside))
joined_slash zero (x ∷ xs) c = let root : x ≡ b'/' = cc (c.whole) in inl (rw (root, separator_root))
joined_slash (suc zero) (x ∷ []) c = absurd (omega (arith, c.inside))
joined_slash (suc zero) (x ∷ (y ∷ ys)) c =
    let next : y ≡ b'/' = cc (c.whole) in
    elim (Bool-cases (x == b'/')) [
      | inl e ↦ let root : x ≡ b'/' = ground arith in inr (rw (root, next))
      | inr e ↦ inl (rw (separator_short x e, next))
    ]
joined_slash (suc (suc k)) (x ∷ []) c = absurd (omega (arith, c.inside))
joined_slash (suc (suc k)) (x ∷ (y ∷ ys)) c =
    inl (rw (separator_long x y (take k ys)) (sym c.whole))

pub joined-Accepted :
    {p d b : Str} {ds bs : ℕ} → Accepted p d b ds bs → (joined d b ≡ p) ⊎ DoubleRoot p b
unfolding name_part dir_len
joined-Accepted {p} a = elim (Option-cases (last_slash p)) [
  | inl e ↦ inl (rw (a.name_is, a.dir_is, e, separator_nil))
  | inr (i, e) ↦ rw (a.name_is, a.dir_is, e) (joined_slash i p (last_slash-Cut p e))
]

pub join-fits :
    (d b : Str) (outsz : ℕ)
    → length (joined d b) < outsz
    → join (some d) (some b) (some outsz) ≡ ok (joined d b)
unfolding join
join-fits d b outsz h =
    ground (arith, length-append d (separator d ++ b), length-append (separator d) b)

-- `l2s_join` undoes `l2s_split`, but for a path "//base", whose root keeps one slash only.
pub join-split :
    (p : Str) (ds bs outsz : ℕ) {d b : Str}
    → split (some p) (some ds) (some bs) ≡ ok (d, b)
    → length p < outsz
    → (join (some d) (some b) (some outsz) ≡ ok p) ⊎ DoubleRoot p b
join-split p ds bs outsz {d} {b} h fits = elim (joined-Accepted (split-Accepted p ds bs h)) [
  | inl e ↦ inl (join-fits d b outsz (rw e fits) ∙ ap ok e)
  | inr root ↦ inr root
]

-- A name longer than ".." is none of the two special ones.
pub long-not_dots : (b : Str) → 2 < length b → is_dots b ≡ false
unfolding is_dots str_eq
long-not_dots [] h = absurd (omega arith)
long-not_dots (x ∷ []) h = absurd (omega arith)
long-not_dots (x ∷ (y ∷ [])) h = absurd (omega arith)
long-not_dots (x ∷ (y ∷ (z ∷ b))) h = ground arith

-- Without an output for the directory the answer is the same.
pub split-no_dir :
    (p : Str) (ds bs : ℕ) {r : Str × Str}
    → split (some p) (some ds) (some bs) ≡ ok r
    → split (some p) none (some bs) ≡ ok r
unfolding split overflows
split-no_dir p ds bs h = ground arith
