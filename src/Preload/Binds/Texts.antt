-- ===== src/Preload/Binds/Texts.antt =====
-- preload.c, parse_binds: cutting a text at its separators.
use bxroot.Prelude.{
  ℕ, ◌≡◌, ◌≢◌, refl, ap, false, none, some, [], ◌∷◌, ◌++◌, Str, has_byte, ◌==◌, Bool-cases,
  Option-cases, inl, inr, arith,
}
use bxroot.Preload.Binds.{cut, split_at, without_empty, tokens, doubled, last_byte}

-- Not empty, and without the separator.
abbrev pub IsPart : ℕ → Str → Type 0
IsPart c s = (s ≢ []) × (has_byte c s ≡ false)

pub cut-append : (c : ℕ) (a b : Str) → has_byte c a ≡ false → cut c (a ++ (c ∷ b)) ≡ some (a, b)
unfolding cut has_byte
cut-append c [] b h = ground arith
cut-append c (x ∷ a) b h = ground (arith, cut-append c a b)

pub cut-none : (c : ℕ) (s : Str) → has_byte c s ≡ false → cut c s ≡ none
unfolding cut has_byte
cut-none c [] h = refl
cut-none c (x ∷ s) h = ground (arith, cut-none c s)

pub cut-none_free : (c : ℕ) (s : Str) → cut c s ≡ none → has_byte c s ≡ false
unfolding cut has_byte
cut-none_free c [] h = refl
cut-none_free c (x ∷ s) h = elim (Option-cases (cut c s)) [
  | inl e ↦ ground (arith, h, cut-none_free c s e)
  | inr (ab, e) ↦ ground (arith, h, e)
]

-- What a cut leaves in front holds no separator, and the rest holds nothing new.
pub cut_front :
    (c d : ℕ) (s a b : Str)
    → cut c s ≡ some (a, b)
    → (has_byte c a ≡ false)
      × (has_byte d s ≡ false → (has_byte d a ≡ false) × (has_byte d b ≡ false))
unfolding cut has_byte
cut_front c d [] a b h = cc
cut_front c d (x ∷ s) a b h = elim (Bool-cases (x == c)) [
  | inl e ↦ ground (arith, h)
  | inr e ↦ elim (Option-cases (cut c s)) [
    | inl none_left ↦ ground (arith, h)
    | inr ((a', b'), found) ↦ ground (arith, h, cut_front c d s a' b' found)
  ]
]

pub split_at-append :
    (c : ℕ) (a b : Str) → has_byte c a ≡ false → split_at c (a ++ (c ∷ b)) ≡ a ∷ split_at c b
unfolding split_at has_byte
split_at-append c [] b h = ground arith
split_at-append c (x ∷ a) b h = ground (arith, split_at-append c a b)

pub split_at_one : (c : ℕ) (a : Str) → has_byte c a ≡ false → split_at c a ≡ a ∷ []
unfolding split_at has_byte
split_at_one c [] h = refl
split_at_one c (x ∷ a) h = ground (arith, split_at_one c a)

pub tokens-append : (c : ℕ) (a b : Str) → IsPart c a → tokens c (a ++ (c ∷ b)) ≡ a ∷ tokens c b
unfolding tokens
tokens-append c [] b h = absurd (h.0 refl)
tokens-append c (x ∷ a) b h = ap without_empty (split_at-append c (x ∷ a) b h.1)

pub tokens_one : (c : ℕ) (a : Str) → IsPart c a → tokens c a ≡ a ∷ []
unfolding tokens
tokens_one c [] h = absurd (h.0 refl)
tokens_one c (x ∷ a) h = ap without_empty (split_at_one c (x ∷ a) h.1)

pub doubled-append : (c : ℕ) (a b : Str) → has_byte c a ≡ false → doubled c (a ++ b) ≡ doubled c b
unfolding doubled has_byte
doubled-append c [] b h = refl
doubled-append c (x ∷ a) b h = ground (arith, doubled-append c a b)

pub doubled_at : (c : ℕ) (a b : Str) → IsPart c a → doubled c (c ∷ (a ++ b)) ≡ doubled c b
unfolding doubled has_byte
doubled_at c [] b h = absurd (h.0 refl)
doubled_at c (x ∷ a) b h = ground (arith, doubled-append c (x ∷ a) b)

pub last_byte-append : (a b : Str) → b ≢ [] → last_byte (a ++ b) ≡ last_byte b
unfolding last_byte
last_byte-append a [] h = absurd (h refl)
last_byte-append [] (y ∷ b) h = refl
last_byte-append (x ∷ []) (y ∷ b) h = refl
last_byte-append (x ∷ (z ∷ a)) (y ∷ b) h = last_byte-append (z ∷ a) (y ∷ b) h

pub last_byte_of_part : (c : ℕ) (a : Str) → IsPart c a → (last_byte a == c) ≡ false
unfolding last_byte has_byte
last_byte_of_part c [] h = absurd (h.0 refl)
last_byte_of_part c (x ∷ []) h = ground arith
last_byte_of_part c (x ∷ (y ∷ a)) h = last_byte_of_part c (y ∷ a) (λ e. cc, ground (arith, h.1))
