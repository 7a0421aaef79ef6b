-- ===== src/L2s/Format/Fixed.antt =====
-- Four-digit fields: what `format_fixed` writes, `parse_fixed` reads.
use bxroot.Prelude.{
  ℕ, zero, suc, ◌+◌, ◌-◌, ◌/◌, ◌%◌, ◌≤◌, ◌<◌, ◌≡◌, ap, inl, inr, true, [], ◌∷◌, ◌++◌, Str, ltb,
  length, take, Bool-cases, ok, arith,
}
use bxroot.L2s.Types.{digits}
use bxroot.L2s.Format.{
  is_digit, decimal_onto, decimal, zeros, zero_padded, format_fixed, parse_fixed_from, parse_fixed,
}

-- The four digits of a number below 10000.
abbrev pub field : ℕ → Str
field v = (b'0' + v / 1000) ∷ (b'0' + v / 100 % 10) ∷ (b'0' + v / 10 % 10) ∷ (b'0' + v % 10) ∷ []

decimal_onto_one : (f v : ℕ) (acc : Str) → v < 10 → decimal_onto (suc f) v acc ≡ (b'0' + v) ∷ acc
unfolding decimal_onto
decimal_onto_one f v acc h = ground arith

decimal_onto_more :
    (f v : ℕ) (acc : Str)
    → 10 ≤ v
    → decimal_onto (suc f) v acc ≡ decimal_onto f (v / 10) ((b'0' + v % 10) ∷ acc)
unfolding decimal_onto
decimal_onto_more f v acc h = ground arith

-- Enough fuel is as good as more.
decimal_onto_fuel :
    (f g v : ℕ) (acc : Str) → v < f → v < g → decimal_onto f v acc ≡ decimal_onto g v acc
decimal_onto_fuel zero g v acc hf hg = absurd (omega arith)
decimal_onto_fuel (suc f) zero v acc hf hg = absurd (omega arith)
decimal_onto_fuel (suc f) (suc g) v acc hf hg = elim (Bool-cases (ltb v 10)) [
  | inl small ↦
      rw (decimal_onto_one f v acc (ground arith), decimal_onto_one g v acc (ground arith))
  | inr big ↦
      rw (decimal_onto_more f v acc (ground arith), decimal_onto_more g v acc (ground arith))
        (decimal_onto_fuel f g (v / 10) ((b'0' + v % 10) ∷ acc) (ground arith) (ground arith))
]

decimal_fuel : (f v : ℕ) → v < f → decimal v ≡ decimal_onto f v []
unfolding decimal
decimal_fuel f v h = decimal_onto_fuel (suc v) f v [] (omega arith) h

-- The digits printed, by their number.
data Printed (v : ℕ) : Str → Type 0 where
  one : v < 10 → Printed v ((b'0' + v) ∷ [])
  two : 10 ≤ v → v < 100 → Printed v ((b'0' + v / 10) ∷ ((b'0' + v % 10) ∷ []))
  three :
      100 ≤ v
      → v < 1000
      → Printed v ((b'0' + v / 10 / 10) ∷ ((b'0' + v / 10 % 10) ∷ ((b'0' + v % 10) ∷ [])))
  four :
      1000 ≤ v
      → v < 10000
      → Printed v (
          (b'0' + v / 10 / 10 / 10)
          ∷ ((b'0' + v / 10 / 10 % 10) ∷ ((b'0' + v / 10 % 10) ∷ ((b'0' + v % 10) ∷ []))))

decimal_onto-Printed :
    (f v : ℕ) → v < 10000 → Printed v (decimal_onto (suc (suc (suc (suc f)))) v [])
decimal_onto-Printed f v h = elim (Bool-cases (ltb v 10)) [
  | inl a ↦ rw (decimal_onto_one (suc (suc (suc f))) v [] (ground arith)) (one (ground arith))
  | inr a ↦
      rw (decimal_onto_more (suc (suc (suc f))) v [] (ground arith))
        (elim (Bool-cases (ltb v 100)) [
          | inl b ↦
              rw (decimal_onto_one (suc (suc f)) (v / 10) _ (ground arith))
                (two (ground arith) (ground arith))
          | inr b ↦
              rw (decimal_onto_more (suc (suc f)) (v / 10) _ (ground arith))
                (elim (Bool-cases (ltb v 1000)) [
                  | inl c ↦
                      rw (decimal_onto_one (suc f) (v / 10 / 10) _ (ground arith))
                        (three (ground arith) (ground arith))
                  | inr c ↦
                      rw
                        (
                          decimal_onto_more (suc f) (v / 10 / 10) _ (ground arith),
                          decimal_onto_one f (v / 10 / 10 / 10) _ (ground arith),
                        )
                        (four (ground arith) h)
                ])
        ])
]

padded : {v : ℕ} {s : Str} → Printed v s → zeros (digits - length s) s ≡ field v
unfolding zeros
padded (one a) = ground arith
padded (two a b) = ground arith
padded (three a b) = ground arith
padded (four a b) = ground arith

pub zero_padded-field : (v : ℕ) → v < 10000 → zero_padded digits v ≡ field v
unfolding zero_padded
zero_padded-field v h =
    rw (decimal_fuel (suc (suc (suc (suc v)))) v (omega arith))
      (padded (decimal_onto-Printed v v h))

-- `format_fixed` fits a number below 10000 in a buffer of five bytes.
pub format_fixed-field :
    (v outsz : ℕ) → v < 10000 → 4 < outsz → format_fixed v digits outsz ≡ ok (field v)
unfolding format_fixed
format_fixed-field v outsz h fits = rw (zero_padded-field v h) (ground arith)

digit_value : (k : ℕ) → k < 10 → (is_digit (b'0' + k) ≡ true) × (b'0' + k - b'0' ≡ k)
unfolding is_digit
digit_value k h = ground arith

-- Reading four characters depends on them alone.
pub parse_fixed-field :
    (v : ℕ) (rest : Str) → v < 10000 → parse_fixed (field v ++ rest) digits ≡ ok v
unfolding parse_fixed_from
parse_fixed-field v rest h =
    rw
      (
        (digit_value (v / 1000) (omega arith)).0,
        (digit_value (v / 100 % 10) (omega arith)).0,
        (digit_value (v / 10 % 10) (omega arith)).0,
        (digit_value (v % 10) (omega arith)).0,
      )
      (ap ok (omega arith))

is_digit_range : (c : ℕ) → is_digit c ≡ true → (b'0' ≤ c) × (c ≤ b'9')
unfolding is_digit
is_digit_range c h = ground arith

-- What `parse_fixed` accepts is the field of the number that it returns.
pub parse_fixed-eq-ok :
    (s : Str) {v : ℕ} → parse_fixed s digits ≡ ok v → (v < 10000) × (take digits s ≡ field v)
unfolding parse_fixed_from
parse_fixed-eq-ok [] h = cc
parse_fixed-eq-ok (a ∷ []) h = ground arith
parse_fixed-eq-ok (a ∷ (b ∷ [])) h = ground arith
parse_fixed-eq-ok (a ∷ (b ∷ (c ∷ []))) h = ground arith
parse_fixed-eq-ok (a ∷ (b ∷ (c ∷ (d ∷ s)))) h =
    ground (arith, is_digit_range a, is_digit_range b, is_digit_range c, is_digit_range d)
