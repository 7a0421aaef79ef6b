-- ===== src/System/Bits.antt =====
-- The bit at a place, and what `&` and `|` do to it.
use Prim.Native.Nat.{
  ℕ, zero, suc, ◌/◌, ◌%◌, ◌≤◌, ◌<◌, min, max, bit_and, bit_or, digits, bit_and-bitwise,
  bit_or-bitwise,
}
use mathlib.Core.Path.{◌≡◌, refl, sym, ◌∙◌, ap}
use native.Mathlib.Omega.{arith}

-- The bit at place `k`, 0 or 1.
abbrev pub bit : ℕ → ℕ → ℕ
bit zero a = a % 2
bit (suc k) a = bit k (a / 2)

pub bit-lt : (k a : ℕ) → bit k a < 2
bit-lt zero a = omega arith
bit-lt (suc k) a = bit-lt k (a / 2)

bit_of_zero : (k : ℕ) → bit k 0 ≡ 0
bit_of_zero zero = refl
bit_of_zero (suc k) = bit_of_zero k

-- Both operations are `digits` at an operation `f` on single digits, where `rest` is what is left of
-- the second number when the first is used up.
module _ (rest : ℕ → ℕ) (f : ℕ → ℕ → ℕ) (f_digit : (a b : ℕ) → f (a % 2) (b % 2) < 2)
    (at_rest : (k b : ℕ) → bit k (rest b) ≡ f 0 (bit k b)) where
  bit-rest : (k b : ℕ) → bit k (rest b) ≡ f (bit k 0) (bit k b)
  bit-rest k b = at_rest k b ∙ ap (λ z. f z (bit k b)) (sym (bit_of_zero k))

  bit-digits : (k fuel a b : ℕ) → a ≤ fuel → bit k (digits rest f fuel a b) ≡ f (bit k a) (bit k b)
  bit-digits k zero zero b enough = bit-rest k b
  bit-digits k zero (suc a) b enough = absurd (omega arith)
  bit-digits k (suc fuel) zero b enough = bit-rest k b
  bit-digits zero (suc fuel) (suc a) b enough = omega (arith, f_digit (suc a) b)
  bit-digits (suc k) (suc fuel) (suc a) b enough =
      ap (bit k) (omega (arith, f_digit (suc a) b))
      ∙ bit-digits k fuel (suc a / 2) (b / 2) (omega arith)

pub bit-or : (k a b : ℕ) → bit k (bit_or a b) ≡ max (bit k a) (bit k b)
bit-or k a b =
    ap (bit k) (bit_or-bitwise a b)
    ∙ bit-digits (λ b. b) max (λ a b. omega arith) (λ k b. omega arith) k a a b (omega arith)

pub bit-and : (k a b : ℕ) → bit k (bit_and a b) ≡ min (bit k a) (bit k b)
bit-and k a b =
    ap (bit k) (bit_and-bitwise a b)
    ∙ bit-digits (λ b. 0) min (λ a b. omega arith) (λ k b. omega (arith, bit_of_zero k)) k a a b
        (omega arith)

pub no_digits : (fuel a : ℕ) → digits (λ b. 0) min fuel a 0 ≡ 0
no_digits zero a = refl
no_digits (suc fuel) zero = refl
no_digits (suc fuel) (suc a) = omega (arith, no_digits fuel (suc a / 2))

-- `x & 0`
pub and_none : (a : ℕ) → bit_and a 0 ≡ 0
and_none a = bit_and-bitwise a 0 ∙ no_digits a a

digits-le : (fuel a b : ℕ) → digits (λ b. 0) min fuel a b ≤ b
digits-le zero a b = omega arith
digits-le (suc fuel) zero b = omega arith
digits-le (suc fuel) (suc a) b = omega (arith, digits-le fuel (suc a / 2) (b / 2))

pub bit_and-le : (a b : ℕ) → bit_and a b ≤ b
bit_and-le a b = omega (arith, bit_and-bitwise a b, digits-le a a b)
