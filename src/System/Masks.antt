-- ===== src/System/Masks.antt =====
-- `x & (2^b - 1)`, and the places it reaches.
use Prim.Native.Nat.{
  ℕ, zero, suc, ◌+◌, ◌-◌, ◌*◌, ◌/◌, ◌%◌, ◌^◌, ◌≤◌, ◌<◌, min, bit_and, digits, bit_and-bitwise,
}
use native.Mathlib.Nat.{mul_assoc, add-mul-mod_self_left, mod-eq_of_lt, mod-lt, add-mod_right}
use native.Mathlib.Decide.{dec_lt}
use mathlib.Core.Path.{◌≡◌, sym, ◌∙◌, ap}
use native.Mathlib.Omega.{arith}
use bxroot.System.Bits.{no_digits}

doubled : (p q : ℕ) → 2 * p * q ≡ 2 * (p * q)
doubled p q = mul_assoc 2 p q

one_more : (x d p p' q : ℕ) → x / 2 ≡ d + p * q → p' ≡ 2 * p → x ≡ d * 2 + min (x % 2) 1 + p' * q
one_more x d p p' q e e' = rw e' (omega (arith, doubled p q))

pub two_pow_pos : (b : ℕ) → 1 ≤ 2 ^ b
two_pow_pos zero = omega arith
two_pow_pos (suc b) = omega (arith, two_pow_pos b)

low : ℕ → ℕ → ℕ → ℕ
low b fuel a = digits (λ x. 0) min fuel a (2 ^ b - 1)

masked :
    (b fuel a : ℕ) → a ≤ fuel → (q : ℕ) × (a ≡ low b fuel a + 2 ^ b * q) × (low b fuel a < 2 ^ b)
unfolding low
masked zero fuel a enough = (a, omega (arith, no_digits fuel a), omega (arith, no_digits fuel a))
masked (suc b) zero zero enough = (0, omega arith, two_pow_pos (suc b))
masked (suc b) zero (suc a) enough = absurd (omega arith)
masked (suc b) (suc fuel) zero enough = (0, omega arith, two_pow_pos (suc b))
masked (suc b) (suc fuel) (suc a) enough =
    let (q, e, lt) = masked b fuel (suc a / 2) (omega arith) in
    let half : (2 ^ suc b - 1) / 2 ≡ 2 ^ b - 1 = omega (arith, two_pow_pos b) in
    let odd : (2 ^ suc b - 1) % 2 ≡ 1 = omega (arith, two_pow_pos b) in
    rw (half, odd)
      (
        q,
        one_more (suc a) (low b fuel (suc a / 2)) (2 ^ b) (2 ^ suc b) q e (omega arith),
        omega (arith, lt),
      )

-- `x & (2^b - 1)` is the remainder of `x`.
pub and_mask : (a b : ℕ) → bit_and a (2 ^ b - 1) ≡ a % 2 ^ b
unfolding low
and_mask a b =
    let (q, e, lt) = masked b a a (omega arith) in
    bit_and-bitwise a (2 ^ b - 1)
    ∙ sym (ap (λ x. x % 2 ^ b) e ∙ add-mul-mod_self_left _ (2 ^ b) q ∙ mod-eq_of_lt lt)

-- A round from any start meets every place.
pub round_covers : (cap start j : ℕ) → j < cap → (i : ℕ) × (i < cap) × ((start % cap + i) % cap ≡ j)
round_covers cap start j lt =
    let small : start % cap < cap = mod-lt start (omega arith) in
    elim (dec_lt j (start % cap)) [
      | no ahead ↦ (j - start % cap, omega arith, ap (λ x. x % cap) (omega arith) ∙ mod-eq_of_lt lt)
      | yes back ↦
          let around : start % cap + (j + cap - start % cap) ≡ j + cap = omega arith in
          (
            j + cap - start % cap,
            omega arith,
            ap (λ x. x % cap) around ∙ add-mod_right j cap ∙ mod-eq_of_lt lt,
          )
    ]
