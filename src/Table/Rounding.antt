-- ===== src/Table/Rounding.antt =====
-- `fr_round_pow2` of fakeroot.c and `px_round_pow2` of proc.c, which are the same.
use bxroot.Prelude.{
  ℕ, zero, suc, ◌+◌, ◌-◌, ◌*◌, ◌^◌, ◌≤◌, ◌<◌, ◌≡◌, refl, false, Bool-cases, inl, inr, if◌then◌else◌,
  ltb, leb, arith,
}

-- The loop, which doubles at most 64 times.
unfoldable pub round_from : ℕ → ℕ → ℕ → ℕ
round_from zero r v = 0
round_from (suc fuel) r v =
    let rest = round_from fuel (r * 2) v in
    if ltb r v then if ltb (2 ^ 63 - 1) r then 0 else rest else r

unfoldable pub round_pow2 : ℕ → ℕ
unfolding round_from
round_pow2 v = if leb v 1 then 1 else round_from 65 1 v

-- The least power of two that is not below `v`.
abbrev pub IsLeastPow : ℕ → ℕ → Type 0
IsLeastPow v r = (b : ℕ) × (r ≡ 2 ^ b) × (v ≤ r) × (r < 2 * v)

beyond : (b r v : ℕ) → r ≡ 2 ^ b → 0 + b ≡ 65 → r < 2 * v → v ≤ 2 ^ 63 → ⊥
beyond b r v e total below small = let last : b ≡ 65 = omega arith in omega (arith, rw last at e)

round_from-IsLeastPow :
    (fuel b r v : ℕ)
    → r ≡ 2 ^ b
    → fuel + b ≡ 65
    → r < 2 * v
    → v ≤ 2 ^ 63
    → IsLeastPow v (round_from fuel r v)
unfolding round_from
round_from-IsLeastPow zero b r v e total below small = absurd (beyond b r v e total below small)
round_from-IsLeastPow (suc fuel) b r v e total below small = elim (Bool-cases (ltb r v)) [
  | inl less ↦
      let fits : ltb (2 ^ 63 - 1) r ≡ false = ground (arith, less) in
      rw (less, fits)
        (round_from-IsLeastPow fuel (suc b) (r * 2) v (omega arith) (omega arith)
          (ground (arith, less)) small)
  | inr enough ↦ rw enough (b, e, ground (arith, enough), below)
]

-- The rounding gives the least power of two that is not below its argument, up to 2^63, within the
-- 65 rounds of the model's loop.
pub round_pow2-IsLeastPow : (v : ℕ) → 1 ≤ v → v ≤ 2 ^ 63 → IsLeastPow v (round_pow2 v)
unfolding round_pow2
round_pow2-IsLeastPow v positive small = elim (Bool-cases (leb v 1)) [
  | inl e ↦ rw e (0, omega arith, ground (arith, e), ground (arith, e))
  | inr e ↦ rw e (round_from-IsLeastPow 65 0 1 v refl refl (ground (arith, e)) small)
]
