-- ===== src/L2s/Build/Pick.antt =====
-- `l2s_pick_generation`: which generation it takes, and what it reports when there is none.
use native.Mathlib.Decide.{ℕ_discrete}
use bxroot.Prelude.{
  ℕ, zero, suc, ◌+◌, ◌<◌, ◌≤◌, ◌≡◌, refl, inl, inr, Bool, true, false, Option, none, some, Str,
  Bool-cases, ok, fail, arith,
}
use bxroot.L2s.Types.{Rc, Res, erange, gen_first, gen_last, gen_giveup, Config}
use bxroot.L2s.Build.{Built, make_strings, Picked, pick_step, pick_from, pick_generation}

module _ (cfg : Option Config) (orig : Str) (exists : Str → Bool) where
  -- The generation gives a candidate for which the predicate has this answer.
  abbrev pub Answers : ℕ → Bool → Type 0
  Answers g a = (b : Built) × (make_strings cfg (some orig) g 1 ≡ ok b) × (exists b.mid ≡ a)

  -- Every generation from `lo` to below `hi` is taken.
  abbrev pub Occupied : ℕ → ℕ → Type 0
  Occupied lo hi = (g : ℕ) → lo ≤ g → g < hi → Answers g true

  -- The three ways in which the search over `left` generations from `gen` on ends.
  pub data Outcome (left gen : ℕ) : Picked → Type 0 where
    found :
        (g : ℕ)
        → gen ≤ g
        → g < gen + left
        → Answers g false
        → Occupied gen g
        → Outcome left gen (ok tt, some g)
    exhausted : Occupied gen (gen + left) → Outcome left gen (fail erange, some gen_giveup)
    unbuildable :
        (g : ℕ) (e : Rc)
        → gen ≤ g
        → g < gen + left
        → make_strings cfg (some orig) g 1 ≡ fail e
        → Occupied gen g
        → Outcome left gen (fail erange, none)

  Occupied-none : (n : ℕ) → Occupied n n
  Occupied-none n g lo hi = absurd (omega arith)

  Occupied-next : (gen hi : ℕ) → Answers gen true → Occupied (gen + 1) hi → Occupied gen hi
  Occupied-next gen hi a o g lo below = elim (ℕ_discrete gen g) [
    | yes e ↦ rw e at a
    | no ne ↦ o g (omega arith) below
  ]

  Outcome-next :
      {left gen : ℕ} {p : Picked}
      → Answers gen true
      → Outcome left (gen + 1) p
      → Outcome (suc left) gen p
  Outcome-next {left} {gen} a (found g lo hi f o) =
      found g (omega arith) (omega arith) f (Occupied-next gen g a o)
  Outcome-next {left} {gen} a (exhausted o) =
      exhausted (Occupied-next gen (gen + suc left) a (λ g lo hi. o g lo (omega arith)))
  Outcome-next {left} {gen} a (unbuildable g e lo hi f o) =
      unbuildable g e (omega arith) (omega arith) f (Occupied-next gen g a o)

  step-Outcome :
      (left gen : ℕ) (r : Res Built) {rest : Picked}
      → make_strings cfg (some orig) gen 1 ≡ r
      → Outcome left (gen + 1) rest
      → Outcome (suc left) gen (pick_step exists gen rest r)
  step-Outcome left gen (fail e) m o =
      unbuildable gen e (omega arith) (omega arith) m (Occupied-none gen)
  step-Outcome left gen (ok b) m o = elim (Bool-cases (exists b.mid)) [
    | inl taken ↦ rw taken (Outcome-next (b, m, taken) o)
    | inr free ↦ rw free (found gen (omega arith) (omega arith) (b, m, free) (Occupied-none gen))
  ]

  pick_from-Outcome : (left gen : ℕ) → Outcome left gen (pick_from cfg orig exists left gen)
  unfolding pick_from
  pick_from-Outcome zero gen = exhausted (λ g lo hi. absurd (omega arith))
  pick_from-Outcome (suc left) gen =
      step-Outcome left gen (make_strings cfg (some orig) gen 1) refl
        (pick_from-Outcome left (gen + 1))

  -- `l2s_pick_generation` takes the first generation of 1 to 999 whose candidate is free; it reports
  -- L2S_ERANGE with generation 1000 only when all are taken, and L2S_ERANGE with the output left
  -- alone when a candidate behind taken ones cannot be built.
  pub pick_generation-Outcome :
      Outcome gen_last gen_first (pick_generation cfg (some orig) (some exists))
  unfolding pick_generation
  pick_generation-Outcome = pick_from-Outcome gen_last gen_first
