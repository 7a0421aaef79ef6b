-- ===== src/Proc/Env/Bounds.antt =====
-- proc.c, px_env_build: the limits of the environment that is built.
use bxroot.Prelude.{
  ℕ, ◌+◌, ◌/◌, ◌≤◌, ◌<◌, ◌≡◌, Bool, true, false, not, Option, none, some, List, [], ◌∷◌, ◌++◌, Str,
  length, length-append, take, ltb, leb, Result, ok, ◌>>◌, reject_if, Bool-cases, inl, inr, arith,
}
use bxroot.Proc.Env.{envp_max}
use bxroot.Proc.Env.Merge.{EnvCode, enomem, text_of}
use bxroot.Proc.Env.Build.{
  EnvMode, set, merge_preloads, EnvKv, EnvPolicy, EnvOut, bytes, push_kv, entry_max, fits, carried,
  force_set, force_one, go_on, force_named, force, limit_of, budget_of, env_build,
}
use bxroot.Proc.Env.Fitting.{Holds, bind-Holds, IsWithin, fits-le, push-Holds, carry-Holds}

-- No variable is merged.
abbrev pub AllSet : List EnvKv → Type 0
AllSet [] = Unit
AllSet (kv ∷ kvs) = (kv.mode ≡ set) × AllSet kvs

module _ (given : ℕ → Bool) (limit budget : ℕ) (envp : Option (List Str)) where
  abbrev Inside : EnvOut → Type 0
  Inside = IsWithin limit budget

  abbrev InsideToo : Option EnvOut → Type 0
  InsideToo none = Unit
  InsideToo (some out) = Inside out

  push_kv-Holds :
      (out : EnvOut) (name : Str) (value : Option Str)
      → length out.entries < limit
      → bytes out.entries + (length name + 1 + length (text_of value) + 1) ≤ budget
      → Holds Inside (push_kv given out name value)
  unfolding push_kv
  push_kv-Holds out name value short small =
      elim (Bool-cases (ltb entry_max (length name + 1 + length (text_of value)))) [
        | inl l ↦ rw l tt
        | inr l ↦ rw l (
            push-Holds given limit budget out (name ++ (b'=' ∷ text_of value)) short
              (omega (arith, length-append name (b'=' ∷ text_of value))))
      ]

  force_set-Holds :
      (out : EnvOut) (name : Str) (value : Option Str)
      → length out.entries < limit
      → Holds InsideToo (force_set given budget out name value)
  force_set-Holds out name value short =
      let need = length name + 1 + length (text_of value) + 1 in
      elim (Bool-cases (fits budget out need)) [
        | inl f ↦ rw f (
            bind-Holds Inside InsideToo (push_kv given out name value) (λ next. ok (some next))
              (push_kv-Holds out name value short (fits-le budget need out f)) (λ next v. v))
        | inr f ↦ rw f tt
      ]

  force_one-Holds :
      (out : EnvOut) (name : Str) (value : Option Str) (mode : EnvMode)
      → mode ≡ set
      → Inside out
      → Holds InsideToo (force_one given limit budget envp out name value mode)
  unfolding force_one
  force_one-Holds out name value merge_preloads e w = absurd (cc)
  force_one-Holds out name value set e w = elim (Bool-cases (leb limit (length out.entries))) [
    | inl l ↦ rw l tt
    | inr l ↦ rw l (force_set-Holds out name value (ground (arith, l)))
  ]

  named-Holds :
      (out : EnvOut) (name : Option Str) (kv : EnvKv)
      → kv.mode ≡ set
      → Inside out
      → Holds InsideToo (force_named given limit budget envp out name kv)
  named-Holds out none kv e w = w
  named-Holds out (some n) kv e w = force_one-Holds out n kv.value kv.mode e w

  go_on-Holds :
      (rest : EnvOut → Result EnvCode EnvOut) (out : EnvOut) (r : Option EnvOut)
      → Inside out
      → InsideToo r
      → ((next : EnvOut) → Inside next → Holds Inside (rest next))
      → Holds Inside (go_on rest out r)
  go_on-Holds rest out none w v k = w
  go_on-Holds rest out (some next) w v k = k next v

  force-Holds :
      (kvs : List EnvKv) (out : EnvOut)
      → AllSet kvs
      → Inside out
      → Holds Inside (force given limit budget envp kvs out)
  unfolding force
  force-Holds [] out all w = w
  force-Holds (kv ∷ kvs) out all w =
      bind-Holds InsideToo Inside (force_named given limit budget envp out kv.name kv) _
        (named-Holds out kv.name kv all.0 w)
        (λ r v. go_on-Holds _ out r w v (λ next u. force-Holds kvs next all.1 u))

carried-Holds :
    (given : ℕ → Bool) (p : EnvPolicy) (envp : Option (List Str))
    → Holds (IsWithin (limit_of p) (budget_of p / 2)) (carried given p envp)
carried-Holds given p none = record { few = omega arith; small = omega arith }
carried-Holds given p (some envp) =
    carry-Holds given p (budget_of p / 2) (take envp_max envp) _
      (record { few = omega arith; small = omega arith })

half-IsWithin :
    (limit budget : ℕ) (out : EnvOut) → IsWithin limit (budget / 2) out → IsWithin limit budget out
half-IsWithin limit budget out w = record { few = w.few; small = omega (arith, w.small) }

array_made :
    {limit budget : ℕ} (array : Bool) (out : EnvOut)
    → IsWithin limit budget out
    → Holds (IsWithin limit budget) (reject_if (not array) enomem >> ok out)
array_made true out w = w
array_made false out w = tt

-- The environment that px_env_build makes has at most as many entries as the policy allows, and, with
-- their terminators, at most as many bytes as its budget; no variable of the policy is to be merged.
pub env_build-IsWithin :
    (given : ℕ → Bool) (array : Bool) (envp : Option (List Str)) (p : EnvPolicy)
    → AllSet p.forced
    → Holds (IsWithin (limit_of p) (budget_of p)) (env_build given array envp (some p))
unfolding env_build
env_build-IsWithin given array envp p all =
    bind-Holds (IsWithin (limit_of p) (budget_of p / 2)) _ (carried given p envp) _
      (carried-Holds given p envp)
      (λ first w.
        bind-Holds (IsWithin (limit_of p) (budget_of p)) _
          (force given (limit_of p) (budget_of p) envp p.forced first) _
          (force-Holds given (limit_of p) (budget_of p) envp p.forced first all
            (half-IsWithin (limit_of p) (budget_of p) first w))
          (λ out v. array_made array out v))
