-- ===== src/Proc/Args/Plan/Laws.antt =====
-- proc.c: the plan and the vector made from it against a rewriting of each argument by itself.
use bxroot.Prelude.{
  ℕ, ◌+◌, ◌≤◌, ◌<◌, ◌≡◌, refl, ap, ◌∙◌, true, false, Option, none, some, List, [], ◌∷◌, Str, length,
  Result, ok, fail, ltb-false, arith,
}
use bxroot.Proc.Args.{ArgPolicy, argpolicy_or_default}
use bxroot.Proc.Args.Plan.{
  PlanCode, Answer, ArgFix, ArgPlan, plan_reset, plan_normalize, Step, plan_max, plan_argv_ex,
  apply_from, apply_argv,
}
use bxroot.Proc.Args.Plan.Fixes.{each, fixes_of, Grows, plan_from-Grows}
use bxroot.Proc.Args.Plan.Applied.{apply_from-nothing, apply_from-each}

-- What is run: the new vector, or the old one where there is none.
abbrev pub or_same : List Str → Result PlanCode (Option (List Str)) → Result PlanCode (List Str)
or_same argv (fail code) = fail code
or_same argv (ok none) = ok argv
or_same argv (ok (some vector)) = ok vector

-- A plan that was made, applied to the arguments it was made for.
abbrev pub Rewrites : List Str → ℕ → List Str → Step → Type 0
Rewrites argv room wanted (plan, fail code) = ⊥
Rewrites argv room wanted (plan, ok done) =
    or_same argv (apply_argv (some argv) (some plan) (some room)) ≡ ok wanted

applied :
    (argv : List Str) (room : ℕ) (plan : ArgPlan) (fixes : List ArgFix)
    → plan.fixes ≡ fixes
    → length argv < room
    → or_same argv (apply_argv (some argv) (some plan) (some room)) ≡ ok (apply_from 0 fixes argv)
unfolding apply_argv
applied argv room plan [] e roomy = rw (e, apply_from-nothing 0 argv) refl
applied argv room plan (f ∷ fixes) e roomy =
    rw (e, ltb-false room (length argv + 1) (omega (arith, roomy))) refl

made :
    (pol : ArgPolicy) (rootfs : Option Str) (xlate : Option (Str → Answer)) (argv : List Str)
    (room : ℕ) (step : Step)
    → Grows pol rootfs xlate
        (λ n. true)
        (λ n. refl)
        []
        (fixes_of pol rootfs xlate 0 false argv)
        (length argv)
        step
    → length argv ≤ plan_max
    → length argv < room
    → Rewrites argv room (each pol rootfs xlate 0 false argv) step
made pol rootfs xlate argv room (plan, fail code) g few roomy = omega (arith, g, few)
made pol rootfs xlate argv room (plan, ok done) g few roomy =
    applied argv room plan (fixes_of pol rootfs xlate 0 false argv) g roomy
    ∙ ap ok (apply_from-each pol rootfs xlate 0 false argv)

-- With memory, px_plan_argv_ex of at most 1024 arguments succeeds whatever plan it is given, and the
-- vector that px_apply_argv then makes, in an array with room for it and its end, is the old one with each
-- argument by itself replaced by its translation: if its place is wanted by the policy of the plan,
-- px_classify_arg says so, and the translator rewrites it.
pub apply_argv-plan_argv_ex :
    (argv : List Str) (rootfs : Option Str) (xlate : Option (Str → Answer)) (plan : Option ArgPlan)
    (room : ℕ)
    → length argv ≤ plan_max
    → length argv < room
    → Rewrites argv room
        (each (argpolicy_or_default (plan_normalize plan).policy) rootfs xlate 0 false argv)
        (plan_argv_ex (λ n. true) (some argv) rootfs xlate plan)
unfolding plan_argv_ex
apply_argv-plan_argv_ex argv rootfs xlate plan room few roomy =
    let pol = argpolicy_or_default (plan_normalize plan).policy in
    made pol rootfs xlate argv room _
      (plan_from-Grows pol rootfs xlate (λ n. true) (λ n. refl) argv 0 false (plan_reset plan)) few
      roomy
