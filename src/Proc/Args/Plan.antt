-- ===== src/Proc/Args/Plan.antt =====
-- proc.c, §3: the plan of the arguments that are translated, and the new vector made from it.
pub mod Fixes
pub mod Applied
pub mod Laws
use bxroot.Prelude.{
  ℕ, zero, suc, ◌+◌, ◌*◌, Bool, true, false, not, Option, none, some, List, [], ◌∷◌, ◌++◌, Str,
  length, ltb, leb, ◌==◌, if◌then◌else◌, Result, ok, fail,
}
use bxroot.Proc.Args.{
  ArgVerdict, keep, translate, already, ArgPolicy, argpolicy_or_default, classify_arg,
  arg_is_path_option,
}

pub data PlanCode : Type 0 where
  efull enomem einval enospc : PlanCode

-- What the injected translator answers: 0, a positive number with a text, or a negative number.
pub data Answer : Type 0 where
  unchanged : Answer
  rewritten : Str → Answer
  refused : ℕ → Answer

abbrev pub plan_max : ℕ
plan_max = 1024

pub record ArgFix : Type 0 where
  pub index : ℕ
  pub text : Str

-- `error` and `err_at` are of the last argument that the translator refused.
pub record ArgPlan : Type 0 where
  pub fixes : List ArgFix
  pub cap : ℕ
  pub policy : Option ArgPolicy
  pub error : ℕ
  pub err_at : Option ℕ
  pub oom : Bool

abbrev pub fresh : ArgPlan
fresh = record { fixes = []; cap = 0; policy = none; error = 0; err_at = none; oom = false }

-- A plan without its mark of initialisation is `none`.
abbrev pub plan_normalize : Option ArgPlan → ArgPlan
plan_normalize none = fresh
plan_normalize (some plan) = plan

abbrev pub plan_reset : Option ArgPlan → ArgPlan
plan_reset plan = record (plan_normalize plan) { fixes = []; oom = false; error = 0; err_at = none }

abbrev pub plan_set_policy : Option ArgPlan → Option ArgPolicy → ArgPlan
plan_set_policy plan pol = record (plan_normalize plan) { policy = pol }

-- px_plan_dispose: what is left has no mark of initialisation.
abbrev pub plan_dispose : Option ArgPlan → Option ArgPlan
plan_dispose plan = none

abbrev pub Step : Type 0
Step = ArgPlan × Result PlanCode (Unit {0})

abbrev pub doubled : ℕ → ℕ
doubled cap =
    let want = if cap == 0 then 4 else cap * 2 in if ltb plan_max want then plan_max else want

-- `given` says whether there is memory for so many entries.
unfoldable pub plan_reserve : (ℕ → Bool) → ArgPlan → Step
plan_reserve given plan =
    if ltb (length plan.fixes) plan.cap
    then (plan, ok tt)
    else if leb plan_max plan.cap
    then (plan, fail efull)
    else if given (doubled plan.cap)
    then (record plan { cap = doubled plan.cap }, ok tt)
    else (record plan { oom = true }, fail enomem)

abbrev pub noted : Answer → ℕ → Step → Step
noted answer i (plan, fail code) = (plan, fail code)
noted (refused n) i (plan, ok _) = (record plan { error = n; err_at = some i }, ok tt)
noted unchanged i (plan, ok _) = (plan, ok tt)
noted (rewritten t) i (plan, ok _) =
    (record plan { fixes = plan.fixes ++ (record { index = i; text = t } ∷ []) }, ok tt)

abbrev pub is_wanted : ArgPolicy → ℕ → Bool → Bool
is_wanted pol zero after_option = pol.translate_argv0
is_wanted pol (suc i) after_option = if pol.translate_other_args then true else after_option

abbrev pub is_translate : ArgVerdict → Bool
is_translate translate = true
is_translate keep = false
is_translate already = false

abbrev pub translate_one : (ℕ → Bool) → Option (Str → Answer) → ℕ → Str → ArgPlan → Step
translate_one given none i arg plan = (plan, ok tt)
translate_one given (some xlate) i arg plan = noted (xlate arg) i (plan_reserve given plan)

unfoldable pub plan_one :
    (ℕ → Bool) → ArgPolicy → Option Str → Option (Str → Answer) → ℕ → Bool → Str → ArgPlan → Step
plan_one given pol rootfs xlate i after_option arg plan =
    if not (is_wanted pol i after_option)
    then (plan, ok tt)
    else if not (is_translate (classify_arg (some arg) rootfs))
    then (plan, ok tt)
    else translate_one given xlate i arg plan

abbrev pub go_on : (ArgPlan → Step) → Step → Step
go_on rest (plan, fail code) = (plan, fail code)
go_on rest (plan, ok _) = rest plan

unfoldable pub plan_from :
    (ℕ → Bool)
    → ArgPolicy
    → Option Str
    → Option (Str → Answer)
    → ℕ
    → Bool
    → List Str
    → ArgPlan
    → Step
plan_from given pol rootfs xlate i after_option [] plan = (plan, ok tt)
plan_from given pol rootfs xlate i after_option (arg ∷ args) plan =
    go_on
      (λ next.
        plan_from given pol rootfs xlate (i + 1) (arg_is_path_option (some arg) (some pol)) args
          next)
      (plan_one given pol rootfs xlate i after_option arg plan)

abbrev pub plan_args :
    (ℕ → Bool) → Option (List Str) → Option Str → Option (Str → Answer) → ArgPlan → Step
plan_args given none rootfs xlate plan = (plan, ok tt)
plan_args given (some argv) rootfs xlate plan =
    plan_from given (argpolicy_or_default plan.policy) rootfs xlate 0 false argv plan

-- px_plan_argv_ex, of a plan that is there; px_plan_argv is the same with the usual allocator.
unfoldable pub plan_argv_ex :
    (ℕ → Bool) → Option (List Str) → Option Str → Option (Str → Answer) → Option ArgPlan → Step
plan_argv_ex given argv rootfs xlate plan = plan_args given argv rootfs xlate (plan_reset plan)

abbrev pub needs_rebuild : List ArgFix → Bool
needs_rebuild [] = false
needs_rebuild (f ∷ fixes) = true

unfoldable pub plan_needs_rebuild : Option ArgPlan → Bool
plan_needs_rebuild none = false
plan_needs_rebuild (some plan) = needs_rebuild plan.fixes

abbrev pub is_at : ℕ → List ArgFix → Bool
is_at i [] = false
is_at i (f ∷ fixes) = f.index == i

abbrev pub text_at : List ArgFix → Str → Str
text_at [] arg = arg
text_at (f ∷ fixes) arg = f.text

abbrev pub rest_of : List ArgFix → List ArgFix
rest_of [] = []
rest_of (f ∷ fixes) = fixes

unfoldable pub apply_from : ℕ → List ArgFix → List Str → List Str
apply_from i fixes [] = []
apply_from i fixes (arg ∷ args) =
    let hit = is_at i fixes in
    (if hit then text_at fixes arg else arg)
    ∷ apply_from (i + 1) (if hit then rest_of fixes else fixes) args

abbrev pub apply_fixes :
    Option (List Str) → List ArgFix → Option ℕ → Result PlanCode (Option (List Str))
apply_fixes none fixes room = fail einval
apply_fixes (some argv) fixes none = fail einval
apply_fixes (some argv) fixes (some out_cap) =
    if ltb out_cap (length argv + 1) then fail enospc else ok (some (apply_from 0 fixes argv))

-- `none` in the answer: there is nothing to rewrite, and the vector stays as it is. The room is `none`
-- for an output that is NULL.
unfoldable pub apply_argv :
    Option (List Str) → Option ArgPlan → Option ℕ → Result PlanCode (Option (List Str))
apply_argv argv none room = ok none
apply_argv argv (some plan) room =
    if needs_rebuild plan.fixes then apply_fixes argv plan.fixes room else ok none
