-- ===== src/Proc/Args/Plan/Fixes.antt =====
-- proc.c: the fixes that a plan holds, argument by argument.
use mathlib.Core.Path.{subst}
use bxroot.Prelude.{
  ℕ, suc, ◌+◌, ◌≤◌, ◌<◌, ◌≡◌, sym, ap, ◌∙◌, Bool, true, not, Bool-cases, Option, none, some, List,
  [], ◌∷◌, ◌++◌, append-nil, append_assoc, Str, length, ltb, leb, if◌then◌else◌, ok, fail,
  length-append, inl, inr, arith,
}
use bxroot.Proc.Args.{ArgPolicy, classify_arg, arg_is_path_option}
use bxroot.Proc.Args.Plan.{
  Answer, unchanged, rewritten, refused, ArgFix, ArgPlan, Step, doubled, plan_max, plan_reserve,
  noted, is_wanted, is_translate, translate_one, plan_one, go_on, plan_from,
}

-- What is to become of one argument: `none` if it stays.
abbrev pub text_by : Answer → Option Str
text_by unchanged = none
text_by (rewritten t) = some t
text_by (refused n) = none

abbrev asked : Option (Str → Answer) → Str → Option Str
asked none arg = none
asked (some xlate) arg = text_by (xlate arg)

abbrev pub or_kept : Str → Option Str → Str
or_kept arg none = arg
or_kept arg (some t) = t

abbrev pub with_fix : ℕ → Option Str → List ArgFix → List ArgFix
with_fix i none fixes = fixes
with_fix i (some t) fixes = record { index = i; text = t } ∷ fixes

module _ (pol : ArgPolicy) (rootfs : Option Str) (xlate : Option (Str → Answer)) where
  abbrev pub fate : ℕ → Bool → Str → Option Str
  fate i after_option arg =
      if not (is_wanted pol i after_option)
      then none
      else if not (is_translate (classify_arg (some arg) rootfs))
      then none
      else asked xlate arg

  -- The vector with each argument replaced by its translation, if it has one.
  unfoldable pub each : ℕ → Bool → List Str → List Str
  each i after_option [] = []
  each i after_option (arg ∷ args) =
      or_kept arg (fate i after_option arg)
      ∷ each (i + 1) (arg_is_path_option (some arg) (some pol)) args

  unfoldable pub fixes_of : ℕ → Bool → List Str → List ArgFix
  fixes_of i after_option [] = []
  fixes_of i after_option (arg ∷ args) =
      with_fix i (fate i after_option arg)
        (fixes_of (i + 1) (arg_is_path_option (some arg) (some pol)) args)

  -- There is memory for every table of fixes.
  module _ (given : ℕ → Bool) (all : (n : ℕ) → given n ≡ true) where
    -- A step adds the fix of its argument, if there is one; it fails only if the plan is full.
    abbrev Adds : List ArgFix → Option Str → ℕ → Step → Type 0
    Adds old f i (plan, fail code) = plan_max ≤ length old
    Adds old f i (plan, ok done) = plan.fixes ≡ old ++ with_fix i f []

    noted-Adds :
        (answer : Answer) (i : ℕ) (old : List ArgFix) (step : Step)
        → Adds old none i step
        → Adds old (text_by answer) i (noted answer i step)
    noted-Adds answer i old (next, fail code) a = a
    noted-Adds (refused n) i old (next, ok done) a = a
    noted-Adds unchanged i old (next, ok done) a = a
    noted-Adds (rewritten t) i old (next, ok done) a =
        ap (λ fs. fs ++ (record { index = i; text = t } ∷ [])) (a ∙ append-nil old)

    reserve-Adds : (plan : ArgPlan) (i : ℕ) → Adds plan.fixes none i (plan_reserve given plan)
    unfolding plan_reserve
    reserve-Adds plan i = elim (Bool-cases (ltb (length plan.fixes) plan.cap)) [
      | inl free ↦ rw free (sym (append-nil plan.fixes))
      | inr full ↦ elim (Bool-cases (leb plan_max plan.cap)) [
        | inl most ↦ rw (full, most) (ground (arith, full, most))
        | inr less ↦ rw (full, less, all (doubled plan.cap)) (sym (append-nil plan.fixes))
      ]
    ]

    asked-Adds :
        (x : Option (Str → Answer)) (i : ℕ) (arg : Str) (plan : ArgPlan)
        → Adds plan.fixes (asked x arg) i (translate_one given x i arg plan)
    asked-Adds none i arg plan = sym (append-nil plan.fixes)
    asked-Adds (some f) i arg plan =
        noted-Adds (f arg) i plan.fixes (plan_reserve given plan) (reserve-Adds plan i)

    one-Adds :
        (i : ℕ) (after_option : Bool) (arg : Str) (plan : ArgPlan)
        → Adds plan.fixes
            (fate i after_option arg)
            i
            (plan_one given pol rootfs xlate i after_option arg plan)
    unfolding plan_one
    one-Adds i after_option arg plan = elim (Bool-cases (is_wanted pol i after_option)) [
      | inl w ↦ elim (Bool-cases (is_translate (classify_arg (some arg) rootfs))) [
        | inl t ↦ rw (w, t) (asked-Adds xlate i arg plan)
        | inr t ↦ rw (w, t) (sym (append-nil plan.fixes))
      ]
      | inr w ↦ rw w (sym (append-nil plan.fixes))
    ]

    -- The same of the steps for the arguments that are left.
    abbrev pub Grows : List ArgFix → List ArgFix → ℕ → Step → Type 0
    Grows old added left (plan, fail code) = plan_max < length old + left
    Grows old added left (plan, ok done) = plan.fixes ≡ old ++ added

    with_fix-append :
        (old rest : List ArgFix) (i : ℕ) (f : Option Str)
        → (old ++ with_fix i f []) ++ rest ≡ old ++ with_fix i f rest
    with_fix-append old rest i none = ap (λ fs. fs ++ rest) (append-nil old)
    with_fix-append old rest i (some t) =
        append_assoc old (record { index = i; text = t } ∷ []) rest

    length-with_fix :
        (old : List ArgFix) (i : ℕ) (f : Option Str)
        → length (old ++ with_fix i f []) ≤ length old + 1
    length-with_fix old i none = rw (append-nil old) (omega arith)
    length-with_fix old i (some t) =
        rw (length-append old (record { index = i; text = t } ∷ [])) (omega arith)

    grown :
        (old rest : List ArgFix) (i left : ℕ) (f : Option Str) (step : Step)
        → Grows (old ++ with_fix i f []) rest left step
        → Grows old (with_fix i f rest) (suc left) step
    grown old rest i left f (plan, fail code) g = omega (arith, g, length-with_fix old i f)
    grown old rest i left f (plan, ok done) g = g ∙ with_fix-append old rest i f

    go_on-Grows :
        (old rest : List ArgFix) (i left : ℕ) (f : Option Str) (more : ArgPlan → Step) (step : Step)
        → Adds old f i step
        → ((next : ArgPlan) → Grows next.fixes rest left (more next))
        → Grows old (with_fix i f rest) (suc left) (go_on more step)
    go_on-Grows old rest i left f more (next, fail code) a m = omega (arith, a)
    go_on-Grows old rest i left f more (next, ok done) a m =
        grown old rest i left f (more next)
          (subst (λ fs. Grows fs rest left (more next)) a (m next))

    pub plan_from-Grows :
        (args : List Str) (i : ℕ) (after_option : Bool) (plan : ArgPlan)
        → Grows plan.fixes
            (fixes_of i after_option args)
            (length args)
            (plan_from given pol rootfs xlate i after_option args plan)
    unfolding plan_from fixes_of
    plan_from-Grows [] i after_option plan = sym (append-nil plan.fixes)
    plan_from-Grows (arg ∷ args) i after_option plan =
        let is_option = arg_is_path_option (some arg) (some pol) in
        go_on-Grows plan.fixes (fixes_of (i + 1) is_option args) i (length args)
          (fate i after_option arg)
          (λ next. plan_from given pol rootfs xlate (i + 1) is_option args next)
          (plan_one given pol rootfs xlate i after_option arg plan)
          (one-Adds i after_option arg plan) (λ next. plan_from-Grows args (i + 1) is_option next)
