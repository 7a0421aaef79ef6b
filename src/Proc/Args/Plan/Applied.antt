-- ===== src/Proc/Args/Plan/Applied.antt =====
-- proc.c: the vector that is made from the fixes.
use bxroot.Prelude.{
  ℕ, ◌+◌, ◌≤◌, ◌≡◌, refl, ap, ◌∙◌, Bool, false, Option, none, some, List, [], ◌∷◌, Str, ==_refl,
  arith,
}
use bxroot.Proc.Args.{ArgPolicy, arg_is_path_option}
use bxroot.Proc.Args.Plan.{Answer, ArgFix, is_at, apply_from}
use bxroot.Proc.Args.Plan.Fixes.{fate, or_kept, each, with_fix, fixes_of}

nothing_applied : (i : ℕ) (fixes : List ArgFix) → apply_from i fixes [] ≡ []
unfolding apply_from
nothing_applied i fixes = refl

pub apply_from-nothing : (i : ℕ) (args : List Str) → apply_from i [] args ≡ args
unfolding apply_from
apply_from-nothing i [] = refl
apply_from-nothing i (arg ∷ args) = ap (λ v. arg ∷ v) (apply_from-nothing (i + 1) args)

abbrev Above : ℕ → List ArgFix → Type 0
Above i [] = Unit
Above i (f ∷ fixes) = i ≤ f.index

Above-less : (i : ℕ) (fixes : List ArgFix) → Above (i + 1) fixes → Above i fixes
Above-less i [] a = tt
Above-less i (f ∷ fixes) a = omega (arith, a)

with_fix-Above :
    (i : ℕ) (f : Option Str) (fixes : List ArgFix)
    → Above (i + 1) fixes
    → Above i (with_fix i f fixes)
with_fix-Above i none fixes a = Above-less i fixes a
with_fix-Above i (some t) fixes a = omega arith

not_at : (i : ℕ) (fixes : List ArgFix) → Above (i + 1) fixes → is_at i fixes ≡ false
not_at i [] a = refl
not_at i (f ∷ fixes) a = ground (arith, a)

apply_one :
    (i : ℕ) (f : Option Str) (fixes : List ArgFix) (arg : Str) (args : List Str)
    → Above (i + 1) fixes
    → apply_from i (with_fix i f fixes) (arg ∷ args) ≡ or_kept arg f ∷ apply_from (i + 1) fixes args
unfolding apply_from
apply_one i none fixes arg args a = rw (not_at i fixes a) refl
apply_one i (some t) fixes arg args a = rw (==_refl i) refl

module _ (pol : ArgPolicy) (rootfs : Option Str) (xlate : Option (Str → Answer)) where
  fixes_of-Above :
      (i : ℕ) (after_option : Bool) (args : List Str)
      → Above i (fixes_of pol rootfs xlate i after_option args)
  unfolding fixes_of
  fixes_of-Above i after_option [] = tt
  fixes_of-Above i after_option (arg ∷ args) =
      with_fix-Above i (fate pol rootfs xlate i after_option arg) _
        (fixes_of-Above (i + 1) (arg_is_path_option (some arg) (some pol)) args)

  pub apply_from-each :
      (i : ℕ) (after_option : Bool) (args : List Str)
      → apply_from i (fixes_of pol rootfs xlate i after_option args) args
        ≡ each pol rootfs xlate i after_option args
  unfolding fixes_of each
  apply_from-each i after_option [] = nothing_applied i []
  apply_from-each i after_option (arg ∷ args) =
      let is_option = arg_is_path_option (some arg) (some pol) in
      apply_one i (fate pol rootfs xlate i after_option arg) _ arg args
        (fixes_of-Above (i + 1) is_option args)
      ∙ ap (λ v. or_kept arg (fate pol rootfs xlate i after_option arg) ∷ v)
          (apply_from-each (i + 1) is_option args)
