-- ===== src/Launcher/Binds/Laws.antt =====
-- launcher.c and preload.c: the bind table on both sides of BXROOT_BINDS.
use mathlib.Core.Path.{subst}
use mathlib.Core.List.{map}
use bxroot.Prelude.{◌≡◌, refl, true, Option, none, some, List, [], ◌∷◌, Str, arith, ok, >>=-eq-ok}
use bxroot.Preload.Config.{Bind}
use bxroot.Preload.Binds.{parse_binds}
use bxroot.Launcher.Binds.{add_specs, bind_env, check_need}
use bxroot.Launcher.Binds.Texts.{stripped}
use bxroot.Launcher.Binds.Options.{IsPlainDir, IsTable, add_specs-IsTable}
use bxroot.Launcher.Binds.Reading.{read_back}

-- The table that the run time has: none is read where the variable is unset.
abbrev pub table : List Bind → Option (List Bind)
table [] = none
table (b ∷ bs) = some (map stripped (b ∷ bs))

nothing_set : parse_binds (λ _. true) none ≡ ok none
unfolding parse_binds
nothing_set = refl

read_table :
    (binds : List Bind) (env : Option Str)
    → IsTable binds
    → bind_env true binds ≡ ok env
    → parse_binds (λ _. true) env ≡ ok (table binds)
unfolding bind_env
read_table [] env t h = subst (λ e. parse_binds (λ _. true) e ≡ ok none) (cc) (nothing_set)
read_table (b ∷ bs) env t h =
    let (need, checked, written) = >>=-eq-ok (check_need 0 1 (b ∷ bs)) _ h in
    subst (λ e. parse_binds (λ _. true) e ≡ ok (table (b ∷ bs))) (cc)
      (read_back b bs need t.0 t.1 checked)

-- The run time reads from BXROOT_BINDS the binds that the launcher took from its options, in their order
-- and with their read-only marks, sources and targets without trailing slashes, and none if there are
-- none: if the launcher accepts the options and their encoding, and its working directory is an absolute
-- path without ':' and ';', or is not to be had.
pub bind_env-parse_binds :
    (cwd : Option Str) (specs : List Str) (binds : List Bind) (env : Option Str)
    → IsPlainDir cwd
    → add_specs cwd [] specs ≡ ok binds
    → bind_env true binds ≡ ok env
    → parse_binds (λ _. true) env ≡ ok (table binds)
bind_env-parse_binds cwd specs binds env d added written =
    read_table binds env (add_specs-IsTable cwd [] binds specs d (tt, omega arith) added) written
