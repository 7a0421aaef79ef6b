-- ===== src/Proc/Tests.antt =====
-- A ledger with one process that was reaped and one that runs, and small environments.
use bxroot.Prelude.{
  ◌++◌, false, ℕ, ◌≡◌, ◌≢◌, ◌↔◌, ◌⊎◌, refl, true, false, Option, none, some, List, [], ◌∷◌, Str,
  length, get_elem?, has_byte, ok, fail, codes, str_eq, starts_with, ◌==◌, if◌then◌else◌, pos,
  negsuc, is_positive, arith,
}
use bxroot.Proc.Kill.{
  EntryKind, pid_entry, pgid_entry, Life, live, reaped, Ledger, pass, deny, get, has, reap, sigchld,
  check_kill, signal_always_allowed, check_process, check_group, marked,
}
use bxroot.Proc.Kill.Laws.{check_kill_passes, check_kill_group_passes}
use bxroot.Proc.Args.{
  argpolicy_or_default, classify_arg, classify_arg_ex, arg_is_path_option, keep, translate,
}
use bxroot.Proc.Args.Plan.{
  Answer, rewritten, ArgPlan, plan_set_policy, plan_argv_ex, plan_from, plan_one, plan_reserve,
  apply_argv, apply_from,
}
use bxroot.Proc.Args.Plan.Fixes.{each}
use bxroot.Proc.Args.Plan.Laws.{Rewrites, apply_argv-plan_argv_ex}
use bxroot.Proc.Args.Laws.{Means, classify_arg-Means}
use bxroot.Proc.Env.{env_lookup, env_entry_matches}
use bxroot.Proc.Env.Merge.{merge_preload, segments, is_dup, merge_from, base_name}
use bxroot.Proc.Env.Build.{
  set, EnvKv, EnvPolicy, EnvOut, env_build, carry, carry_one, force, force_one, push_kv, push, fits,
  dropped_by, forced_by, limit_of, budget_of,
}
use bxroot.Proc.Env.Lasting.{Sole, env_build-forced}
use bxroot.Proc.Env.Fitting.{Holds, IsWithin}
use bxroot.Proc.Env.Bounds.{env_build-IsWithin}
use bxroot.Proc.Search.{enoent, etoolong, search_count, search_get, search_from}
use bxroot.Proc.Search.Laws.{directories, candidates, answer, search_get-candidates}

abbrev lives : EntryKind → ℕ → Option Life
lives pid_entry n = if n == 70 then some live else if n == 71 then some live else none
lives pgid_entry n = none

abbrev session : Ledger
session = record { disabled = false; entries = lives }

abbrev after_wait : Ledger
after_wait = record { disabled = false; entries = marked session 71 }

reap-session : reap (some session) 71 ≡ some after_wait
unfolding reap
reap-session = refl

verdicts :
    (check_kill (some session) none (some (pos 5)) (some (pos 6)) (pos 7) (pos 71) 9 ≡ pass)
    × (check_kill (some after_wait) none (some (pos 5)) (some (pos 6)) (pos 7) (pos 71) 9 ≡ deny)
    × (check_kill (some session) none (some (pos 5)) (some (pos 6)) (pos 7) (pos 1) 9 ≡ deny)
    × (check_kill (some session) none (some (pos 5)) (some (pos 6)) (pos 7) (negsuc 0) 9 ≡ deny)
unfolding check_kill check_process check_group signal_always_allowed get
verdicts = (refl, refl, refl, refl)

check_kill_passes_example :
    (check_kill (some session) none (some (pos 5)) (some (pos 6)) (pos 7) (pos 70) 9 ≡ pass) ↔ (
      (9 ≡ sigchld)
      ⊎ (pos 7 ≡ pos 70)
      ⊎ (get session pid_entry 70 ≡ some live)
      ⊎ ((get session pid_entry 70 ≡ none)
          × (is_positive (pos 7) ≡ true)
          × (some (pos 5) ≡ some (pos 70))))
check_kill_passes_example =
    check_kill_passes session (some (pos 5)) (some (pos 6)) (pos 7) 69 9 refl

check_kill_group_passes_example :
    (check_kill (some session) none (some (pos 5)) (some (pos 6)) (pos 7) (negsuc 69) 9 ≡ pass) ↔ (
      (9 ≡ sigchld)
      ⊎ (some (pos 6) ≡ some (pos 70))
      ⊎ (((has session pid_entry 70 ≡ true) ⊎ (has session pgid_entry 70 ≡ true))
          × (get session pid_entry 70 ≢ some reaped)
          × (get session pgid_entry 70 ≢ some reaped)))
check_kill_group_passes_example =
    check_kill_group_passes session (some (pos 5)) (some (pos 6)) (pos 7) 68 9 refl

classify_arg-Means_example :
    Means
      (codes "/data/ubuntu")
      (codes "/data/ubuntu2/ls")
      (classify_arg (some (codes "/data/ubuntu2/ls")) (some (codes "/data/ubuntu")))
classify_arg-Means_example =
    classify_arg-Means (codes "/data/ubuntu2/ls") (codes "/data/ubuntu") refl (omega arith)

arguments :
    (classify_arg_ex (some (codes "/bin/ls")) true none none ≡ translate)
    × (classify_arg_ex (some (codes "/bin/ls")) false none none ≡ keep)
    × (arg_is_path_option (some (codes "-o")) (
          some (record {
            translate_argv0 = true;
            translate_other_args = false;
            path_options = none ∷ (some (codes "-o") ∷ []);
          }))
        ≡ true)
unfolding classify_arg_ex classify_arg arg_is_path_option str_eq
arguments = (refl, refl, refl)

search_get-candidates_example :
    (search_count (some (codes "ls")) (some (codes "/a::/b/"))
      ≡ length (candidates (codes "ls") (some (codes "/a::/b/"))))
    × (search_get (some (codes "ls")) (some (codes "/a::/b/")) 1 64
        ≡ answer 64 (get_elem? (candidates (codes "ls") (some (codes "/a::/b/"))) 1))
search_get-candidates_example =
    search_get-candidates (codes "ls") (some (codes "/a::/b/")) 1 64 (ground arith) (omega arith)

candidates-path :
    (candidates (codes "ls") (some (codes "/a::/b/"))
      ≡ codes "/a/ls" ∷ (codes "./ls" ∷ (codes "/b/ls" ∷ [])))
    × (search_get (some (codes "ls")) (some (codes "/a::/b/")) 3 64 ≡ fail enoent)
    × (search_get (some (codes "ls")) (some (codes "/a::/b/")) 0 5 ≡ fail etoolong)
unfolding candidates directories search_get search_from has_byte
candidates-path = (refl, refl, refl)

abbrev library : Str
library = codes "/l/p.so"

merged_once :
    merge_preload (some (codes "a.so:p.so  b.so")) (some library) 64
    ≡ ok (codes "/l/p.so a.so b.so")
unfolding merge_preload segments is_dup merge_from base_name str_eq has_byte
merged_once = refl

abbrev forced_here : List EnvKv
forced_here = record { name = some (codes "A"); value = some (codes "1"); mode = set } ∷ []

abbrev policy : EnvPolicy
policy = record {
  forced = forced_here;
  drops = some (codes "B") ∷ [];
  max_entries = 0;
  max_bytes = 0;
}

abbrev old : List Str
old = codes "A=0" ∷ (codes "B=2" ∷ (codes "C=3" ∷ []))

abbrev built : EnvOut
built = record { entries = codes "C=3" ∷ (codes "A=1" ∷ []); skipped_long = 0; skipped_budget = 0 }

env_build-old : env_build (λ _. true) true (some old) (some policy) ≡ ok built
unfolding env_build carry carry_one force force_one push_kv push fits dropped_by forced_by
    env_entry_matches starts_with
env_build-old = refl

env_build-forced_example :
    (env_lookup (some built.entries) (some (codes "A")) ≡ some (codes "1"))
    × Sole (codes "A") (some (codes "1")) built
unfolding has_byte
env_build-forced_example =
    env_build-forced (λ _. true) true (some old) policy built [] [] (codes "A") (some (codes "1"))
      refl env_build-old (omega arith) (omega arith) refl (ground arith) tt tt

env_build-IsWithin_example :
    Holds
      (IsWithin (limit_of policy) (budget_of policy))
      (env_build (λ _. true) true (some old) (some policy))
env_build-IsWithin_example = env_build-IsWithin (λ _. true) true (some old) policy (refl, tt)

abbrev command : List Str
command = codes "/bin/grep" ∷ (codes "-f" ∷ (codes "/a" ∷ (codes "/b" ∷ [])))

abbrev by_option : ArgPlan
by_option = plan_set_policy none (
    some (record {
      translate_argv0 = true;
      translate_other_args = false;
      path_options = some (codes "-f") ∷ [];
    }))

abbrev below_root : Option (Str → Answer)
below_root = some (λ path. rewritten (codes "/r" ++ path))

planned : ArgPlan
planned =
    (plan_argv_ex (λ n. true) (some command) (some (codes "/r")) below_root (some by_option)).0

grep_rewritten :
    apply_argv (some command) (some planned) (some 5)
    ≡ ok (some (codes "/r/bin/grep" ∷ (codes "-f" ∷ (codes "/r/a" ∷ (codes "/b" ∷ [])))))
unfolding planned plan_argv_ex plan_from plan_one plan_reserve classify_arg arg_is_path_option
    apply_argv apply_from str_eq starts_with
grep_rewritten = refl

apply_argv-plan_argv_ex_example :
    Rewrites command 5
      (each (argpolicy_or_default by_option.policy) (some (codes "/r")) below_root 0 false command)
      (plan_argv_ex (λ n. true) (some command) (some (codes "/r")) below_root (some by_option))
apply_argv-plan_argv_ex_example =
    apply_argv-plan_argv_ex command (some (codes "/r")) below_root (some by_option) 5 (omega arith)
      (omega arith)
