-- ===== src/Proc/Kill/Laws.antt =====
-- What the verdict on a signal lets out.
use bxroot.Prelude.{
  ℕ, zero, suc, ◌≡◌, ◌≢◌, ◌↔◌, ◌⊎◌, ◌<◌, refl, sym, ◌∙◌, if◌then◌else◌, ◌&&◌, Bool, true, false,
  Option, none, some, arith, ◌==◌, ==_iff, ==_refl, ℤ, pos, negsuc, negative, is_positive, int_is,
  int_is_iff,
}
use bxroot.Proc.Kill.{
  pass, deny, pid_entry, pgid_entry, live, reaped, Ledger, get, has, is_some, mark, marked, reap,
  sigchld, signal_always_allowed, caller_is, check_process, check_group, check_kill, EntryKind,
  Life, by_life, is_reaped,
}

-- The four ways through the checks of a single process.
passes_iff :
    (always self parent : Bool) (found : Option Life)
    → ((if always then pass else if self then pass else by_life found parent) ≡ pass)
      ↔ ((always ≡ true) ⊎ (self ≡ true) ⊎ (found ≡ some live) ⊎ ((found ≡ none) × (parent ≡ true)))
passes_iff true self parent found = ground arith
passes_iff false true parent found = ground arith
passes_iff false false true none = ground arith
passes_iff false false false none = ground arith
passes_iff false false parent (some live) = ground arith
passes_iff false false parent (some reaped) = ground arith

self_iff :
    (self_pid : ℤ) (n : ℕ)
    → ((is_positive self_pid && int_is self_pid (suc n)) ≡ true) ↔ (self_pid ≡ pos (suc n))
self_iff (pos zero) n = ground arith
self_iff (pos (suc m)) n = ground arith
self_iff (negsuc m) n = ground arith

parent_iff :
    (self_pid : ℤ) (ppid : Option ℤ) (n : ℕ)
    → ((is_positive self_pid && caller_is ppid n) ≡ true)
      ↔ ((is_positive self_pid ≡ true) × (ppid ≡ some (pos n)))
parent_iff self_pid none n = ground arith
parent_iff self_pid (some i) n = ground (arith, int_is_iff i n)

-- By the default policy, a signal to a single process passes exactly if it is SIGCHLD, or the target is
-- the caller, or a process of the ledger that is not reaped, or one that the ledger does not know and
-- that is the parent of a caller who knows its own number.
pub check_kill_passes :
    (l : Ledger) (ppid pgrp : Option ℤ) (self_pid : ℤ) (n sig : ℕ)
    → l.disabled ≡ false
    → (check_kill (some l) none ppid pgrp self_pid (pos (suc n)) sig ≡ pass) ↔ (
        (sig ≡ sigchld)
        ⊎ (self_pid ≡ pos (suc n))
        ⊎ (get l pid_entry (suc n) ≡ some live)
        ⊎ ((get l pid_entry (suc n) ≡ none)
            × (is_positive self_pid ≡ true)
            × (ppid ≡ some (pos (suc n)))))
unfolding check_kill check_process signal_always_allowed
check_kill_passes l ppid pgrp self_pid n sig on = rw on (
    ground (
      arith,
      passes_iff (sig == sigchld) (is_positive self_pid && int_is self_pid (suc n))
          (is_positive self_pid && caller_is ppid (suc n)) (get l pid_entry (suc n)),
      self_iff self_pid n,
      parent_iff self_pid ppid (suc n),
      ==_iff sig sigchld,
    ))

own_group : (pgrp : Option ℤ) (n : ℕ) → (caller_is pgrp n ≡ true) ↔ (pgrp ≡ some (pos n))
own_group none n = ground arith
own_group (some i) n = ground (arith, int_is_iff i n)

reaped_iff : (found : Option Life) → (is_reaped found ≡ true) ↔ (found ≡ some reaped)
reaped_iff none = ground arith
reaped_iff (some live) = ground arith
reaped_iff (some reaped) = ground arith

-- By the default policy, a signal to a group passes exactly if it is SIGCHLD, or the group is the
-- caller's own, or the ledger knows its number, as a process or as a group, and neither is reaped.
pub check_kill_group_passes :
    (l : Ledger) (ppid pgrp : Option ℤ) (self_pid : ℤ) (n sig : ℕ)
    → l.disabled ≡ false
    → (check_kill (some l) none ppid pgrp self_pid (negsuc (suc n)) sig ≡ pass) ↔ (
        (sig ≡ sigchld)
        ⊎ (pgrp ≡ some (pos (suc (suc n))))
        ⊎ (((has l pid_entry (suc (suc n)) ≡ true) ⊎ (has l pgid_entry (suc (suc n)) ≡ true))
            × (get l pid_entry (suc (suc n)) ≢ some reaped)
            × (get l pgid_entry (suc (suc n)) ≢ some reaped)))
unfolding check_kill check_group signal_always_allowed has
check_kill_group_passes l ppid pgrp self_pid n sig on = rw on (
    ground (
      arith,
      own_group pgrp (suc (suc n)),
      reaped_iff (get l pid_entry (suc (suc n))),
      reaped_iff (get l pgid_entry (suc (suc n))),
      ==_iff sig sigchld,
    ))

mark_known : (found : Option Life) → is_some found ≡ true → mark found ≡ some reaped
mark_known none known = cc
mark_known (some _) known = refl

get_on :
    (l : Ledger) (kind : EntryKind) (n : ℕ)
    → l.disabled ≡ false
    → get l kind (suc n) ≡ l.entries kind (suc n)
unfolding get
get_on l kind n on = ground (arith, on)

reap_on :
    (l : Ledger) (n : ℕ)
    → l.disabled ≡ false
    → is_some (l.entries pid_entry (suc n)) ≡ true
    → reap (some l) (suc n) ≡ some (record l { entries = marked l (suc n) })
unfolding reap
reap_on l n on known = rw (on, known) (ground arith)

marked_at :
    (l : Ledger) (n : ℕ)
    → is_some (l.entries pid_entry (suc n)) ≡ true
    → marked l (suc n) pid_entry (suc n) ≡ some reaped
marked_at l n known = rw (==_refl (suc n)) (mark_known (l.entries pid_entry (suc n)) known)

reap_marks :
    (l : Ledger) (pid : ℕ) {l' : Ledger}
    → reap (some l) pid ≡ some l'
    → has l pid_entry pid ≡ true
    → (l'.disabled ≡ false) × (0 < pid) × (get l' pid_entry pid ≡ some reaped)
unfolding has get
reap_marks l zero done known = ground arith
reap_marks l (suc n) {l'} done known =
    let on : l.disabled ≡ false = ground arith in
    let there : is_some (l.entries pid_entry (suc n)) ≡ true =
      rw (get_on l pid_entry n on) at known in
    let same : record l { entries = marked l (suc n) } ≡ l' = cc (reap_on l n on there, done) in
    rw (sym same) (
      on,
      omega arith,
      get_on (record l { entries = marked l (suc n) }) pid_entry n on ∙ marked_at l n there,
    )

pub denied :
    (l : Ledger) (pid sig : ℕ) (ppid pgrp : Option ℤ) (self_pid : ℤ)
    → l.disabled ≡ false
    → 0 < pid
    → get l pid_entry pid ≡ some reaped
    → sig ≢ sigchld
    → self_pid ≢ pos pid
    → pgrp ≢ some (pos pid)
    → (check_kill (some l) none ppid pgrp self_pid (pos pid) sig ≡ deny)
      × (check_kill (some l) none ppid pgrp self_pid (negative pid) sig ≡ deny)
unfolding check_kill check_process check_group signal_always_allowed has
denied l zero sig ppid pgrp self_pid on some_pid gone s1 s2 s3 = absurd (omega arith)
denied l (suc zero) sig ppid pgrp self_pid on some_pid gone s1 s2 s3 =
    rw (on, sym (get_on l pid_entry 0 on) ∙ gone)
      (ground (arith, self_iff self_pid 0, ==_iff sig sigchld))
denied l (suc (suc n)) sig ppid pgrp self_pid on some_pid gone s1 s2 s3 =
    rw (on, sym (get_on l pid_entry (suc n) on) ∙ gone)
      (ground (arith, self_iff self_pid (suc n), own_group pgrp (suc (suc n)), ==_iff sig sigchld))

-- By the default policy, a process that was in the ledger when it was reaped gets no more signals, by
-- its own number or by that of a group, but SIGCHLD, and what it sends itself or its group.
pub check_kill-reap :
    (l : Ledger) (pid sig : ℕ) (ppid pgrp : Option ℤ) (self_pid : ℤ) {l' : Ledger}
    → reap (some l) pid ≡ some l'
    → has l pid_entry pid ≡ true
    → sig ≢ sigchld
    → self_pid ≢ pos pid
    → pgrp ≢ some (pos pid)
    → (check_kill (some l') none ppid pgrp self_pid (pos pid) sig ≡ deny)
      × (check_kill (some l') none ppid pgrp self_pid (negative pid) sig ≡ deny)
check_kill-reap l pid sig ppid pgrp self_pid {l'} done known other_signal not_self not_own =
    let (on, some_pid, gone) = reap_marks l pid done known in
    denied l' pid sig ppid pgrp self_pid on some_pid gone other_signal not_self not_own
