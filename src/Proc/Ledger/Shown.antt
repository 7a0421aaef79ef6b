-- ===== src/Proc/Ledger/Shown.antt =====
-- proc.c: the ledger of Proc/Kill and the table of Proc/Ledger, from `px_ledger_reap` to `px_check_kill`.
use bxroot.Proc.Kill
use bxroot.Prelude.{
  ℕ, ◌<◌, ◌≡◌, ◌≢◌, refl, sym, ◌∙◌, ap, inl, inr, true, false, Option, none, some, Result, ok, fail,
  Bool-cases, ◌==◌, ℤ, pos, negative, arith,
}
use bxroot.Proc.Kill.{
  EntryKind, pid_entry, pgid_entry, Life, reaped, Ledger, deny, sigchld, check_kill,
}
use bxroot.Proc.Kill.Laws.{denied}
use bxroot.Proc.Ledger.Types.{PxCode, Entry, entry_key}
use bxroot.Proc.Ledger.Ops.{Table}
use bxroot.Proc.Ledger.Access.{marked, mark_reaped, reap, get}
use bxroot.Proc.Ledger.Valid.{IsValid}
use bxroot.Proc.Ledger.Lookup.{answer, get-answer}
use bxroot.Proc.Ledger.Reaping.{by_pid, reap-dead}
use bxroot.Table.{Probe, hit, free, full, view}

abbrev pub life_of : Option Entry → Option Life
life_of none = none
life_of (some e) = some e.life

-- What the lookups of the table show.
abbrev pub shown : Table → Ledger
shown l = record {
  disabled = l.disabled;
  entries = λ kind pid. life_of (view l.slots (record { pid = pid; kind = kind }));
}

abbrev pub life_in : Result PxCode Entry → Option Life
life_in (ok e) = some e.life
life_in (fail e) = none

life_in-answer : (o : Option Entry) → life_in (answer o) ≡ life_of o
life_in-answer none = refl
life_in-answer (some e) = refl

get_on :
    (l : Table) (kind : EntryKind) (pid : ℕ)
    → l.disabled ≡ false
    → (pid == 0) ≡ false
    → bxroot.Proc.Kill.get (shown l) kind pid
      ≡ life_of (view l.slots (record { pid = pid; kind = kind }))
unfolding bxroot.Proc.Kill.get
get_on l kind pid on number = simp (on, number) refl

-- What Proc/Kill takes for `px_ledger_get` is what the table gives, of a well-formed ledger, on or off,
-- and whatever the process number.
pub get-shown :
    (l : Table) (kind : EntryKind) (pid : ℕ)
    → IsValid l
    → bxroot.Proc.Kill.get (shown l) kind pid ≡ life_in (get l (record { pid = pid; kind = kind }))
unfolding bxroot.Proc.Kill.get get
get-shown l kind pid valid = elim (Bool-cases l.disabled) [
  | inl off ↦ simp off refl
  | inr on ↦ elim (Bool-cases (pid == 0)) [
    | inl e ↦ simp (on, e) refl
    | inr e ↦
        get_on l kind pid on e
        ∙ sym (
            ap life_in (
              get-answer l valid (record { pid = pid; kind = kind }) on (λ h. ground (arith, e, h)))
            ∙ life_in-answer (view l.slots (record { pid = pid; kind = kind })))
  ]
]

marked_on : (l : Table) (p : Probe) → (marked l p).1.disabled ≡ l.disabled
marked_on l (hit j) = refl
marked_on l (free j) = refl
marked_on l full = refl

reap_on : (l : Table) (pid : ℕ) → l.disabled ≡ false → (reap l pid).1.disabled ≡ false
unfolding reap mark_reaped
reap_on l pid on = elim (Bool-cases (pid == 0)) [
  | inl e ↦ simp (on, e) refl
  | inr e ↦ simp (on, e) (marked_on _ _ ∙ marked_on l _ ∙ on)
]

-- By the default policy, a process that the table held when `px_ledger_reap` was called with its
-- positive number gets no more signals, by its own number or by that of a group, but SIGCHLD, and what
-- it sends itself or its group. The ledger is well-formed and on.
pub check_kill-shown-reap :
    (l : Table) (pid sig : ℕ) (ppid pgrp : Option ℤ) (self_pid : ℤ) (e : Entry)
    → IsValid l
    → l.disabled ≡ false
    → 0 < pid
    → view l.slots (by_pid pid) ≡ some e
    → sig ≢ sigchld
    → self_pid ≢ pos pid
    → pgrp ≢ some (pos pid)
    → (check_kill (some (shown (reap l pid).1)) none ppid pgrp self_pid (pos pid) sig ≡ deny)
      × (check_kill (some (shown (reap l pid).1)) none ppid pgrp self_pid (negative pid) sig ≡ deny)
check_kill-shown-reap l pid sig ppid pgrp self_pid e valid on some_pid there other_signal not_self
      not_own =
    let (done, valid', reads) = reap-dead l pid valid on (omega arith) in
    let on' = reap_on l pid on in
    let number : (pid == 0) ≡ false = ground (arith, some_pid) in
    let same : (pid == pid) ≡ true = ground arith in
    let gone =
      get_on (reap l pid).1 pid_entry pid on' number
      ∙ ap life_of (rw (same, there) at (reads (by_pid pid))) in
    denied (shown (reap l pid).1) pid sig ppid pgrp self_pid on' some_pid gone other_signal not_self
      not_own
