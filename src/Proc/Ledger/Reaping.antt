-- ===== src/Proc/Ledger/Reaping.antt =====
-- `px_ledger_reap`, and the ledger as px_check_kill sees it.
use bxroot.Prelude.{
  ℕ, ◌≡◌, refl, sym, ◌∙◌, ap, inl, inr, true, false, ◌||◌, Option, Bool-cases, if◌then◌else◌, ◌==◌,
  ==_iff, arith,
}
use bxroot.Proc.Kill.{EntryKind, pid_entry, pgid_entry}
use bxroot.Proc.Ledger.Types.{EntryKey, Entry, entry_key, same_entry, same_entry_iff, same_kind}
use bxroot.Proc.Ledger.Ops.{Table}
use bxroot.Proc.Ledger.Access.{mark_reaped, hit_code, reap}
use bxroot.Proc.Ledger.Valid.{IsValid}
use bxroot.Proc.Ledger.Lookup.{is_there, dead, mark_reaped_lem}
use bxroot.Table.{view}

abbrev pub by_pid : ℕ → EntryKey
by_pid pid = record { pid = pid; kind = pid_entry }

abbrev pub by_pgid : ℕ → EntryKey
by_pgid pid = record { pid = pid; kind = pgid_entry }

other_number :
    (pid n : ℕ) (a b : EntryKind)
    → (n == pid) ≡ false
    → same_entry (record { pid = pid; kind = a }) (record { pid = n; kind = b }) ≡ false
unfolding same_entry
other_number pid n a b e = let apart : (pid == n) ≡ false = ground (arith, e) in rw apart refl

own_number :
    (n : ℕ) (a : EntryKind)
    → same_entry (record { pid = n; kind = a }) (record { pid = n; kind = a }) ≡ true
own_number n a =
    (same_entry_iff (record { pid = n; kind = a }) (record { pid = n; kind = a })).1 refl

other_kind :
    (n : ℕ)
    → (same_entry (by_pid n) (by_pgid n) ≡ false) × (same_entry (by_pgid n) (by_pid n) ≡ false)
unfolding same_entry same_kind
other_kind n = let same : (n == n) ≡ true = ground arith in (rw same refl, rw same refl)

both_own :
    (n : ℕ) (v v' v'' : EntryKey → Option Entry)
    → ((q : EntryKey) → v' q ≡ (if same_entry (by_pid n) q then dead (v (by_pid n)) else v q))
    → ((q : EntryKey) → v'' q ≡ (if same_entry (by_pgid n) q then dead (v' (by_pgid n)) else v' q))
    → (kind : EntryKind)
    → v'' (record { pid = n; kind = kind }) ≡ dead (v (record { pid = n; kind = kind }))
both_own n v v' v'' reads reads' pid_entry =
    rw (other_kind n).1 at (reads' (by_pid n)) ∙ rw (own_number n pid_entry) at (reads (by_pid n))
both_own n v v' v'' reads reads' pgid_entry =
    rw (own_number n pgid_entry) at (reads' (by_pgid n))
    ∙ ap dead (rw (other_kind n).0 at (reads (by_pgid n)))

-- The map after both entries of a number were marked.
both_marked :
    (pid : ℕ) (v v' v'' : EntryKey → Option Entry)
    → ((q : EntryKey) → v' q ≡ (if same_entry (by_pid pid) q then dead (v (by_pid pid)) else v q))
    → ((q : EntryKey)
        → v'' q ≡ (if same_entry (by_pgid pid) q then dead (v' (by_pgid pid)) else v' q))
    → (n : ℕ) (kind : EntryKind)
    → v'' (record { pid = n; kind = kind }) ≡ (
        if n == pid
        then dead (v (record { pid = n; kind = kind }))
        else v (record { pid = n; kind = kind }))
both_marked pid v v' v'' reads reads' n kind = elim (Bool-cases (n == pid)) [
  | inr e ↦ rw e (
      rw (other_number pid n pgid_entry kind e) at (reads' (record { pid = n; kind = kind }))
      ∙ rw (other_number pid n pid_entry kind e) at (reads (record { pid = n; kind = kind })))
  | inl e ↦
      let same : pid ≡ n = sym ((==_iff n pid).0 e) in
      rw e (both_own n v v' v'' (rw same at reads) (rw same at reads') kind)
]

-- `px_ledger_reap` of a positive process number on a well-formed ledger that is not disabled marks the
-- entry of the number as a process and that as a group, where they are there, as reaped, and no other,
-- and makes none. It says PX_ENOENT exactly if neither is there. The ledger stays well-formed.
pub reap-dead :
    (l : Table) (pid : ℕ)
    → IsValid l
    → l.disabled ≡ false
    → ¬ (pid ≡ 0)
    → ((reap l pid).0
        ≡ hit_code (is_there (view l.slots (by_pid pid)) || is_there (view l.slots (by_pgid pid))))
      × IsValid (reap l pid).1
      × ((q : EntryKey)
          → view (reap l pid).1.slots q
            ≡ (if q.pid == pid then dead (view l.slots q) else view l.slots q))
unfolding reap
reap-dead l pid valid on positive =
    let number : (pid == 0) ≡ false = ground (arith, positive) in
    let (there, (valid', reads)) = mark_reaped_lem l valid (by_pid pid) in
    let (there', (valid'', reads')) =
      mark_reaped_lem (mark_reaped l (by_pid pid)).1 valid' (by_pgid pid) in
    let kept = rw (other_kind pid).0 at (reads (by_pgid pid)) in
    simp (on, number)
      (
        ap hit_code (rw (there, there', kept) refl),
        valid'',
        λ q. both_marked pid (view l.slots) _ _ reads reads' q.pid q.kind,
      )
