-- ===== src/Proc/Ledger/Tests.antt =====
-- The theorems on the ledger at one of four slots that holds one process.
use bxroot.Prelude.{
  ◌≡◌, refl, true, ◌||◌, ◌==◌, none, some, if◌then◌else◌, ok, pos, negative, arith,
}
use bxroot.Proc.Kill.{deny, check_kill}
use bxroot.Proc.Ledger.Types.{EntryKey, Entry, entry_key, same_entry_iff, tag_fork}
use bxroot.Proc.Ledger.Ops.{Table, fresh, place, grow, doubled}
use bxroot.Proc.Ledger.Access.{new_entry, put_at, reap, hit_code}
use bxroot.Proc.Ledger.Probing.{place-lt}
use bxroot.Proc.Ledger.Valid.{IsValid, Updated, insert-Updated}
use bxroot.Proc.Ledger.Lookup.{is_there, dead}
use bxroot.Proc.Ledger.Growing.{Repacked, grow-Repacked}
use bxroot.Proc.Ledger.Reaping.{by_pid, by_pgid, reap-dead}
use bxroot.Proc.Ledger.Shown.{shown, check_kill-shown-reap}
use bxroot.Proc.Ledger.Creating.{fresh-IsValid}
use bxroot.Table.{free, view}
use bxroot.Table.Moves.{empties-IsBlank, slot_at-blank, view-blank}

abbrev child : EntryKey
child = by_pid 71

abbrev entry : Entry
entry = new_entry 70 tag_fork

abbrev table : Table
table = (put_at (fresh 4) child 70 tag_fork (free (place 3 child 0))).1

table_lem : Updated (fresh 4) child (some entry) table
table_lem =
    let blank = empties-IsBlank 4 in
    insert-Updated (fresh 4) (fresh-IsValid 4 (2, refl)) child (place 3 child 0)
      (place-lt 3 4 child 0 refl) entry 1 1 (rw (slot_at-blank (place 3 child 0) blank) refl)
      (view-blank child blank) (0, omega arith, refl, λ i lt. absurd (omega arith))

table-IsValid : IsValid table
table-IsValid = table_lem.0

child-there : view table.slots child ≡ some entry
child-there = rw ((same_entry_iff child child).1 refl) at (table_lem.1 child)

grow-Repacked_example :
    (l : Table) × (grow true table ≡ some (ok tt, l))
    × Repacked table l
    × (l.cap ≡ doubled table.cap)
grow-Repacked_example = grow-Repacked table table-IsValid (omega arith)

reap-dead_example :
    ((reap table 71).0
      ≡ hit_code
          (is_there (view table.slots (by_pid 71)) || is_there (view table.slots (by_pgid 71))))
    × IsValid (reap table 71).1
    × ((q : EntryKey)
        → view (reap table 71).1.slots q
          ≡ (if q.pid == 71 then dead (view table.slots q) else view table.slots q))
reap-dead_example = reap-dead table 71 table-IsValid refl (λ e. omega (arith, e))

check_kill-shown-reap_example :
    (check_kill
        (some (shown (reap table 71).1))
        none
        (some (pos 5))
        (some (pos 6))
        (pos 7)
        (pos 71)
        9
      ≡ deny)
    × (check_kill
          (some (shown (reap table 71).1))
          none
          (some (pos 5))
          (some (pos 6))
          (pos 7)
          (negative 71)
          9
        ≡ deny)
check_kill-shown-reap_example =
    check_kill-shown-reap table 71 9 (some (pos 5)) (some (pos 6)) (pos 7) entry table-IsValid refl
      (omega arith) child-there (λ e. omega (arith, e)) (λ e. ground (arith, e))
      (λ e. ground (arith, e))
