-- ===== src/Proc/Ledger/Putting.antt =====
-- `px_ledger_put` on a well-formed ledger.
use bxroot.Prelude.{ℕ, ◌≡◌, Bool, true, Option, none, some, if◌then◌else◌, ok, fail}
use bxroot.Proc.Ledger.Types.{PxCode, EntryKey, Entry, entry_key, same_entry}
use bxroot.Proc.Ledger.Ops.{Table, Ending, returned, locked_out}
use bxroot.Proc.Ledger.Access.{refreshed, new_entry}
use bxroot.Proc.Ledger.Valid.{IsValid}
use bxroot.Table.{view}
use bxroot.Proc.Ledger.Room.{Refusal, Holds}

-- The entry of a process that is added, for the entry it had.
abbrev pub added : Option Entry → ℕ → ℕ → Entry
added none ppid tag = new_entry ppid tag
added (some e) ppid tag = refreshed e ppid tag

-- The ledger after an entry was added: each other one is as it was.
abbrev pub Added : Table → EntryKey → ℕ → ℕ → Table → Type 0
Added l k ppid tag l' =
    (q : EntryKey)
    → view l'.slots q
      ≡ (if same_entry k q then some (added (view l.slots k) ppid tag) else view l.slots q)

-- How `px_ledger_put` may end.
pub data Admission (alloc_ok alloc_ok' : Bool) (l : Table) (k : EntryKey) (ppid tag : ℕ)
    : Ending → Type 0 where
  stored :
      (l' : Table)
      → IsValid l'
      → Added l k ppid tag l'
      → Admission alloc_ok alloc_ok' l k ppid tag (returned (ok tt, l'))
  refused :
      (e : PxCode) (l' : Table)
      → IsValid l'
      → Holds l l'
      → Refusal alloc_ok alloc_ok' l' e
      → Admission alloc_ok alloc_ok' l k ppid tag (returned (fail e, l'))
  hangs :
      (e : PxCode) (l' : Table)
      → Holds l l'
      → Refusal alloc_ok alloc_ok' l' e
      → l.eviction ≡ true
      → Admission alloc_ok alloc_ok' l k ppid tag locked_out
