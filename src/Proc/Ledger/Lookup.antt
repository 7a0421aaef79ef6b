-- ===== src/Proc/Ledger/Lookup.antt =====
-- `px_ledger_get`, `px_ledger_remove` and `px_ledger_reap` on a well-formed ledger.
use bxroot.Prelude.{
  ◌≡◌, refl, Bool, true, false, ◌||◌, Option, none, some, Result, ok, fail, ◌==◌, arith,
}
use bxroot.Proc.Kill.{reaped}
use bxroot.Proc.Ledger.Types.{PxCode, enoent, EntryKey, Entry, entry_key}
use bxroot.Proc.Ledger.Ops.{Table, place}
use bxroot.Proc.Ledger.Access.{got, get, marked, mark_reaped, removed, remove}
use bxroot.Proc.Ledger.Valid.{
  IsValid, Updated, write-Updated, bury-Updated, read_at, unmoved, whole-Ends,
}
use bxroot.Table.{Probe, view}
use bxroot.Table.Paths.{Ends, at_key, at_free, at_none}

abbrev pub answer : Option Entry → Result PxCode Entry
answer none = fail enoent
answer (some e) = ok e

abbrev pub deletion : Option Entry → Result PxCode (Unit {0})
deletion none = fail enoent
deletion (some e) = ok tt

abbrev pub is_there : Option Entry → Bool
is_there none = false
is_there (some e) = true

abbrev pub dead : Option Entry → Option Entry
dead none = none
dead (some e) = some (record e { life = reaped })

module _ (l : Table) (valid : IsValid l) (k : EntryKey) where
  got_lem : (p : Probe) → Ends (place l.mask) l.cap l.slots k p → got l p ≡ answer (view l.slots k)
  got_lem _ (at_key j old age lt here) = rw (here, read_at l valid k j lt old age here) refl
  got_lem _ (at_free j lt vacant absent reach) = rw absent refl
  got_lem _ (at_none absent crowd) = rw absent refl

  removed_lem :
      (p : Probe)
      → Ends (place l.mask) l.cap l.slots k p
      → ((removed l p).0 ≡ deletion (view l.slots k)) × Updated l k none (removed l p).1
  removed_lem _ (at_key j old age lt here) =
      rw (read_at l valid k j lt old age here) (refl, bury-Updated l valid k j lt old age here)
  removed_lem _ (at_free j lt vacant absent reach) = rw absent (refl, unmoved l valid k refl absent)
  removed_lem _ (at_none absent crowd) = rw absent (refl, unmoved l valid k refl absent)

  marked_lem :
      (p : Probe)
      → Ends (place l.mask) l.cap l.slots k p
      → ((marked l p).0 ≡ is_there (view l.slots k))
        × Updated l k (dead (view l.slots k)) (marked l p).1
  marked_lem _ (at_key j old age lt here) =
      rw (here, read_at l valid k j lt old age here)
        (refl, write-Updated l valid k j lt old age here (record old { life = reaped }) age l.clock)
  marked_lem _ (at_free j lt vacant absent reach) = rw absent (refl, unmoved l valid k refl absent)
  marked_lem _ (at_none absent crowd) = rw absent (refl, unmoved l valid k refl absent)

  pub mark_reaped_lem :
      ((mark_reaped l k).0 ≡ is_there (view l.slots k))
      × Updated l k (dead (view l.slots k)) (mark_reaped l k).1
  unfolding mark_reaped
  mark_reaped_lem = marked_lem _ (whole-Ends l valid k)

  -- `px_ledger_get` on a well-formed ledger that is not disabled returns the entry that the map holds
  -- for a positive process number and its kind, and PX_ENOENT if it holds none.
  pub get-answer : l.disabled ≡ false → ¬ (k.pid ≡ 0) → get l k ≡ answer (view l.slots k)
  unfolding get
  get-answer on positive =
      let off : (l.disabled || k.pid == 0) ≡ false = ground (arith, on, positive) in
      simp off (got_lem _ (whole-Ends l valid k))

  -- `px_ledger_remove` on a well-formed ledger that is not disabled succeeds if the map holds the entry,
  -- and says PX_ENOENT if not; in both cases the entry is gone then, the others are as they were, and
  -- the ledger is well-formed.
  pub remove-deletion :
      l.disabled ≡ false
      → ((remove l k).0 ≡ deletion (view l.slots k)) × Updated l k none (remove l k).1
  unfolding remove
  remove-deletion on = simp on (removed_lem _ (whole-Ends l valid k))
