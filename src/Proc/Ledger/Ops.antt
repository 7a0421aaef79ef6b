-- ===== src/Proc/Ledger/Ops.antt =====
-- proc.c, §1: the operations of the ledger. The pointer to it is not NULL. The mutex is left out: each
-- operation is one step.
use Prim.Native.Nat.{bit_and}
use bxroot.Prelude.{
  ℕ, zero, suc, ◌+◌, ◌-◌, ◌*◌, Bool, true, false, not, ◌&&◌, Option, none, some, List, [], ◌∷◌, set,
  ltb, leb, ◌==◌, if◌then◌else◌, Result, ok, fail,
}
use bxroot.Proc.Kill.{Life, reaped}
use bxroot.Proc.Ledger.Types.{
  PxCode, enomem, efull, EntryKey, Entry, default_slots, max_slots, load_percent, hash_pid,
  same_entry,
}
use bxroot.Table.{Slot, empty, tomb, live, Probe, hit, free, full, index_of, slot_at, empties}
use bxroot.Table.Rounding.{round_pow2}

abbrev pub EntrySlot : Type 0
EntrySlot = Slot EntryKey Entry

-- `struct px_ledger`, less the allocator.
pub record Table : Type 0 where
  pub slots : List EntrySlot
  pub cap : ℕ
  pub mask : ℕ
  pub count : ℕ
  pub tomb_count : ℕ
  pub clock : ℕ
  pub disabled : Bool
  pub eviction : Bool

abbrev pub fresh : ℕ → Table
fresh cap = record {
  slots = empties cap;
  cap = cap;
  mask = cap - 1;
  count = 0;
  tomb_count = 0;
  clock = 0;
  disabled = false;
  eviction = true;
}

abbrev pub wanted : ℕ → ℕ
wanted n =
    let want = if n == 0 then default_slots else n in if ltb max_slots want then max_slots else want

-- `alloc_ok` says that both calls of `calloc` succeed.
unfoldable pub create : Bool → ℕ → Option Table
create alloc_ok n =
    let cap = round_pow2 (wanted n) in
    if cap == 0 then none else if alloc_ok then some (fresh cap) else none

-- The place after `n` steps: `i = (i + 1) & l->mask`.
unfoldable pub place : ℕ → EntryKey → ℕ → ℕ
place mask k zero = bit_and (hash_pid k.pid k.kind) mask
place mask k (suc n) = bit_and (place mask k n + 1) mask

-- `first_tomb`, or else this.
abbrev pub tomb_or : Option ℕ → Probe → Probe
tomb_or none p = p
tomb_or (some j) p = free j

abbrev pub noted : Option ℕ → ℕ → Option ℕ
noted none i = some i
noted (some j) i = some j

-- One round of the loop at the slot of index `i`, with what the rounds after it give for a first
-- tombstone.
abbrev pub look : EntrySlot → EntryKey → ℕ → Option ℕ → (Option ℕ → Probe) → Probe
look empty k i first_tomb next = tomb_or first_tomb (free i)
look tomb k i first_tomb next = next (noted first_tomb i)
look (live k' e age) k i first_tomb next = if same_entry k' k then hit i else next first_tomb

unfoldable pub probe_from : List EntrySlot → ℕ → EntryKey → ℕ → ℕ → Option ℕ → Probe
probe_from slots mask k zero i first_tomb = tomb_or first_tomb full
probe_from slots mask k (suc n) i first_tomb =
    look (slot_at slots i) k i first_tomb (λ t. probe_from slots mask k n (bit_and (i + 1) mask) t)

unfoldable pub probe : Table → EntryKey → Probe
unfolding probe_from
probe l k = probe_from l.slots l.mask k l.cap (bit_and (hash_pid k.pid k.kind) l.mask) none

abbrev pub there : {X : Type 0} → Option ℕ → (ℕ → Option X) → Option X
there none next = none
there (some j) next = next j

-- The loop that moves the entries to other slots. `none` is a write behind the array.
unfoldable pub move_all : ℕ → ℕ → List EntrySlot → List EntrySlot → ℕ → Option (List EntrySlot × ℕ)
unfolding probe_from
move_all cap mask [] new n = some (new, n)
move_all cap mask (empty ∷ old) new n = move_all cap mask old new n
move_all cap mask (tomb ∷ old) new n = move_all cap mask old new n
move_all cap mask (live k e age ∷ old) new n =
    there (index_of (probe_from new mask k cap (bit_and (hash_pid k.pid k.kind) mask) none))
      (λ j. move_all cap mask old (set new j (live k e age)) (n + 1))

abbrev pub Done : Type 0
Done = Result PxCode (Unit {0}) × Table

abbrev pub moved : Table → ℕ → Option (List EntrySlot × ℕ) → Option Done
moved l cap none = none
moved l cap (some (new, n)) =
    some (ok tt, record l { slots = new; cap = cap; mask = cap - 1; count = n; tomb_count = 0 })

-- `alloc_ok` says that `calloc` gives the new slots.
unfoldable pub compact : Bool → Table → Option Done
unfolding move_all
compact false l = some (fail enomem, l)
compact true l = moved l l.cap (move_all l.cap l.mask l.slots (empties l.cap) 0)

abbrev pub doubled : ℕ → ℕ
doubled cap = if ltb max_slots (cap * 2) then max_slots else cap * 2

abbrev pub grown : Bool → Table → Option Done
grown false l = some (fail enomem, l)
grown true l =
    let want = doubled l.cap in moved l want (move_all want (want - 1) l.slots (empties want) 0)

unfoldable pub grow : Bool → Table → Option Done
unfolding move_all
grow alloc_ok l = if leb max_slots l.cap then some (fail efull, l) else grown alloc_ok l

-- `px_evictable` of a slot, and whether it is the oldest seen: `best` is the one before.
abbrev pub is_reaped : Life → Bool
is_reaped reaped = true
is_reaped _ = false

abbrev pub is_older : ℕ → Option (ℕ × ℕ) → Bool
is_older age none = true
is_older age (some (j, best_clock)) = ltb age best_clock

unfoldable pub oldest_reaped : List EntrySlot → ℕ → Option (ℕ × ℕ) → Option (ℕ × ℕ)
oldest_reaped [] i best = best
oldest_reaped (empty ∷ slots) i best = oldest_reaped slots (suc i) best
oldest_reaped (tomb ∷ slots) i best = oldest_reaped slots (suc i) best
oldest_reaped (live k e age ∷ slots) i best =
    oldest_reaped slots (suc i)
      (if is_reaped e.life && is_older age best then some (i, age) else best)

abbrev pub bury : Table → ℕ → Table
bury l j = record l {
  slots = set l.slots j tomb;
  count = l.count - 1;
  tomb_count = l.tomb_count + 1;
}

abbrev pub evict_one : Option (ℕ × ℕ) → Table → (Table → ℕ × Table) → ℕ × Table
evict_one none l next = (0, l)
evict_one (some (j, age)) l next = (suc (next (bury l j)).0, (next (bury l j)).1)

unfoldable pub evict : Table → ℕ → ℕ × Table
unfolding oldest_reaped
evict l zero = (0, l)
evict l (suc n) = evict_one (oldest_reaped l.slots 0 none) l (λ l'. evict l' n)

abbrev pub overloaded : Table → Bool
overloaded l = not (l.cap == 0) && leb (l.cap * load_percent) ((l.count + l.tomb_count) * 100)

-- How a call under the lock ends: it returns, it waits for ever for the lock that it holds, or it writes
-- behind the array.
pub data Ending : Type 0 where
  returned : Done → Ending
  locked_out beyond : Ending

-- What `px_ledger_put` does when a table is still overloaded and could not grow, or could.
-- `px_ledger_evict` takes the lock, which is held here and is not recursive.
abbrev pub after_grow : Table → Done → Ending
after_grow l (ok _, l') = returned (ok tt, l')
after_grow l (fail e, l') = if l.eviction then locked_out else returned (fail e, l')

abbrev pub then_end : (Done → Ending) → Option Done → Ending
then_end f none = beyond
then_end f (some d) = f d

abbrev pub after_compact : Bool → Option Done → Ending
after_compact alloc_ok none = beyond
after_compact alloc_ok (some (fail e, l)) = returned (fail e, l)
after_compact alloc_ok (some (ok _, l)) =
    if overloaded l then then_end (after_grow l) (grow alloc_ok l) else returned (ok tt, l)

-- The first argument is for the slots of `px_ledger_compact`, the second for those of
-- `px_ledger_grow`.
unfoldable pub make_room : Bool → Bool → Table → Ending
unfolding compact grow
make_room alloc_ok alloc_ok' l =
    if overloaded l
    then after_compact alloc_ok'
        (if ltb 0 l.tomb_count then compact alloc_ok l else some (ok tt, l))
    else returned (ok tt, l)
