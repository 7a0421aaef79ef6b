-- ===== src/Fakeroot/Map/Ops.antt =====
-- fakeroot.c, §2: the operations of the table of records. The pointers to the table and to a record
-- are not NULL. The lock is left out: each operation is one step.
use bxroot.Prelude.{
  ℕ, ◌+◌, ◌-◌, ◌/◌, ◌%◌, ◌^◌, Bool, ◌&&◌, none, some, List, [], ◌∷◌, set, ltb, ◌==◌, if◌then◌else◌,
  Result, ok, fail,
}
use bxroot.Fakeroot.Types.{FrCode, enoent, efull, Record}
use bxroot.Fakeroot.Patch.{updated}
use bxroot.Fakeroot.Map.Keys.{FrKey}
use bxroot.Table.{empty, tomb, live, Probe, hit, free, full, slot_at, lives, tombs}
use bxroot.Fakeroot.Map.Store.{RecordMap, RecordSlot, evict_batch, probe}
use bxroot.Fakeroot.Map.Upkeep.{Done, bury, compact, evict_lru, overloaded}

-- `m->clock++`
abbrev pub tick : ℕ → ℕ
tick n = (n + 1) % 2 ^ 64

abbrev pub write : RecordMap → ℕ → FrKey → Record → RecordMap
write m j k rec = record m {
  slots = set m.slots j (live k rec (tick m.clock));
  clock = tick m.clock;
}

-- `if (m->slots[idx].state == FR_SLOT_TOMB) m->tombs--;`
abbrev pub reused : RecordSlot → ℕ → ℕ
reused tomb n = n - 1
reused empty n = n
reused (live k r age) n = n

-- What `fakeroot_map_put` does when the probe is over.
abbrev pub put_at : RecordMap → FrKey → Record → Probe → Done
put_at m k rec full = (fail efull, m)
put_at m k rec (hit j) = (ok tt, write m j k rec)
put_at m k rec (free j) = (
  ok tt,
  record (write m j k rec) {
    count = m.count + 1;
    tomb_count = reused (slot_at m.slots j) m.tomb_count;
  },
)

abbrev pub relieved : RecordMap → RecordMap
relieved m = if overloaded m && m.eviction then (evict_lru m evict_batch).1 else m

abbrev pub put_in : FrKey → Record → Done → Done
put_in k rec (fail e, m) = (fail e, m)
put_in k rec (ok _, m) = let m' = relieved m in put_at m' k rec (probe m'.slots m'.cap m'.mask k)

-- `if (m->tombs > (m->cap / 4u))`
abbrev pub tidied : Bool → RecordMap → Done
tidied alloc_ok m = if ltb (m.cap / 4) m.tomb_count then compact alloc_ok m else (ok tt, m)

unfoldable pub put : Bool → RecordMap → FrKey → Record → Done
unfolding compact evict_lru probe
put alloc_ok m k rec = if m.disabled then (ok tt, m) else put_in k rec (tidied alloc_ok m)

abbrev pub got_at : RecordMap → ℕ → RecordSlot → Result FrCode Record × RecordMap
got_at m j (live k r age) = (ok r, write m j k r)
got_at m j empty = (fail enoent, m)
got_at m j tomb = (fail enoent, m)

abbrev pub got : RecordMap → Probe → Result FrCode Record × RecordMap
got m (hit j) = got_at m j (slot_at m.slots j)
got m (free j) = (fail enoent, m)
got m full = (fail enoent, m)

unfoldable pub get : RecordMap → FrKey → Result FrCode Record × RecordMap
unfolding probe
get m k = if m.disabled then (fail enoent, m) else got m (probe m.slots m.cap m.mask k)

abbrev pub merged : Bool → RecordMap → FrKey → Record → ℕ → RecordSlot → Done
merged alloc_ok m k delta j (live k' r age) = (ok tt, write m j k' (updated (some r) delta))
merged alloc_ok m k delta j empty = put alloc_ok m k (updated none delta)
merged alloc_ok m k delta j tomb = put alloc_ok m k (updated none delta)

abbrev pub update_at : Bool → RecordMap → FrKey → Record → Probe → Done
update_at alloc_ok m k delta (hit j) = merged alloc_ok m k delta j (slot_at m.slots j)
update_at alloc_ok m k delta (free j) = put alloc_ok m k (updated none delta)
update_at alloc_ok m k delta full = put alloc_ok m k (updated none delta)

unfoldable pub update : Bool → RecordMap → FrKey → Record → Done
unfolding probe
update alloc_ok m k delta =
    if m.disabled then (ok tt, m) else update_at alloc_ok m k delta (probe m.slots m.cap m.mask k)

abbrev pub removed : RecordMap → Probe → Done
removed m (hit j) = (ok tt, bury m j)
removed m (free j) = (fail enoent, m)
removed m full = (fail enoent, m)

unfoldable pub remove : RecordMap → FrKey → Done
unfolding probe
remove m k = if m.disabled then (fail enoent, m) else removed m (probe m.slots m.cap m.mask k)

unfoldable pub cleared : List RecordSlot → List RecordSlot
cleared [] = []
cleared (s ∷ slots) = empty ∷ cleared slots

unfoldable pub clear : RecordMap → RecordMap
unfolding cleared
clear m = record m { slots = cleared m.slots; count = 0; tomb_count = 0; clock = 0 }

abbrev pub set_disabled : RecordMap → Bool → RecordMap
set_disabled m off = record m { disabled = off }

abbrev pub set_eviction : RecordMap → Bool → RecordMap
set_eviction m enabled = record m { eviction = enabled }

unfoldable pub check_invariants : RecordMap → Bool
unfolding lives tombs
check_invariants m = lives m.slots == m.count && tombs m.slots == m.tomb_count
