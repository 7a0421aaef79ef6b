-- ===== src/Fakeroot/Map/Upkeep.antt =====
-- fakeroot.c, §2: the compaction of the table of records, and the eviction of the oldest.
use bxroot.Prelude.{
  ℕ, zero, suc, ◌+◌, ◌-◌, ◌*◌, ◌^◌, Bool, true, false, Option, none, some, List, [], ◌∷◌, set, ltb,
  leb, ◌==◌, if◌then◌else◌, Result, ok, fail,
}
use bxroot.Fakeroot.Types.{FrCode, enomem, efull}
use bxroot.Table.{empties, index_of, empty, tomb, live, lives, tombs}
use bxroot.Fakeroot.Map.Store.{RecordMap, RecordSlot, load_percent, probe}

-- How the loop of `fr_map_compact` ends: with the new slots and their count, or stuck, with what is
-- left in the old ones, where the entries that had moved are gone.
pub data Moved : Type 0 where
  moved : List RecordSlot → ℕ → Moved
  stuck : List RecordSlot → Moved

abbrev pub behind : RecordSlot → Moved → Moved
behind s (moved slots n) = moved slots n
behind s (stuck old) = stuck (s ∷ old)

-- Moving on from a live slot.
abbrev pub moved_to : RecordSlot → List RecordSlot → Option ℕ → (ℕ → Moved) → Moved
moved_to s old none next = stuck (s ∷ old)
moved_to s old (some j) next = behind empty (next j)

unfoldable pub move_all : ℕ → ℕ → List RecordSlot → List RecordSlot → ℕ → Moved
unfolding probe
move_all cap mask [] new n = moved new n
move_all cap mask (empty ∷ old) new n = behind empty (move_all cap mask old new n)
move_all cap mask (tomb ∷ old) new n = behind tomb (move_all cap mask old new n)
move_all cap mask (live k r age ∷ old) new n =
    moved_to (live k r age) old (index_of (probe new cap mask k))
      (λ j. move_all cap mask old (set new j (live k r age)) (n + 1))

abbrev pub Done : Type 0
Done = Result FrCode (Unit {0}) × RecordMap

abbrev pub compacted : RecordMap → Moved → Done
compacted m (moved new n) =
    (ok tt, record m { slots = new; count = n; tomb_count = 0; rehashes = m.rehashes + 1 })
compacted m (stuck old) = (
  fail efull,
  record m {
    slots = old;
    count = lives old;
    tomb_count = tombs old;
    compact_fail = m.compact_fail + 1;
  },
)

-- `alloc_ok` says that `calloc` gives the new slots.
unfoldable pub compact : Bool → RecordMap → Done
unfolding move_all empties
compact false m = (fail enomem, record m { compact_fail = m.compact_fail + 1 })
compact true m = compacted m (move_all m.cap m.mask m.slots (empties m.cap) 0)

-- The scan for the live slot with the least `last_used`, from index `i` on.
unfoldable pub oldest : List RecordSlot → ℕ → Option ℕ → ℕ → Option ℕ
oldest [] i best best_age = best
oldest (empty ∷ slots) i best best_age = oldest slots (suc i) best best_age
oldest (tomb ∷ slots) i best best_age = oldest slots (suc i) best best_age
oldest (live k r age ∷ slots) i best best_age =
    oldest slots (suc i) (if ltb age best_age then some i else best)
      (if ltb age best_age then age else best_age)

abbrev pub bury : RecordMap → ℕ → RecordMap
bury m j = record m {
  slots = set m.slots j tomb;
  count = m.count - 1;
  tomb_count = m.tomb_count + 1;
}

abbrev pub evict_one : Option ℕ → RecordMap → (RecordMap → ℕ × RecordMap) → ℕ × RecordMap
evict_one none m next = (0, m)
evict_one (some j) m next = (suc (next (bury m j)).0, (next (bury m j)).1)

unfoldable pub evict_loop : ℕ → RecordMap → ℕ × RecordMap
unfolding oldest
evict_loop zero m = (0, m)
evict_loop (suc n) m = evict_one (oldest m.slots 0 none (2 ^ 64 - 1)) m (λ m'. evict_loop n m')

unfoldable pub evict_lru : RecordMap → ℕ → ℕ × RecordMap
unfolding evict_loop
evict_lru m n =
    if m.cap == 0
    then (0, m)
    else if m.count == 0
    then (0, m)
    else evict_loop (if ltb m.count n then m.count else n) m

abbrev pub overloaded : RecordMap → Bool
overloaded m = leb (m.cap * load_percent) ((m.count + m.tomb_count) * 100)
