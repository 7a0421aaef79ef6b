-- ===== src/Fakeroot/Map/Store.antt =====
-- fakeroot.c, §2: the table of records, and the probe. The pointers to the table and to a record are
-- not NULL.
use Prim.Native.Nat.{bit_and}
use bxroot.Prelude.{
  ℕ, zero, suc, ◌+◌, ◌-◌, ◌^◌, Bool, true, false, Option, none, some, List, ltb, ◌==◌,
  if◌then◌else◌,
}
use bxroot.Fakeroot.Types.{Record}
use bxroot.Fakeroot.Map.Keys.{FrKey, key_hash, key_equal}
use bxroot.Table.Rounding.{round_pow2}
use bxroot.Table.{Slot, empties, empty, tomb, live, Probe, hit, free, full, slot_at}

abbrev pub RecordSlot : Type 0
RecordSlot = Slot FrKey Record

-- `struct fakeroot_map`, less its lock.
pub record RecordMap : Type 0 where
  pub slots : List RecordSlot
  pub cap : ℕ
  pub mask : ℕ
  pub count : ℕ
  pub tomb_count : ℕ
  pub clock : ℕ
  pub disabled : Bool
  pub eviction : Bool
  pub rehashes : ℕ
  pub compact_fail : ℕ

abbrev pub default_slots : ℕ
default_slots = 1024

abbrev pub max_slots : ℕ
max_slots = 2 ^ 20

abbrev pub load_percent : ℕ
load_percent = 75

abbrev pub evict_batch : ℕ
evict_batch = 8

abbrev pub fresh : ℕ → RecordMap
fresh cap = record {
  slots = empties cap;
  cap = cap;
  mask = cap - 1;
  count = 0;
  tomb_count = 0;
  clock = 0;
  disabled = false;
  eviction = true;
  rehashes = 0;
  compact_fail = 0;
}

abbrev pub wanted : ℕ → ℕ
wanted n =
    let want = if n == 0 then default_slots else n in if ltb max_slots want then max_slots else want

-- `alloc_ok` says that both calls of `calloc` succeed.
unfoldable pub create : Bool → ℕ → Option RecordMap
create alloc_ok n =
    let cap = round_pow2 (wanted n) in
    if cap == 0 then none else if alloc_ok then some (fresh cap) else none

-- The place probed after `i` others.
unfoldable pub place : ℕ → FrKey → ℕ → ℕ
place mask k i = bit_and (bit_and (key_hash k) mask + i) mask

-- One round of the first loop at the slot of index `j`, before the others.
abbrev pub look : RecordSlot → FrKey → ℕ → Option Probe → Option Probe
look empty k j rest = some (free j)
look tomb k j rest = rest
look (live k' r age) k j rest = if key_equal k' k then some (hit j) else rest

-- The first loop, with the rounds left; `none` is a whole round with no end.
unfoldable pub first_pass : List RecordSlot → ℕ → FrKey → ℕ → ℕ → Option Probe
first_pass slots mask k zero i = none
first_pass slots mask k (suc n) i =
    let j = place mask k i in look (slot_at slots j) k j (first_pass slots mask k n (suc i))

abbrev pub look_tomb : RecordSlot → ℕ → Probe → Probe
look_tomb tomb j rest = free j
look_tomb empty j rest = rest
look_tomb (live k' r age) j rest = rest

-- The second loop, for a tombstone.
unfoldable pub tomb_pass : List RecordSlot → ℕ → FrKey → ℕ → ℕ → Probe
tomb_pass slots mask k zero i = full
tomb_pass slots mask k (suc n) i =
    let j = place mask k i in look_tomb (slot_at slots j) j (tomb_pass slots mask k n (suc i))

abbrev pub or_tomb : Option Probe → Probe → Probe
or_tomb (some p) other = p
or_tomb none other = other

unfoldable pub probe : List RecordSlot → ℕ → ℕ → FrKey → Probe
probe slots cap mask k =
    if cap == 0
    then full
    else or_tomb (first_pass slots mask k cap 0) (tomb_pass slots mask k cap 0)
