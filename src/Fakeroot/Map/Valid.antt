-- ===== src/Fakeroot/Map/Valid.antt =====
-- The table of records as a map: what each operation does to it, whatever the hash.
use bxroot.Prelude.{
  ℕ, ◌+◌, ◌<◌, ◌≡◌, refl, sym, ◌∙◌, ap, inl, inr, Option, none, some, List, set, length, Bool-cases,
  if◌then◌else◌, Result, ok, fail, arith,
}
use bxroot.Fakeroot.Types.{FrCode, enoent, Record}
use bxroot.Fakeroot.Map.Keys.{FrKey, key_equal, key_equal_iff, fr_key}
use bxroot.Fakeroot.Map.Store.{RecordSlot, RecordMap, place}
use bxroot.Fakeroot.Map.Upkeep.{bury}
use bxroot.Fakeroot.Map.Ops.{put_at, reused, write, tick}
use bxroot.Table.{empty, tomb, live, free, slot_at, is_live, is_tomb, lives, tombs, view}
use bxroot.Table.Slots.{lives-set, tombs-set, view-at}
use bxroot.Table.Writes.{insert-IsPlaced, replace-IsPlaced, bury-IsPlaced}
use bxroot.Table.Paths.{Reach, IsPlaced, value_of_self}

-- The counters are true, each key occurs at most once, and a probe finds it.
pub record IsValid (m : RecordMap) : Type 0 where
  pub sized : m.mask + 1 ≡ m.cap
  pub covers : (k : FrKey) (j : ℕ) → j < m.cap → (i : ℕ) × (i < m.cap) × (place m.mask k i ≡ j)
  pub placed : IsPlaced (place m.mask) m.cap m.slots
  pub counted : m.count ≡ lives m.slots
  pub buried : m.tomb_count ≡ tombs m.slots

abbrev pub Updated : RecordMap → FrKey → Option Record → RecordMap → Type 0
Updated m k o m' =
    IsValid m' × ((q : FrKey) → view m'.slots q ≡ (if key_equal k q then o else view m.slots q))

-- What `get` returns for what the map holds.
abbrev pub answer : Option Record → Result FrCode Record
answer none = fail enoent
answer (some r) = ok r

reused_count :
    (s : RecordSlot) {n m m' : ℕ} → is_live s ≡ 0 → n ≡ m → m' + is_tomb s ≡ m + 0 → reused s n ≡ m'
reused_count empty vacant e h = omega arith
reused_count tomb vacant e h = omega arith
reused_count (live k r age) vacant e h = absurd (omega arith)

fewer_tombs :
    (slots : List RecordSlot) (j : ℕ) (k : FrKey) (r : Record) (age : ℕ) {n : ℕ}
    → j < length slots
    → is_live (slot_at slots j) ≡ 0
    → n ≡ tombs slots
    → reused (slot_at slots j) n ≡ tombs (set slots j (live k r age))
fewer_tombs slots j k r age lt vacant e =
    reused_count (slot_at slots j) vacant e (tombs-set slots j (live k r age) lt)

module _ (m : RecordMap) (valid : IsValid m) (k : FrKey) where
  in_list : {j : ℕ} → j < m.cap → j < length m.slots
  in_list lt = omega (arith, valid.placed.width)

  module _ (j : ℕ) (lt : j < m.cap) (old : Record) (age : ℕ)
      (here : slot_at m.slots j ≡ live k old age) where
    pub write-Updated : (r : Record) → Updated m k (some r) (write m j k r)
    write-Updated r =
        let (placed, reads) =
          replace-IsPlaced (place m.mask) m.cap m.slots j valid.placed lt k r old (tick m.clock) age
            here in
        (
          record {
            sized = valid.sized;
            covers = valid.covers;
            placed = placed;
            counted =
                omega
                  (arith, rw here at (lives-set m.slots j (live k r (tick m.clock)) (in_list lt)));
            buried =
                omega
                  (arith, rw here at (tombs-set m.slots j (live k r (tick m.clock)) (in_list lt)));
          },
          reads,
        )

    pub bury-Updated : Updated m k none (bury m j)
    bury-Updated =
        let (placed, reads) =
          bury-IsPlaced (place m.mask) m.cap m.slots j valid.placed lt k old age here in
        (
          record {
            sized = valid.sized;
            covers = valid.covers;
            placed = placed;
            counted = omega (arith, rw here at (lives-set m.slots j tomb (in_list lt)));
            buried = omega (arith, rw here at (tombs-set m.slots j tomb (in_list lt)));
          },
          reads,
        )

  pub insert-Updated :
      (j : ℕ) (lt : j < m.cap) (r : Record)
      → is_live (slot_at m.slots j) ≡ 0
      → view m.slots k ≡ none
      → Reach (place m.mask) m.cap m.slots k j
      → Updated m k (some r) (put_at m k r (free j)).1
  insert-Updated j lt r vacant absent reach =
      let (placed, reads) =
        insert-IsPlaced (place m.mask) m.cap m.slots j valid.placed lt k r (tick m.clock) vacant
          absent reach in
      (
        record {
          sized = valid.sized;
          covers = valid.covers;
          placed = placed;
          counted = omega (arith, lives-set m.slots j (live k r (tick m.clock)) (in_list lt));
          buried = fewer_tombs m.slots j k r (tick m.clock) (in_list lt) vacant valid.buried;
        },
        reads,
      )

  pub absent_same :
      (o : Option Record) (q : FrKey)
      → o ≡ none
      → view m.slots k ≡ none
      → view m.slots q ≡ (if key_equal k q then o else view m.slots q)
  absent_same o q e absent = elim (Bool-cases (key_equal k q)) [
    | inl same ↦ rw same (ap (view m.slots) (sym ((key_equal_iff k q).0 same)) ∙ absent ∙ sym e)
    | inr other ↦ rw other refl
  ]

  pub read_at :
      (j : ℕ) (old : Record) (age : ℕ)
      → slot_at m.slots j ≡ live k old age
      → view m.slots k ≡ some old
  read_at j old age here =
      view-at m.slots j k (valid.placed.once k) (rw here (value_of_self k old age))
