-- ===== src/Proc/Ledger/Valid.antt =====
-- The ledger as a map from processes to entries.
use bxroot.Prelude.{
  ℕ, ◌+◌, ◌-◌, ◌^◌, ◌<◌, ◌≡◌, refl, sym, ◌∙◌, ap, inl, inr, Option, none, some, set, length,
  Bool-cases, if◌then◌else◌, arith,
}
use bxroot.System.Masks.{two_pow_pos}
use bxroot.Proc.Ledger.Types.{EntryKey, Entry, entry_key, same_entry, same_entry_iff}
use bxroot.Proc.Ledger.Ops.{EntrySlot, Table, place, probe, bury}
use bxroot.Proc.Ledger.Access.{reused}
use bxroot.Proc.Ledger.Probing.{covers_pow, probe-Ends}
use bxroot.Table.{empty, tomb, live, slot_at, is_live, is_tomb, lives, tombs, view}
use bxroot.Table.Slots.{lives-set, tombs-set, view-at}
use bxroot.Table.Writes.{insert-IsPlaced, replace-IsPlaced, bury-IsPlaced}
use bxroot.Table.Paths.{Reach, IsPlaced, Ends, value_of_self}

-- The counters are true, each process occurs at most once in each kind, and a probe finds it.
pub record IsValid (l : Table) : Type 0 where
  pub power : (b : ℕ) × (l.cap ≡ 2 ^ b)
  pub masked : l.mask ≡ l.cap - 1
  pub placed : IsPlaced (place l.mask) l.cap l.slots
  pub counted : l.count ≡ lives l.slots
  pub buried : l.tomb_count ≡ tombs l.slots

pub sized : (l : Table) → IsValid l → l.mask + 1 ≡ l.cap
sized l valid = let (b, e) = valid.power in omega (arith, e, two_pow_pos b, valid.masked)

pub covers_by :
    (mask cap : ℕ)
    → mask ≡ cap - 1
    → (b : ℕ) × (cap ≡ 2 ^ b)
    → (k : EntryKey) (j : ℕ) → j < cap
    → (i : ℕ) × (i < cap) × (place mask k i ≡ j)
covers_by mask cap e (b, e') = rw (e, e') (covers_pow b)

pub covers :
    (l : Table)
    → IsValid l
    → (k : EntryKey) (j : ℕ) → j < l.cap
    → (i : ℕ) × (i < l.cap) × (place l.mask k i ≡ j)
covers l valid = covers_by l.mask l.cap valid.masked valid.power

pub whole-Ends :
    (l : Table) → IsValid l → (k : EntryKey) → Ends (place l.mask) l.cap l.slots k (probe l k)
unfolding probe place
whole-Ends l valid k = probe-Ends l.mask l.cap (sized l valid) l.slots k valid.placed

abbrev pub Updated : Table → EntryKey → Option Entry → Table → Type 0
Updated l k o l' =
    IsValid l' × ((q : EntryKey) → view l'.slots q ≡ (if same_entry k q then o else view l.slots q))

reused_lem :
    (s : EntrySlot) {n m m' : ℕ} → is_live s ≡ 0 → n ≡ m → m' + is_tomb s ≡ m + 0 → reused s n ≡ m'
reused_lem empty vacant e h = omega arith
reused_lem tomb vacant e h = omega arith
reused_lem (live k r age) vacant e h = absurd (omega arith)

module _ (l : Table) (valid : IsValid l) (k : EntryKey) where
  in_list : {j : ℕ} → j < l.cap → j < length l.slots
  in_list lt = omega (arith, valid.placed.width)

  module _ (j : ℕ) (lt : j < l.cap) (old : Entry) (age : ℕ)
      (here : slot_at l.slots j ≡ live k old age) where
    -- An entry that is there gets another value; the clock does not matter.
    pub write-Updated :
        (e : Entry) (now clock : ℕ)
        → Updated l k (some e) (record l { slots = set l.slots j (live k e now); clock = clock })
    write-Updated e now clock =
        let (placed, reads) =
          replace-IsPlaced (place l.mask) l.cap l.slots j valid.placed lt k e old now age here in
        (
          record {
            power = valid.power;
            masked = valid.masked;
            placed = placed;
            counted = omega (
              arith,
              rw here at (lives-set l.slots j (live k e now) (in_list lt)),
              valid.counted,
            );
            buried =
                omega (
                  arith,
                  rw here at (tombs-set l.slots j (live k e now) (in_list lt)),
                  valid.buried,
                );
          },
          reads,
        )

    pub bury-Updated : Updated l k none (bury l j)
    bury-Updated =
        let (placed, reads) =
          bury-IsPlaced (place l.mask) l.cap l.slots j valid.placed lt k old age here in
        (
          record {
            power = valid.power;
            masked = valid.masked;
            placed = placed;
            counted =
                omega (arith, rw here at (lives-set l.slots j tomb (in_list lt)), valid.counted);
            buried =
                omega (arith, rw here at (tombs-set l.slots j tomb (in_list lt)), valid.buried);
          },
          reads,
        )

    pub read_at : view l.slots k ≡ some old
    read_at = view-at l.slots j k (valid.placed.once k) (rw here (value_of_self k old age))

  pub insert-Updated :
      (j : ℕ) (lt : j < l.cap) (e : Entry) (now clock : ℕ)
      → is_live (slot_at l.slots j) ≡ 0
      → view l.slots k ≡ none
      → Reach (place l.mask) l.cap l.slots k j
      → Updated l k (some e) (record l {
        slots = set l.slots j (live k e now);
        clock = clock;
        count = l.count + 1;
        tomb_count = reused (slot_at l.slots j) l.tomb_count;
      })
  insert-Updated j lt e now clock vacant absent reach =
      let (placed, reads) =
        insert-IsPlaced (place l.mask) l.cap l.slots j valid.placed lt k e now vacant absent
          reach in
      (
        record {
          power = valid.power;
          masked = valid.masked;
          placed = placed;
          counted = omega (arith, lives-set l.slots j (live k e now) (in_list lt), valid.counted);
          buried =
              reused_lem (slot_at l.slots j) vacant valid.buried
                (tombs-set l.slots j (live k e now) (in_list lt));
        },
        reads,
      )

  -- An entry that is not there is not there afterwards either.
  pub unmoved : {o : Option Entry} → o ≡ none → view l.slots k ≡ none → Updated l k o l
  unmoved {o} e absent = (
    valid,
    λ q. elim (Bool-cases (same_entry k q)) [
      | inl same ↦ rw same (ap (view l.slots) (sym ((same_entry_iff k q).0 same)) ∙ absent ∙ sym e)
      | inr other ↦ rw other refl
    ],
  )
