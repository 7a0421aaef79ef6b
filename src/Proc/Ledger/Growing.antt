-- ===== src/Proc/Ledger/Growing.antt =====
-- proc.c: `px_ledger_compact` and `px_ledger_grow` on a well-formed ledger.
use bxroot.Prelude.{
  ℕ, suc, ◌+◌, ◌-◌, ◌*◌, ◌^◌, ◌≤◌, ◌<◌, ◌≡◌, refl, sym, ◌∙◌, ap, inl, inr, true, false, some, List,
  [], ◌∷◌, set, ltb, leb, Bool-cases, ok, arith,
}
use bxroot.System.Masks.{two_pow_pos}
use bxroot.Proc.Ledger.Types.{EntryKey, Entry, entry_key, max_slots}
use bxroot.Proc.Ledger.Ops.{EntrySlot, Table, place, move_all, moved, compact, doubled, grow}
use bxroot.Proc.Ledger.Probing.{probe-Ends}
use bxroot.Proc.Ledger.Valid.{IsValid, covers_by}
use bxroot.Table.{empty, tomb, live, empties, lives, times, view}
use bxroot.Table.Slots.{used-le}
use bxroot.Table.Moves.{IsBlank, empties-IsBlank, length-empties, lives-blank, view-blank}
use bxroot.Table.Relocate.{Moving, Arrived, skipped, landed, Moving-blank, first_of-none}

module _ (mask cap : ℕ) (fits : mask + 1 ≡ cap)
    (covers : (k : EntryKey) (j : ℕ) → j < cap → (i : ℕ) × (i < cap) × (place mask k i ≡ j)) where
  move_all-Arrived :
      (old new : List EntrySlot) (n : ℕ)
      → Moving (place mask) cap covers old new
      → n ≡ lives new
      → (new' : List EntrySlot) × (move_all cap mask old new n ≡ some (new', lives new'))
        × Arrived (place mask) cap covers old new new'
  unfolding move_all lives view times place
  move_all-Arrived [] new n moving e =
      (new, rw e refl, (moving.placed, moving.clean, omega arith, λ q. refl))
  move_all-Arrived (empty ∷ old) new n moving e =
      let (new', at_end, (placed, clean, all, reads)) =
        move_all-Arrived old new n (skipped (place mask) cap covers _ old new refl moving) e in
      (new', at_end, (placed, clean, omega (arith, all), reads))
  move_all-Arrived (tomb ∷ old) new n moving e =
      let (new', at_end, (placed, clean, all, reads)) =
        move_all-Arrived old new n (skipped (place mask) cap covers _ old new refl moving) e in
      (new', at_end, (placed, clean, omega (arith, all), reads))
  move_all-Arrived (live k r age ∷ old) new n moving e =
      let (j, at_j, moving', more, reads) =
        landed (place mask) cap covers k r age old new moving _
          (probe-Ends mask cap fits new k moving.placed) in
      let (new', at_end, (placed, clean, all, reads')) =
        move_all-Arrived old (set new j (live k r age)) (n + 1) moving' (omega (arith, more)) in
      (
        new',
        rw (at_j, at_end) refl,
        (placed, clean, omega (arith, more, all), λ q. reads' q ∙ reads q),
      )

-- Another table with the same entries and no tombstone.
pub record Repacked (l l' : Table) : Type 0 where
  pub valid : IsValid l'
  pub same : (q : EntryKey) → view l'.slots q ≡ view l.slots q
  pub count_same : l'.count ≡ l.count
  pub no_tombs : l'.tomb_count ≡ 0
  pub eviction_same : l'.eviction ≡ l.eviction

-- All entries go to a table of a power of two of slots, with room.
moved_all :
    (l : Table) (cap : ℕ)
    → IsValid l
    → (b : ℕ) × (cap ≡ 2 ^ b)
    → lives l.slots ≤ cap
    → (l' : Table) × (moved l cap (move_all cap (cap - 1) l.slots (empties cap) 0)
        ≡ some (ok tt, l'))
      × Repacked l l'
      × (l'.cap ≡ cap)
unfolding view
moved_all l cap valid (b, e) room =
    let blank : IsBlank {K = EntryKey} {V = Entry} (empties cap) = empties-IsBlank cap in
    let fits : (cap - 1) + 1 ≡ cap = omega (arith, e, two_pow_pos b) in
    let covers = covers_by (cap - 1) cap refl (b, e) in
    let width = length-empties EntryKey Entry cap in
    let start =
      Moving-blank (place (cap - 1)) cap covers l.slots (empties cap) blank width room
        valid.placed.once in
    let (new, at_end, (placed, clean, all, reads)) =
      move_all-Arrived (cap - 1) cap fits covers l.slots (empties cap) 0 start
        (sym (lives-blank blank)) in
    (
      record l { slots = new; cap = cap; mask = cap - 1; count = lives new; tomb_count = 0 },
      rw at_end refl,
      record {
        valid = record {
          power = (b, e);
          masked = refl;
          placed = placed;
          counted = refl;
          buried = sym clean;
        };
        same = λ q. reads q ∙ rw (view-blank q blank) (first_of-none (view l.slots q));
        count_same = omega (arith, all, lives-blank blank, valid.counted);
        no_tombs = refl;
        eviction_same = refl;
      },
      refl,
    )

-- `px_ledger_compact` on a well-formed ledger, with memory, always has a place for each entry.
pub compact-Repacked :
    (l : Table)
    → IsValid l
    → (l' : Table) × (compact true l ≡ some (ok tt, l')) × Repacked l l' × (l'.cap ≡ l.cap)
unfolding compact
compact-Repacked l valid =
    let room : lives l.slots ≤ l.cap = omega (arith, used-le l.slots, valid.placed.width) in
    let (l', at_end, packed, cap_same) = moved_all l l.cap valid valid.power room in
    (
      l',
      ap (λ mask. moved l l.cap (move_all l.cap mask l.slots (empties l.cap) 0)) valid.masked
          ∙ at_end,
      packed,
      cap_same,
    )

small_power : (b cap : ℕ) → cap ≡ 2 ^ b → (n : ℕ) × (doubled cap ≡ 2 ^ n)
small_power b cap e = elim (Bool-cases (ltb max_slots (cap * 2))) [
  | inl big ↦ rw big (22, refl)
  | inr small ↦ rw small (suc b, omega (arith, e))
]

doubled-le : (cap : ℕ) → cap < 2 ^ 22 → cap ≤ doubled cap
doubled-le cap below = ground arith

-- `px_ledger_grow` on a well-formed ledger below its limit, with memory, always has a place for each
-- entry, and gives twice the slots, up to the limit.
pub grow-Repacked :
    (l : Table)
    → IsValid l
    → l.cap < 2 ^ 22
    → (l' : Table) × (grow true l ≡ some (ok tt, l')) × Repacked l l' × (l'.cap ≡ doubled l.cap)
unfolding grow
grow-Repacked l valid below =
    let (b, e) = valid.power in
    let open_end : leb max_slots l.cap ≡ false = ground (arith, below) in
    let room : lives l.slots ≤ doubled l.cap =
      omega (arith, used-le l.slots, valid.placed.width, doubled-le l.cap below) in
    simp open_end (moved_all l (doubled l.cap) valid (small_power b l.cap e) room)
