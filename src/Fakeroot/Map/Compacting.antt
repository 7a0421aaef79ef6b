-- ===== src/Fakeroot/Map/Compacting.antt =====
-- fakeroot.c: `fr_map_compact` on a well-formed table.
use bxroot.Prelude.{ℕ, ◌+◌, ◌≤◌, ◌<◌, ◌≡◌, refl, sym, ◌∙◌, true, List, [], ◌∷◌, set, ok, arith}
use bxroot.Fakeroot.Types.{Record}
use bxroot.Fakeroot.Map.Keys.{FrKey, fr_key}
use bxroot.Fakeroot.Map.Store.{RecordSlot, RecordMap, place}
use bxroot.Fakeroot.Map.Upkeep.{moved, move_all, compact}
use bxroot.Fakeroot.Map.Probing.{probe-Ends}
use bxroot.Fakeroot.Map.Valid.{IsValid}
use bxroot.Table.Relocate.{Moving, Arrived, skipped, landed, Moving-blank, first_of-none}
use bxroot.Table.{empties, empty, tomb, live, lives, view, times}
use bxroot.Table.Slots.{used-le}
use bxroot.Table.Moves.{empties-IsBlank, length-empties, IsBlank, lives-blank, view-blank}

module _ (mask cap : ℕ) (fits : mask + 1 ≡ cap)
    (covers : (k : FrKey) (j : ℕ) → j < cap → (i : ℕ) × (i < cap) × (place mask k i ≡ j)) where
  move_all-Arrived :
      (old new : List RecordSlot) (n : ℕ)
      → Moving (place mask) cap covers old new
      → n ≡ lives new
      → (new' : List RecordSlot) × (move_all cap mask old new n ≡ moved new' (lives new'))
        × Arrived (place mask) cap covers old new new'
  unfolding move_all lives view times
  move_all-Arrived [] new n moving e =
      (new, rw e refl, (moving.placed, moving.clean, omega arith, λ q. refl))
  move_all-Arrived (empty ∷ old) new n moving e =
      let (new', at_end, (placed, clean, all, reads)) =
        move_all-Arrived old new n (skipped (place mask) cap covers _ old new refl moving) e in
      (new', rw at_end refl, (placed, clean, omega (arith, all), reads))
  move_all-Arrived (tomb ∷ old) new n moving e =
      let (new', at_end, (placed, clean, all, reads)) =
        move_all-Arrived old new n (skipped (place mask) cap covers _ old new refl moving) e in
      (new', rw at_end refl, (placed, clean, omega (arith, all), reads))
  move_all-Arrived (live k r age ∷ old) new n moving e =
      let (j, at_j, moving', more, reads) =
        landed (place mask) cap covers k r age old new moving _
          (probe-Ends mask cap fits new k moving.placed) in
      let (new', at_end, (placed, clean, all, reads')) =
        move_all-Arrived old (set new j (live k r age)) (n + 1) moving' (omega (arith, more)) in
      (
        new',
        rw (at_j, at_end) refl,
        (placed, clean, omega (arith, more, all), λ q. reads' q ∙ reads q),
      )

-- `fr_map_compact` on a well-formed table always succeeds if `calloc` does. The table is then
-- well-formed, without tombstones, and holds for each key the record that it held.
pub compact-keeps :
    (m : RecordMap)
    → IsValid m
    → ((compact true m).0 ≡ ok tt)
      × IsValid (compact true m).1
      × ((compact true m).1.tomb_count ≡ 0)
      × ((compact true m).1.count ≡ m.count)
      × ((q : FrKey) → view (compact true m).1.slots q ≡ view m.slots q)
unfolding compact view
compact-keeps m valid =
    let blank : IsBlank {K = FrKey} {V = Record} (empties m.cap) = empties-IsBlank m.cap in
    let width = length-empties FrKey Record m.cap in
    let room : lives m.slots ≤ m.cap = omega (arith, used-le m.slots, valid.placed.width) in
    let start =
      Moving-blank (place m.mask) m.cap valid.covers m.slots (empties m.cap) blank width room
        valid.placed.once in
    let (new, at_end, (placed, clean, all, reads)) =
      move_all-Arrived m.mask m.cap valid.sized valid.covers m.slots (empties m.cap) 0 start
        (sym (lives-blank blank)) in
    rw at_end (
      refl,
      record {
        sized = valid.sized;
        covers = valid.covers;
        placed = placed;
        counted = refl;
        buried = sym clean;
      },
      refl,
      omega (arith, lives-blank blank, all, valid.counted),
      λ q. reads q ∙ rw (view-blank q blank) (first_of-none (view m.slots q)),
    )
