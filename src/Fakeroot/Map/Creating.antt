-- ===== src/Fakeroot/Map/Creating.antt =====
-- `fr_round_pow2`, `fakeroot_map_create` and `fakeroot_map_clear`: the tables they make.
use Prim.Native.Nat.{min}
use bxroot.Prelude.{
  ℕ, ◌+◌, ◌-◌, ◌%◌, ◌^◌, ◌≤◌, ◌<◌, ◌≡◌, refl, sym, ◌∙◌, inl, inr, true, false, none, some, List, [],
  ◌∷◌, length, Bool-cases, if◌then◌else◌, ltb, ◌==◌, arith,
}
use bxroot.Fakeroot.Types.{Record}
use bxroot.Fakeroot.Map.Keys.{FrKey, key_hash, fr_key}
use bxroot.Fakeroot.Map.Store.{RecordSlot, RecordMap, fresh, wanted, create, place}
use bxroot.Fakeroot.Map.Ops.{cleared, clear, check_invariants}
use bxroot.Fakeroot.Map.Valid.{IsValid}
use bxroot.System.Masks.{and_mask, round_covers, two_pow_pos}
use bxroot.Table.Moves.{empties-IsBlank, length-empties}
use bxroot.Table.Rounding.{round_pow2, IsLeastPow, round_pow2-IsLeastPow}
use bxroot.Table.{empties, view}
use bxroot.Table.Moves.{
  IsBlank, none_left, one_more, lives-blank, tombs-blank, view-blank, blank-IsPlaced,
}

covers_pow :
    (b : ℕ) (k : FrKey) (j : ℕ) → j < 2 ^ b → (i : ℕ) × (i < 2 ^ b) × (place (2 ^ b - 1) k i ≡ j)
unfolding place
covers_pow b k j lt =
    let (i, in_cap, at_j) = round_covers (2 ^ b) (key_hash k) j lt in
    (i, in_cap, rw (and_mask (key_hash k) b, and_mask (key_hash k % 2 ^ b + i) b) at_j)

pub fresh-IsValid : (b : ℕ) → IsValid (fresh (2 ^ b))
fresh-IsValid b =
    let blank = empties-IsBlank (2 ^ b) in
    record {
      sized = omega (arith, two_pow_pos b);
      covers = covers_pow b;
      placed =
          blank-IsPlaced (place (2 ^ b - 1)) (2 ^ b) (empties (2 ^ b)) blank
            (length-empties FrKey Record (2 ^ b));
      counted = sym (lives-blank blank);
      buried = sym (tombs-blank blank);
    }

abbrev pub IsEmpty : RecordMap → Type 0
IsEmpty m = (q : FrKey) → view m.slots q ≡ none

-- The size asked for, within bounds.
abbrev pub asked : ℕ → ℕ
asked n = min (if n == 0 then 1024 else n) (2 ^ 20)

wanted_lem : (n : ℕ) → wanted n ≡ asked n
wanted_lem n = elim (Bool-cases (n == 0)) [
  | inl e ↦ rw e refl
  | inr e ↦ rw e (elim (Bool-cases (ltb (2 ^ 20) n)) [
    | inl f ↦ rw f (ground (arith, f))
    | inr f ↦ rw f (ground (arith, f))
  ])
]

asked_some : (n : ℕ) → 1 ≤ asked n
asked_some n = ground arith

created : (cap b : ℕ) → cap ≡ 2 ^ b → IsValid (fresh cap)
created cap b e = rw e (fresh-IsValid b)

-- `fakeroot_map_create` gives a well-formed table with no record, whatever size is asked for, if
-- `calloc` succeeds. It has as many slots as the least power of two that is not below the size asked
-- for: at most 2^20, and 1024 when that was 0.
pub create-IsValid :
    (n : ℕ)
    → (m : RecordMap) × (create true n ≡ some m)
      × IsValid m
      × IsEmpty m
      × IsLeastPow (asked n) m.cap
unfolding create
create-IsValid n =
    let (b, e, above, below) = round_pow2-IsLeastPow (asked n) (asked_some n) (omega arith) in
    let cap = round_pow2 (asked n) in
    let some_room : (cap == 0) ≡ false = ground (arith, above, asked_some n) in
    (
      fresh cap,
      rw (wanted_lem n, some_room) refl,
      created cap b e,
      λ q. view-blank q (empties-IsBlank cap),
      (b, e, above, below),
    )

length-cleared : (slots : List RecordSlot) → length (cleared slots) ≡ length slots
unfolding cleared
length-cleared [] = refl
length-cleared (s ∷ slots) = omega (arith, length-cleared slots)

cleared-IsBlank : (slots : List RecordSlot) → IsBlank (cleared slots)
unfolding cleared
cleared-IsBlank [] = none_left
cleared-IsBlank (s ∷ slots) = one_more _ (cleared-IsBlank slots)

-- `fakeroot_map_clear` leaves a well-formed table with no record.
pub clear-IsEmpty : (m : RecordMap) → IsValid m → IsValid (clear m) × IsEmpty (clear m)
unfolding clear
clear-IsEmpty m valid =
    let blank = cleared-IsBlank m.slots in
    (
      record {
        sized = valid.sized;
        covers = valid.covers;
        placed =
            blank-IsPlaced (place m.mask) m.cap (cleared m.slots) blank
              (length-cleared m.slots ∙ valid.placed.width);
        counted = sym (lives-blank blank);
        buried = sym (tombs-blank blank);
      },
      λ q. view-blank q blank,
    )

-- `fakeroot_map_check_invariants` says yes of every well-formed table.
pub check_invariants-IsValid : (m : RecordMap) → IsValid m → check_invariants m ≡ true
unfolding check_invariants
check_invariants-IsValid m valid = ground (arith, valid.counted, valid.buried)
