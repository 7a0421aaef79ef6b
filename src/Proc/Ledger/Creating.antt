-- ===== src/Proc/Ledger/Creating.antt =====
-- `px_ledger_create` and `px_ledger_clear`: the ledgers they make.
use Prim.Native.Nat.{min}
use bxroot.Prelude.{
  ℕ, ◌-◌, ◌^◌, ◌≤◌, ◌≡◌, refl, sym, ◌∙◌, inl, inr, true, false, none, some, List, [], ◌∷◌, length,
  Bool-cases, if◌then◌else◌, ltb, ◌==◌, arith,
}
use bxroot.Proc.Ledger.Types.{EntryKey, Entry, entry_key}
use bxroot.Proc.Ledger.Ops.{EntrySlot, Table, fresh, wanted, create, place}
use bxroot.Proc.Ledger.Access.{cleared, clear}
use bxroot.Proc.Ledger.Valid.{IsValid}
use bxroot.Table.{empties, view}
use bxroot.Table.Moves.{
  IsBlank, none_left, one_more, empties-IsBlank, length-empties, lives-blank, tombs-blank,
  view-blank, blank-IsPlaced,
}
use bxroot.Table.Rounding.{round_pow2, IsLeastPow, round_pow2-IsLeastPow}

pub fresh-IsValid : (cap : ℕ) → (b : ℕ) × (cap ≡ 2 ^ b) → IsValid (fresh cap)
fresh-IsValid cap power =
    let blank = empties-IsBlank cap in
    record {
      power = power;
      masked = refl;
      placed =
          blank-IsPlaced (place (cap - 1)) cap (empties cap) blank
            (length-empties EntryKey Entry cap);
      counted = sym (lives-blank blank);
      buried = sym (tombs-blank blank);
    }

-- The size asked for, within bounds.
abbrev pub asked : ℕ → ℕ
asked n = min (if n == 0 then 256 else n) (2 ^ 22)

wanted_lem : (n : ℕ) → wanted n ≡ asked n
wanted_lem n = elim (Bool-cases (n == 0)) [
  | inl e ↦ rw e refl
  | inr e ↦ rw e (elim (Bool-cases (ltb (2 ^ 22) n)) [
    | inl f ↦ rw f (ground (arith, f))
    | inr f ↦ rw f (ground (arith, f))
  ])
]

asked_some : (n : ℕ) → 1 ≤ asked n
asked_some n = ground arith

-- `px_ledger_create` gives a well-formed ledger that is empty, whatever size is asked for, if `calloc`
-- succeeds. It has as many slots as the least power of two that is not below the size asked for: at
-- most 2^22, and 256 when that was 0.
pub create-IsValid :
    (n : ℕ)
    → (l : Table) × (create true n ≡ some l)
      × IsValid l
      × ((q : EntryKey) → view l.slots q ≡ none)
      × IsLeastPow (asked n) l.cap
unfolding create
create-IsValid n =
    let (b, e, above, below) = round_pow2-IsLeastPow (asked n) (asked_some n) (omega arith) in
    let cap = round_pow2 (asked n) in
    let some_room : (cap == 0) ≡ false = ground (arith, above, asked_some n) in
    (
      fresh cap,
      rw (wanted_lem n, some_room) refl,
      fresh-IsValid cap (b, e),
      λ q. view-blank q (empties-IsBlank cap),
      (b, e, above, below),
    )

length-cleared : (slots : List EntrySlot) → length (cleared slots) ≡ length slots
unfolding cleared
length-cleared [] = refl
length-cleared (s ∷ slots) = omega (arith, length-cleared slots)

cleared-IsBlank : (slots : List EntrySlot) → IsBlank (cleared slots)
unfolding cleared
cleared-IsBlank [] = none_left
cleared-IsBlank (s ∷ slots) = one_more _ (cleared-IsBlank slots)

-- `px_ledger_clear` leaves a well-formed ledger that is empty.
pub clear-IsValid :
    (l : Table) → IsValid l → IsValid (clear l) × ((q : EntryKey) → view (clear l).slots q ≡ none)
unfolding clear
clear-IsValid l valid =
    let blank = cleared-IsBlank l.slots in
    (
      record {
        power = valid.power;
        masked = valid.masked;
        placed =
            blank-IsPlaced (place l.mask) l.cap (cleared l.slots) blank
              (length-cleared l.slots ∙ valid.placed.width);
        counted = sym (lives-blank blank);
        buried = sym (tombs-blank blank);
      },
      λ q. view-blank q blank,
    )
