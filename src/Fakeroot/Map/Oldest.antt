-- ===== src/Fakeroot/Map/Oldest.antt =====
-- What the scan for the least recently used record finds.
use bxroot.Prelude.{
  ℕ, zero, suc, ◌+◌, ◌-◌, ◌^◌, ◌≤◌, ◌<◌, ◌≡◌, refl, sym, Option, some, List, [], ◌∷◌, Bool-cases,
  inl, inr, ltb, arith,
}
use bxroot.Fakeroot.Types.{Record}
use bxroot.Fakeroot.Map.Keys.{FrKey, fr_key}
use bxroot.Fakeroot.Map.Store.{RecordSlot}
use bxroot.Fakeroot.Map.Upkeep.{oldest}
use bxroot.Table.{empty, tomb, live, slot_at, is_live}
use bxroot.Table.Paths.{live-ne-empty}

-- No record has the largest age.
abbrev pub Aged : List RecordSlot → Type 0
Aged slots =
    (j : ℕ) (k : FrKey) (r : Record) (age : ℕ) → slot_at slots j ≡ live k r age → age < 2 ^ 64 - 1

abbrev pub Older : List RecordSlot → ℕ → Type 0
Older slots age =
    (j : ℕ) (k : FrKey) (r : Record) (age' : ℕ) → slot_at slots j ≡ live k r age' → age ≤ age'

-- What the scan finds from index `i` on: a slot of these, or what it had before.
pub data Found (slots : List RecordSlot) (i : ℕ) (best : Option ℕ) (best_age : ℕ)
    : Option ℕ → Type 0 where
  at_slot :
      (j x : ℕ) (k : FrKey) (r : Record) (age : ℕ)
      → j ≡ x + i
      → slot_at slots x ≡ live k r age
      → age < best_age
      → Older slots age
      → Found slots i best best_age (some j)
  at_best : Older slots best_age → Found slots i best best_age best

pub age_of :
    {k k' : FrKey} {r r' : Record} {a b : ℕ}
    → ◌≡◌ {A = RecordSlot} (live k r a) (live k' r' b)
    → a ≡ b
age_of h = cc

pub not_live :
    (s : RecordSlot) {k : FrKey} {r : Record} {a : ℕ} → is_live s ≡ 0 → s ≡ live k r a → ⊥
not_live empty v h = cc
not_live tomb v h = cc
not_live (live k r a) v h = omega arith

pub Older-skip :
    (s : RecordSlot) (slots : List RecordSlot) (a : ℕ)
    → is_live s ≡ 0
    → Older slots a
    → Older (s ∷ slots) a
Older-skip s slots a vacant older zero k r age h = absurd (not_live s vacant h)
Older-skip s slots a vacant older (suc j) k r age h = older j k r age h

pub Older-next :
    (k : FrKey) (r : Record) (b : ℕ) (slots : List RecordSlot) (a : ℕ)
    → a ≤ b
    → Older slots a
    → Older (live k r b ∷ slots) a
Older-next k r b slots a le older zero k' r' age h = omega (arith, age_of h)
Older-next k r b slots a le older (suc j) k' r' age h = older j k' r' age h

Found-skip :
    (s : RecordSlot) (slots : List RecordSlot) (i : ℕ) (best : Option ℕ) (best_age : ℕ)
    (o : Option ℕ)
    → is_live s ≡ 0
    → Found slots (suc i) best best_age o
    → Found (s ∷ slots) i best best_age o
Found-skip s slots i best best_age _ vacant (at_slot j x k r age e here lt older) =
    at_slot j (suc x) k r age (omega arith) here lt (Older-skip s slots age vacant older)
Found-skip s slots i best best_age _ vacant (at_best older) =
    at_best (Older-skip s slots best_age vacant older)

Found-better :
    (k : FrKey) (r : Record) (b : ℕ) (slots : List RecordSlot) (i : ℕ) (best : Option ℕ)
    (best_age : ℕ) (o : Option ℕ)
    → b < best_age
    → Found slots (suc i) (some i) b o
    → Found (live k r b ∷ slots) i best best_age o
Found-better k r b slots i best best_age _ less (at_slot j x k' r' age e here lt older) =
    at_slot j (suc x) k' r' age (omega arith) here (omega arith)
      (Older-next k r b slots age (omega arith) older)
Found-better k r b slots i best best_age _ less (at_best older) =
    at_slot i 0 k r b (omega arith) refl less (Older-next k r b slots b (omega arith) older)

Found-other :
    (k : FrKey) (r : Record) (b : ℕ) (slots : List RecordSlot) (i : ℕ) (best : Option ℕ)
    (best_age : ℕ) (o : Option ℕ)
    → best_age ≤ b
    → Found slots (suc i) best best_age o
    → Found (live k r b ∷ slots) i best best_age o
Found-other k r b slots i best best_age _ more (at_slot j x k' r' age e here lt older) =
    at_slot j (suc x) k' r' age (omega arith) here lt
      (Older-next k r b slots age (omega arith) older)
Found-other k r b slots i best best_age _ more (at_best older) =
    at_best (Older-next k r b slots best_age more older)

pub oldest-Found :
    (slots : List RecordSlot) (i : ℕ) (best : Option ℕ) (best_age : ℕ)
    → Found slots i best best_age (oldest slots i best best_age)
unfolding oldest
oldest-Found [] i best best_age = at_best (λ j k r age h. absurd (live-ne-empty (sym h)))
oldest-Found (empty ∷ slots) i best best_age =
    Found-skip empty slots i best best_age _ refl (oldest-Found slots (suc i) best best_age)
oldest-Found (tomb ∷ slots) i best best_age =
    Found-skip tomb slots i best best_age _ refl (oldest-Found slots (suc i) best best_age)
oldest-Found (live k r age ∷ slots) i best best_age = elim (Bool-cases (ltb age best_age)) [
  | inl e ↦ rw e (
      Found-better k r age slots i best best_age _ (ground (arith, e))
        (oldest-Found slots (suc i) (some i) age))
  | inr e ↦ rw e (
      Found-other k r age slots i best best_age _ (ground (arith, e))
        (oldest-Found slots (suc i) best best_age))
]
