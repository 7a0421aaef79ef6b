-- ===== src/Table.antt =====
-- Open addressing with tombstones, as the records of src/runtime/fakeroot.c and the ledger of
-- src/proc/proc.c have it: what their two tables share.
pub mod Slots
pub mod Paths
pub mod Writes
pub mod Moves
pub mod Relocate
pub mod Rounding
use bxroot.Prelude.{
  ℕ, zero, suc, ◌+◌, ◌≡◌, ◌↔◌, Bool, true, false, Option, none, some, List, [], ◌∷◌, get_or, set,
  if◌then◌else◌,
}

-- How keys are compared and hashed.
pub record Key (K : Type 0) : Type 0 where
  pub same : K → K → Bool
  pub same_iff : (a b : K) → (same a b ≡ true) ↔ (a ≡ b)
  pub hash : K → ℕ

-- `age` is `last_used`. What a slot holds that is not live is never read.
pub data Slot (K V : Type 0) : Type 0 where
  empty tomb : Slot K V
  live : K → V → ℕ → Slot K V

-- Where a probe ended: at the key, at a place for it, or nowhere.
pub data Probe : Type 0 where
  hit : ℕ → Probe
  free : ℕ → Probe
  full : Probe

abbrev pub index_of : Probe → Option ℕ
index_of (hit j) = some j
index_of (free j) = some j
index_of full = none

module _ {K V : Type 0} where
  abbrev pub slot_at : List (Slot K V) → ℕ → Slot K V
  slot_at slots i = get_or slots i empty

  -- Only empty slots, as `calloc` gives them.
  unfoldable pub empties : ℕ → List (Slot K V)
  empties zero = []
  empties (suc n) = empty ∷ empties n

  abbrev pub is_live : Slot K V → ℕ
  is_live empty = 0
  is_live tomb = 0
  is_live (live k v age) = 1

  abbrev pub is_tomb : Slot K V → ℕ
  is_tomb empty = 0
  is_tomb tomb = 1
  is_tomb (live k v age) = 0

  unfoldable pub lives : List (Slot K V) → ℕ
  lives [] = 0
  lives (s ∷ slots) = is_live s + lives slots

  unfoldable pub tombs : List (Slot K V) → ℕ
  tombs [] = 0
  tombs (s ∷ slots) = is_tomb s + tombs slots

module _ {V : Type 0} where
  abbrev pub first_of : Option V → Option V → Option V
  first_of none rest = rest
  first_of (some v) rest = some v

  abbrev pub one : Option V → ℕ
  one none = 0
  one (some v) = 1

module _ {K V : Type 0} ⦃key : Key K⦄ where
  -- What a slot says of a key.
  abbrev pub value_of : Slot K V → K → Option V
  value_of empty q = none
  value_of tomb q = none
  value_of (live k v age) q = if key.same k q then some v else none

  -- The table as a map, read without regard to the hash.
  unfoldable pub view : List (Slot K V) → K → Option V
  view [] q = none
  view (s ∷ slots) q = first_of (value_of s q) (view slots q)

  unfoldable pub times : List (Slot K V) → K → ℕ
  times [] q = 0
  times (s ∷ slots) q = one (value_of s q) + times slots q
