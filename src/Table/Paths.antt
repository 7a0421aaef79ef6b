-- ===== src/Table/Paths.antt =====
-- Where a key may stand: on its path of probes, with no empty slot before it.
use native.Mathlib.Decide.{dec_lt, ℕ_discrete}
use bxroot.Prelude.{
  ℕ, ◌≤◌, ◌<◌, ◌≡◌, ◌≢◌, refl, sym, ◌∙◌, ap, none, some, List, length, Option-cases, inl, inr, ◌⊎◌,
  arith,
}
use bxroot.Table.{
  Key, Slot, empty, tomb, live, Probe, hit, free, full, slot_at, is_live, value_of, view, times,
}
use bxroot.Table.Slots.{at_of_view}

trichotomy : (a b : ℕ) → (a < b) ⊎ (a ≡ b) ⊎ (b < a)
trichotomy a b = elim (dec_lt a b) [
  | yes lt ↦ inl lt
  | no ge ↦ elim (ℕ_discrete a b) [ yes e ↦ inr (inl e) | no ne ↦ inr (inr (omega arith)) ]
]

some-ne-none : {V : Type 0} {v : V} → some v ≡ none → ⊥
some-ne-none h = cc

module _ {K V : Type 0} where
  pub Slot-cases :
      (s : Slot K V)
      → (s ≡ empty) ⊎ (s ≡ tomb) ⊎ ((k : K) × (v : V) × (age : ℕ) × (s ≡ live k v age))
  Slot-cases empty = inl refl
  Slot-cases tomb = inr (inl refl)
  Slot-cases (live k v age) = inr (inr (k, v, age, refl))

module _ {K V : Type 0} ⦃key : Key K⦄ where
  value_of_live :
      (s : Slot K V) (q : K) {v : V} → value_of s q ≡ some v → (age : ℕ) × (s ≡ live q v age)
  value_of_live empty q h = cc
  value_of_live tomb q h = cc
  value_of_live (live k w age) q {v} h = (age, ground (arith, key.same_iff k q))

  pub vacant_none : (s : Slot K V) (q : K) → is_live s ≡ 0 → value_of s q ≡ none
  vacant_none empty q h = refl
  vacant_none tomb q h = refl
  vacant_none (live k v age) q h = absurd (omega arith)

  pub value_of_self : (k : K) (v : V) (age : ℕ) → value_of (live k v age) k ≡ some v
  value_of_self k v age = rw ((key.same_iff k k).1 refl) refl

pub live-ne-empty : {K V : Type 0} {k : K} {v : V} {age : ℕ} → live k v age ≡ empty → ⊥
live-ne-empty h = cc

pub tomb-ne-empty : {K V : Type 0} → ◌≡◌ {A = Slot K V} tomb empty → ⊥
tomb-ne-empty h = cc

-- `path k i` is the place that is probed for the key after `i` others, of `cap` in all.
module _ {K V : Type 0} ⦃key : Key K⦄ (path : K → ℕ → ℕ) (cap : ℕ) where
  abbrev pub Reach : List (Slot K V) → K → ℕ → Type 0
  Reach slots k j =
      (i : ℕ) × (i < cap) × (path k i ≡ j) × ((i' : ℕ) → i' < i → slot_at slots (path k i') ≢ empty)

  -- A key occurs once, where its probe finds it.
  pub record IsPlaced (slots : List (Slot K V)) : Type 0 where
    pub width : length slots ≡ cap
    pub once : (q : K) → times slots q ≤ 1
    pub reached :
        (k : K) (j : ℕ) (v : V) (age : ℕ) → slot_at slots j ≡ live k v age → Reach slots k j

  -- What a probe has gone past.
  abbrev pub Passed : List (Slot K V) → K → ℕ → Type 0
  Passed slots k n =
      (i : ℕ)
      → i < n
      → (slot_at slots (path k i) ≢ empty) × (value_of (slot_at slots (path k i)) k ≡ none)

  -- What the end of a probe says.
  pub data Ends (slots : List (Slot K V)) (k : K) : Probe → Type 0 where
    at_key :
        (j : ℕ) (v : V) (age : ℕ) → j < cap → slot_at slots j ≡ live k v age → Ends slots k (hit j)
    at_free :
        (j : ℕ)
        → j < cap
        → is_live (slot_at slots j) ≡ 0
        → view slots k ≡ none
        → Reach slots k j
        → Ends slots k (free j)
    at_none :
        view slots k ≡ none
        → ((i : ℕ) → i < cap → is_live (slot_at slots (path k i)) ≡ 1)
        → Ends slots k full

  module _ (slots : List (Slot K V)) (k : K) (placed : IsPlaced slots) where
    placed_before :
        {v : V}
        → view slots k ≡ some v
        → (i : ℕ) × (i < cap)
          × (value_of (slot_at slots (path k i)) k ≡ some v)
          × ((i' : ℕ) → i' < i → slot_at slots (path k i') ≢ empty)
    placed_before {v} h =
        let (j, lt, found) = at_of_view slots k h in
        let (age, e) = value_of_live (slot_at slots j) k found in
        let (i, in_cap, at_j, before) = placed.reached k j v age e in
        (i, in_cap, rw at_j found, before)

    -- A probe that meets an empty slot, or none in a whole round, has missed nothing.
    pub absent_at_empty :
        (n : ℕ) → Passed slots k n → slot_at slots (path k n) ≡ empty → view slots k ≡ none
    absent_at_empty n passed stop = elim (Option-cases (view slots k)) [
      | inl e ↦ e
      | inr (v, e) ↦
          let (i, in_cap, found, before) = placed_before e in
          elim (trichotomy i n) [
            | inl lt ↦ absurd (some-ne-none (sym found ∙ (passed i lt).1))
            | inr (inl same) ↦
                absurd (some-ne-none (sym (rw same at found) ∙ ap (λ s. value_of s k) stop))
            | inr (inr lt) ↦ absurd (before n lt stop)
          ]
    ]

    pub absent_all : Passed slots k cap → view slots k ≡ none
    absent_all passed = elim (Option-cases (view slots k)) [
      | inl e ↦ e
      | inr (v, e) ↦
          let (i, in_cap, found, before) = placed_before e in
          absurd (some-ne-none (sym found ∙ (passed i in_cap).1))
    ]
