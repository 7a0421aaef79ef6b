-- ===== src/Table/Slots.antt =====
-- Writes to one slot: the counters and the map.
use bxroot.Prelude.{
  ℕ, zero, suc, ◌+◌, ◌≤◌, ◌<◌, ◌≡◌, refl, ◌∙◌, Option, none, some, List, [], ◌∷◌, length, set,
  Option-cases, inl, inr, arith,
}
use bxroot.Table.{
  Key, Slot, empty, tomb, live, slot_at, is_live, is_tomb, lives, tombs, value_of, first_of, one,
  view, times,
}

module _ {K V : Type 0} where
  pub lives-set :
      (slots : List (Slot K V)) (i : ℕ) (s : Slot K V)
      → i < length slots
      → lives (set slots i s) + is_live (slot_at slots i) ≡ lives slots + is_live s
  unfolding lives
  lives-set [] i s h = absurd (omega arith)
  lives-set (x ∷ slots) zero s h = omega arith
  lives-set (x ∷ slots) (suc i) s h = omega (arith, lives-set slots i s (omega arith))

  pub tombs-set :
      (slots : List (Slot K V)) (i : ℕ) (s : Slot K V)
      → i < length slots
      → tombs (set slots i s) + is_tomb (slot_at slots i) ≡ tombs slots + is_tomb s
  unfolding tombs
  tombs-set [] i s h = absurd (omega arith)
  tombs-set (x ∷ slots) zero s h = omega arith
  tombs-set (x ∷ slots) (suc i) s h = omega (arith, tombs-set slots i s (omega arith))

  pub length-set :
      (slots : List (Slot K V)) (i : ℕ) (s : Slot K V) → length (set slots i s) ≡ length slots
  length-set [] i s = refl
  length-set (x ∷ slots) zero s = refl
  length-set (x ∷ slots) (suc i) s = omega (arith, length-set slots i s)

  pub slot_at-set :
      (slots : List (Slot K V)) (i j : ℕ) (s : Slot K V)
      → (i ≡ j → i < length slots → slot_at (set slots i s) j ≡ s)
        × (¬ (i ≡ j) → slot_at (set slots i s) j ≡ slot_at slots j)
  slot_at-set [] i j s = (λ e h. absurd (omega arith), λ n. refl)
  slot_at-set (x ∷ slots) zero zero s = (λ e h. refl, λ n. absurd (n refl))
  slot_at-set (x ∷ slots) zero (suc j) s = (λ e h. absurd (omega arith), λ n. refl)
  slot_at-set (x ∷ slots) (suc i) zero s = (λ e h. absurd (omega arith), λ n. refl)
  slot_at-set (x ∷ slots) (suc i) (suc j) s =
      let (here, there) = slot_at-set slots i j s in
      (λ e h. here (omega arith) (omega arith), λ n. there (λ e. n (omega arith)))

  pub used-le : (slots : List (Slot K V)) → lives slots + tombs slots ≤ length slots
  unfolding lives tombs
  used-le [] = omega arith
  used-le (empty ∷ slots) = omega (arith, used-le slots)
  used-le (tomb ∷ slots) = omega (arith, used-le slots)
  used-le (live k v age ∷ slots) = omega (arith, used-le slots)

  pub lives-crowded :
      (slots : List (Slot K V))
      → ((j : ℕ) → j < length slots → is_live (slot_at slots j) ≡ 1)
      → lives slots ≡ length slots
  unfolding lives
  lives-crowded [] crowd = refl
  lives-crowded (s ∷ slots) crowd =
      omega
        (arith, crowd 0 (omega arith), lives-crowded slots (λ j lt. crowd (suc j) (omega arith)))

  pub lives-none :
      (slots : List (Slot K V)) → ((j : ℕ) → is_live (slot_at slots j) ≡ 0) → lives slots ≡ 0
  unfolding lives
  lives-none [] vacant = refl
  lives-none (s ∷ slots) vacant = omega (arith, vacant 0, lives-none slots (λ j. vacant (suc j)))

  -- A slot in use is in the table.
  pub live_lt : (slots : List (Slot K V)) (j : ℕ) → is_live (slot_at slots j) ≡ 1 → j < length slots
  live_lt [] j h = absurd (omega arith)
  live_lt (s ∷ slots) zero h = omega arith
  live_lt (s ∷ slots) (suc j) h = omega (arith, live_lt slots j h)

  pub tomb_free :
      (slots : List (Slot K V)) (j : ℕ) → tombs slots ≡ 0 → is_tomb (slot_at slots j) ≡ 0
  unfolding tombs
  tomb_free [] j h = refl
  tomb_free (s ∷ slots) zero h = omega arith
  tomb_free (s ∷ slots) (suc j) h = tomb_free slots j (omega arith)

some-ne-none : {V : Type 0} {v : V} → some v ≡ none → ⊥
some-ne-none h = cc

nonzero : (n : ℕ) → 1 + n ≡ 0 → ⊥
nonzero n h = omega arith

module _ {V : Type 0} where
  abbrev pub unless : Option V → Option V → Option V
  unless none rest = rest
  unless (some v) rest = none

emptied : {n m : ℕ} → n + 1 ≡ m + 0 → m ≤ 1 → n ≡ 0
emptied h k = omega arith

crowded : {n : ℕ} → 1 + n ≤ 1 → 1 ≤ n → ⊥
crowded h k = omega arith

module _ {K V : Type 0} ⦃key : Key K⦄ where
  pub times-set :
      (slots : List (Slot K V)) (i : ℕ) (s : Slot K V) (q : K)
      → i < length slots
      → times (set slots i s) q + one (value_of (slot_at slots i) q)
        ≡ times slots q + one (value_of s q)
  unfolding times
  times-set [] i s q h = absurd (omega arith)
  times-set (x ∷ slots) zero s q h = omega arith
  times-set (x ∷ slots) (suc i) s q h = omega (arith, times-set slots i s q (omega arith))

  pub view-none_of_times :
      (slots : List (Slot K V)) (q : K) → times slots q ≡ 0 → view slots q ≡ none
  unfolding times view
  view-none_of_times [] q h = refl
  view-none_of_times (s ∷ slots) q h = elim (Option-cases (value_of s q)) [
    | inl e ↦ rw e (view-none_of_times slots q (omega arith))
    | inr (v, e) ↦ absurd (nonzero _ (rw e at h))
  ]

  pub times_of_view : (slots : List (Slot K V)) (q : K) → view slots q ≡ none → times slots q ≡ 0
  unfolding times view
  times_of_view [] q h = refl
  times_of_view (s ∷ slots) q h = elim (Option-cases (value_of s q)) [
    | inl e ↦ rw e (omega (arith, times_of_view slots q (rw e at h)))
    | inr (v, e) ↦ absurd (some-ne-none (rw e at h))
  ]

  pub times-at :
      (slots : List (Slot K V)) (i : ℕ) (q : K) {v : V}
      → value_of (slot_at slots i) q ≡ some v
      → 1 ≤ times slots q
  unfolding times
  times-at [] i q h = cc
  times-at (s ∷ slots) zero q h = rw h (omega arith)
  times-at (s ∷ slots) (suc i) q h = omega (arith, times-at slots i q h)

  -- A key that is there once is read where it is.
  pub view-at :
      (slots : List (Slot K V)) (i : ℕ) (q : K) {v : V}
      → times slots q ≤ 1
      → value_of (slot_at slots i) q ≡ some v
      → view slots q ≡ some v
  unfolding times view
  view-at [] i q few h = cc
  view-at (s ∷ slots) zero q few h = rw h refl
  view-at (s ∷ slots) (suc i) q few h = elim (Option-cases (value_of s q)) [
    | inl e ↦ rw e (view-at slots i q (omega arith) h)
    | inr (v, e) ↦ absurd (crowded (rw e at few) (times-at slots i q h))
  ]

  -- What is read stands in some slot.
  pub at_of_view :
      (slots : List (Slot K V)) (q : K) {v : V}
      → view slots q ≡ some v
      → (i : ℕ) × (i < length slots) × (value_of (slot_at slots i) q ≡ some v)
  unfolding view
  at_of_view [] q h = cc
  at_of_view (s ∷ slots) q {v} h = elim (Option-cases (value_of s q)) [
    | inl e ↦
        let (i, lt, found) = at_of_view slots q {v = v} (rw e at h) in (suc i, omega arith, found)
    | inr (w, e) ↦ (0, omega arith, e ∙ rw e at h)
  ]

  view-set_other :
      (slots : List (Slot K V)) (i : ℕ) (s : Slot K V) (q : K)
      → value_of s q ≡ none
      → value_of (slot_at slots i) q ≡ none
      → view (set slots i s) q ≡ view slots q
  unfolding view
  view-set_other [] i s q new old = refl
  view-set_other (x ∷ slots) zero s q new old = rw (new, old) refl
  view-set_other (x ∷ slots) (suc i) s q new old = rw (view-set_other slots i s q new old) refl

  -- A write shows what it writes, hides what it writes over, and leaves the other keys alone.
  pub view-set :
      (slots : List (Slot K V)) (i : ℕ) (s : Slot K V) (q : K)
      → i < length slots
      → times slots q ≤ 1
      → times (set slots i s) q ≤ 1
      → view (set slots i s) q
        ≡ first_of (value_of s q) (unless (value_of (slot_at slots i) q) (view slots q))
  view-set slots i s q lt few few' = elim (Option-cases (value_of s q)) [
    | inr (v, e) ↦
        rw e (view-at (set slots i s) i q few' (rw ((slot_at-set slots i i s).0 refl lt) e))
    | inl e ↦ elim (Option-cases (value_of (slot_at slots i) q)) [
      | inl f ↦ rw (e, f) (view-set_other slots i s q e f)
      | inr (w, f) ↦
          rw (e, f)
            (view-none_of_times (set slots i s) q
              (emptied (rw (e, f) at (times-set slots i s q lt)) few))
    ]
  ]
