-- ===== src/Fakeroot/Map/Probing.antt =====
-- fakeroot.c: how `fr_map_probe` ends on a well-formed table.
use bxroot.Prelude.{
  ℕ, zero, suc, ◌+◌, ◌<◌, ◌≡◌, ◌≢◌, refl, sym, ◌∙◌, ap, ◌⊎◌, inl, inr, false, none, some, List,
  Bool-cases, ◌==◌, ==_iff, arith,
}
use bxroot.System.Bits.{bit_and-le}
use bxroot.Fakeroot.Map.Keys.{FrKey, key_equal, key_equal_iff, fr_key}
use bxroot.Fakeroot.Map.Store.{RecordSlot, place, first_pass, tomb_pass, probe}
use bxroot.Table.{empty, live, Probe, hit, free, slot_at, is_live, value_of}
use bxroot.Table.Paths.{
  IsPlaced, Passed, Ends, at_key, at_free, at_none, absent_at_empty, absent_all, Slot-cases,
  live-ne-empty, tomb-ne-empty,
}

pub place-lt : (mask cap : ℕ) (k : FrKey) (i : ℕ) → mask + 1 ≡ cap → place mask k i < cap
unfolding place
place-lt mask cap k i e = omega (arith, bit_and-le _ mask)

module _ (mask cap : ℕ) (fits : mask + 1 ≡ cap) (slots : List RecordSlot) (k : FrKey)
    (placed : IsPlaced (place mask) cap slots) where
  positive : (cap == 0) ≡ false
  positive = ground (arith, fits)

  pass_on :
      (i : ℕ)
      → Passed (place mask) cap slots k i
      → slot_at slots (place mask k i) ≢ empty
      → value_of (slot_at slots (place mask k i)) k ≡ none
      → Passed (place mask) cap slots k (suc i)
  pass_on i passed filled other i' lt = elim (Bool-cases (i' == i)) [
    | inl e ↦ rw ((==_iff i' i).0 e) (filled, other)
    | inr e ↦ passed i' (ground arith)
  ]

  first_pass-Ends :
      (n i : ℕ)
      → n + i ≡ cap
      → Passed (place mask) cap slots k i
      → ((first_pass slots mask k n i ≡ none) × Passed (place mask) cap slots k cap)
        ⊎ ((p : Probe) × (first_pass slots mask k n i ≡ some p) × Ends (place mask) cap slots k p)
  unfolding first_pass
  first_pass-Ends zero i e passed = inl (refl, λ i' lt. passed i' (omega arith))
  first_pass-Ends (suc n) i e passed = elim (Slot-cases (slot_at slots (place mask k i))) [
    | inl stop ↦ inr (
      free (place mask k i),
      rw stop refl,
      at_free (place mask k i) (place-lt mask cap k i fits) (rw stop refl)
          (absent_at_empty (place mask) cap slots k placed i passed stop)
          (i, omega arith, refl, λ i' lt. (passed i' lt).0),
    )
    | inr (inl grave) ↦ rw grave (
        first_pass-Ends n (suc i) (omega arith)
          (pass_on i passed (λ f. tomb-ne-empty (sym grave ∙ f)) (rw grave refl)))
    | inr (inr (k', r, age, here)) ↦ elim (Bool-cases (key_equal k' k)) [
      | inl same ↦ inr (
        hit (place mask k i),
        rw (here, same) refl,
        at_key (place mask k i) r age (place-lt mask cap k i fits)
            (here ∙ ap (λ q. live q r age) ((key_equal_iff k' k).0 same)),
      )
      | inr other ↦
          rw (here, other)
            (first_pass-Ends n (suc i) (omega arith)
              (pass_on i passed (λ f. live-ne-empty (sym here ∙ f)) (rw (here, other) refl)))
    ]
  ]

  live_on :
      (i : ℕ) (s : RecordSlot)
      → ((i' : ℕ) → i' < i → is_live (slot_at slots (place mask k i')) ≡ 1)
      → slot_at slots (place mask k i) ≡ s
      → is_live s ≡ 1
      → (i' : ℕ) → i' < suc i
      → is_live (slot_at slots (place mask k i')) ≡ 1
  live_on i s before here alive i' lt = elim (Bool-cases (i' == i)) [
    | inl e ↦ rw ((==_iff i' i).0 e, here) alive
    | inr e ↦ before i' (ground arith)
  ]

  tomb_pass-Ends :
      (n i : ℕ)
      → n + i ≡ cap
      → Passed (place mask) cap slots k cap
      → ((i' : ℕ) → i' < i → is_live (slot_at slots (place mask k i')) ≡ 1)
      → Ends (place mask) cap slots k (tomb_pass slots mask k n i)
  unfolding tomb_pass
  tomb_pass-Ends zero i e passed before =
      at_none (absent_all (place mask) cap slots k placed passed) (λ i' lt. before i' (omega arith))
  tomb_pass-Ends (suc n) i e passed before = elim (Slot-cases (slot_at slots (place mask k i))) [
    | inl stop ↦ absurd ((passed i (omega arith)).0 stop)
    | inr (inl grave) ↦ rw grave (
        at_free (place mask k i) (place-lt mask cap k i fits) (rw grave refl)
          (absent_all (place mask) cap slots k placed passed)
          (i, omega arith, refl, λ i' lt. (passed i' (omega arith)).0))
    | inr (inr (k', r, age, here)) ↦
        rw here (
          tomb_pass-Ends n (suc i) (omega arith) passed
            (live_on i (live k' r age) before here refl))
  ]

  -- How a probe of a well-formed table ends: at the key, or else at a place where the key may be put,
  -- or nowhere; and if not at the key, the key is not in the table.
  pub probe-Ends : Ends (place mask) cap slots k (probe slots cap mask k)
  unfolding probe
  probe-Ends = elim (first_pass-Ends cap 0 (omega arith) (λ i lt. absurd (omega arith))) [
    | inl (e, passed) ↦
        rw (positive, e) (tomb_pass-Ends cap 0 (omega arith) passed (λ i lt. absurd (omega arith)))
    | inr (p, e, ends) ↦ rw (positive, e) ends
  ]
