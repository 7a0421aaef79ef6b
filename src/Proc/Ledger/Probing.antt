-- ===== src/Proc/Ledger/Probing.antt =====
-- proc.c: how `px_probe` ends on a well-formed ledger.
use native.Mathlib.Nat.{mod-add-mod, mod-mod}
use bxroot.Prelude.{
  ℕ, zero, suc, ◌+◌, ◌-◌, ◌%◌, ◌^◌, ◌<◌, ◌≡◌, ◌≢◌, refl, sym, ◌∙◌, ap, inl, inr, Option, none, some,
  List, Bool-cases, ◌==◌, ==_iff, arith,
}
use bxroot.System.Bits.{bit_and-le}
use bxroot.System.Masks.{and_mask, round_covers}
use bxroot.Proc.Ledger.Types.{EntryKey, entry_key, hash_pid, same_entry, same_entry_iff}
use bxroot.Proc.Ledger.Ops.{EntrySlot, place, probe_from, noted, tomb_or}
use bxroot.Table.{empty, tomb, live, free, full, slot_at, is_live, value_of}
use bxroot.Table.Paths.{
  IsPlaced, Passed, Ends, at_key, at_free, at_none, absent_at_empty, absent_all, Slot-cases,
  live-ne-empty, tomb-ne-empty,
}

pub place-lt : (mask cap : ℕ) (k : EntryKey) (n : ℕ) → mask + 1 ≡ cap → place mask k n < cap
unfolding place
place-lt mask cap k zero e = omega (arith, bit_and-le (hash_pid k.pid k.kind) mask)
place-lt mask cap k (suc n) e = omega (arith, bit_and-le (place mask k n + 1) mask)

-- The walk is a round of remainders.
place_round :
    (b : ℕ) (k : EntryKey) (n : ℕ)
    → place (2 ^ b - 1) k n ≡ (hash_pid k.pid k.kind % 2 ^ b + n) % 2 ^ b
unfolding place
place_round b k zero =
    and_mask (hash_pid k.pid k.kind) b
    ∙ sym (ap (λ x. x % 2 ^ b) (omega arith) ∙ mod-mod (hash_pid k.pid k.kind) (2 ^ b))
place_round b k (suc n) =
    and_mask _ b
    ∙ ap (λ x. (x + 1) % 2 ^ b) (place_round b k n)
    ∙ mod-add-mod (hash_pid k.pid k.kind % 2 ^ b + n) (2 ^ b) 1
    ∙ ap (λ x. x % 2 ^ b) (omega arith)

pub covers_pow :
    (b : ℕ) (k : EntryKey) (j : ℕ) → j < 2 ^ b → (i : ℕ) × (i < 2 ^ b) × (place (2 ^ b - 1) k i ≡ j)
covers_pow b k j lt =
    let (i, in_cap, at_j) = round_covers (2 ^ b) (hash_pid k.pid k.kind) j lt in
    (i, in_cap, place_round b k i ∙ at_j)

module _ (mask cap : ℕ) (fits : mask + 1 ≡ cap) (slots : List EntrySlot) (k : EntryKey)
    (placed : IsPlaced (place mask) cap slots) where
  pass_on :
      (i : ℕ)
      → Passed (place mask) cap slots k i
      → slot_at slots (place mask k i) ≢ empty
      → value_of (slot_at slots (place mask k i)) k ≡ none
      → Passed (place mask) cap slots k (suc i)
  pass_on i passed filled other i' lt = elim (Bool-cases (i' == i)) [
    | inl e ↦ rw ((==_iff i' i).0 e) (filled, other)
    | inr e ↦ passed i' (ground arith)
  ]

  -- The tombstones met so far: none, or the first.
  data Met (n : ℕ) : Option ℕ → Type 0 where
    met_none : ((i : ℕ) → i < n → is_live (slot_at slots (place mask k i)) ≡ 1) → Met n none
    met_some :
        (i : ℕ) → i < n → slot_at slots (place mask k i) ≡ tomb → Met n (some (place mask k i))

  at_end :
      (first_tomb : Option ℕ)
      → Met cap first_tomb
      → Passed (place mask) cap slots k cap
      → Ends (place mask) cap slots k (tomb_or first_tomb full)
  at_end _ (met_none alive) passed =
      at_none (absent_all (place mask) cap slots k placed passed) alive
  at_end _ (met_some i lt grave) passed =
      at_free (place mask k i) (place-lt mask cap k i fits) (rw grave refl)
        (absent_all (place mask) cap slots k placed passed)
        (i, lt, refl, λ i' lt'. (passed i' (omega arith)).0)

  at_stop :
      (n : ℕ) (first_tomb : Option ℕ)
      → n < cap
      → Met n first_tomb
      → Passed (place mask) cap slots k n
      → slot_at slots (place mask k n) ≡ empty
      → Ends (place mask) cap slots k (tomb_or first_tomb (free (place mask k n)))
  at_stop n _ in_cap (met_none alive) passed stop =
      at_free (place mask k n) (place-lt mask cap k n fits) (rw stop refl)
        (absent_at_empty (place mask) cap slots k placed n passed stop)
        (n, in_cap, refl, λ i' lt'. (passed i' lt').0)
  at_stop n _ in_cap (met_some i lt grave) passed stop =
      at_free (place mask k i) (place-lt mask cap k i fits) (rw grave refl)
        (absent_at_empty (place mask) cap slots k placed n passed stop)
        (i, omega arith, refl, λ i' lt'. (passed i' (omega arith)).0)

  Met-tomb :
      (n : ℕ) (o : Option ℕ)
      → Met n o
      → slot_at slots (place mask k n) ≡ tomb
      → Met (suc n) (noted o (place mask k n))
  Met-tomb n _ (met_none alive) grave = met_some n (omega arith) grave
  Met-tomb n _ (met_some i lt grave') grave = met_some i (omega arith) grave'

  Met-live :
      (n : ℕ) (o : Option ℕ)
      → Met n o
      → is_live (slot_at slots (place mask k n)) ≡ 1
      → Met (suc n) o
  Met-live n _ (met_none alive) here = met_none (λ i lt. elim (Bool-cases (i == n)) [
    | inl e ↦ rw ((==_iff i n).0 e) here
    | inr e ↦ alive i (ground arith)
  ])
  Met-live n _ (met_some i lt grave) here = met_some i (omega arith) grave

  probe_from-Ends :
      (left n : ℕ) (first_tomb : Option ℕ)
      → left + n ≡ cap
      → Met n first_tomb
      → Passed (place mask) cap slots k n
      → Ends (place mask) cap slots k (probe_from slots mask k left (place mask k n) first_tomb)
  unfolding probe_from place
  probe_from-Ends zero n first_tomb e met passed =
      let same : n ≡ cap = omega arith in at_end first_tomb (rw same at met) (rw same at passed)
  probe_from-Ends (suc left) n first_tomb e met passed =
      elim (Slot-cases (slot_at slots (place mask k n))) [
        | inl stop ↦ rw stop (at_stop n first_tomb (omega arith) met passed stop)
        | inr (inl grave) ↦ rw grave (
            probe_from-Ends left (suc n) _ (omega arith) (Met-tomb n first_tomb met grave)
              (pass_on n passed (λ f. tomb-ne-empty (sym grave ∙ f)) (rw grave refl)))
        | inr (inr (k', e', age, here)) ↦ elim (Bool-cases (same_entry k' k)) [
          | inl same ↦
              rw (here, same)
                (at_key (place mask k n) e' age (place-lt mask cap k n fits)
                  (here ∙ ap (λ q. live q e' age) ((same_entry_iff k' k).0 same)))
          | inr other ↦
              rw (here, other)
                (probe_from-Ends left (suc n) first_tomb (omega arith)
                  (Met-live n first_tomb met (rw here refl))
                  (pass_on n passed (λ f. live-ne-empty (sym here ∙ f)) (rw (here, other) refl)))
        ]
      ]

  -- How a probe of a well-formed ledger ends: at the entry, or else at a place where it may be put, or
  -- nowhere; and if not at the entry, it is not in the ledger.
  pub probe-Ends : Ends (place mask) cap slots k (probe_from slots mask k cap (place mask k 0) none)
  probe-Ends =
      probe_from-Ends cap 0 none (omega arith) (met_none (λ i lt. absurd (omega arith)))
        (λ i lt. absurd (omega arith))
