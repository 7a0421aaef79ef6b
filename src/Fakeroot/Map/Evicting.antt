-- ===== src/Fakeroot/Map/Evicting.antt =====
-- fakeroot.c: `fakeroot_map_evict_lru` on a well-formed table.
use Prim.Native.Nat.{min}
use native.Mathlib.Decide.{ℕ_discrete}
use bxroot.Prelude.{
  ℕ, zero, suc, ◌+◌, ◌-◌, ◌^◌, ◌≤◌, ◌<◌, ◌≡◌, refl, sym, ◌∙◌, ap, ◌⊎◌, false, Option, none, some,
  List, length, set, Bool-cases, inl, inr, if◌then◌else◌, ltb, ◌==◌, arith,
}
use bxroot.Fakeroot.Types.{Record}
use bxroot.Fakeroot.Map.Keys.{FrKey, key_equal, fr_key}
use bxroot.Fakeroot.Map.Store.{RecordSlot, RecordMap}
use bxroot.Fakeroot.Map.Upkeep.{bury, evict_loop, evict_lru}
use bxroot.Fakeroot.Map.Valid.{IsValid, bury-Updated}
use bxroot.Table.{tomb, live, slot_at, is_live, lives, view}
use bxroot.Table.Slots.{slot_at-set, lives-none, live_lt}
use bxroot.Table.Paths.{Slot-cases}
use bxroot.Fakeroot.Map.Oldest.{
  Aged, Found, Older, age_of, at_best, at_slot, not_live, oldest-Found,
}

-- A table whose records are all as old as can be has none that the scan sees.
nothing_live :
    (slots : List RecordSlot)
    → Aged slots
    → Older slots (2 ^ 64 - 1)
    → (j : ℕ) → is_live (slot_at slots j) ≡ 0
nothing_live slots aged older j = elim (Slot-cases (slot_at slots j)) [
  | inl e ↦ rw e refl
  | inr (inl e) ↦ rw e refl
  | inr (inr (k, r, age, e)) ↦ absurd (omega (arith, aged j k r age e, older j k r age e))
]

-- The slot that goes: the record there is the oldest.
abbrev Chosen : List RecordSlot → Option ℕ → Type 0
Chosen slots o =
    (j : ℕ) × (k : FrKey) × (r : Record) × (age : ℕ) × (o ≡ some j)
    × (slot_at slots j ≡ live k r age)
    × Older slots age

Found-Chosen :
    (slots : List RecordSlot) (o : Option ℕ)
    → Aged slots
    → 1 ≤ lives slots
    → Found slots 0 none (2 ^ 64 - 1) o
    → Chosen slots o
Found-Chosen slots _ aged some_live (at_slot j x k r age e here lt older) =
    let same : x ≡ j = omega arith in (j, k, r, age, refl, rw same at here, older)
Found-Chosen slots _ aged some_live (at_best older) =
    absurd (omega (arith, lives-none slots (nothing_live slots aged older)))

-- Each slot is as it was, or it was taken away and was as old as anything that stays.
abbrev pub OldestGone : List RecordSlot → List RecordSlot → Type 0
OldestGone before after =
    (j : ℕ)
    → (slot_at after j ≡ slot_at before j)
      ⊎ ((slot_at after j ≡ tomb)
          × ((k : FrKey) (r : Record) (age : ℕ)
              → slot_at before j ≡ live k r age
              → Older after age))

Older-after :
    (before after : List RecordSlot) (a : ℕ)
    → OldestGone before after
    → Older before a
    → Older after a
Older-after before after a gone older j k r age here = elim (gone j) [
  | inl same ↦ older j k r age (sym same ∙ here)
  | inr (buried, _) ↦ absurd (not_live tomb refl (sym buried ∙ here))
]

Older-bury :
    (slots : List RecordSlot) (j a : ℕ)
    → j < length slots
    → Older slots a
    → Older (set slots j tomb) a
Older-bury slots j a lt older x k r age here = elim (ℕ_discrete j x) [
  | yes same ↦ absurd (not_live tomb refl (sym ((slot_at-set slots j x tomb).0 same lt) ∙ here))
  | no other ↦ older x k r age (sym ((slot_at-set slots j x tomb).1 other) ∙ here)
]

Aged-bury :
    (slots : List RecordSlot) (j : ℕ) → j < length slots → Aged slots → Aged (set slots j tomb)
Aged-bury slots j lt aged x k r age here = elim (ℕ_discrete j x) [
  | yes same ↦ absurd (not_live tomb refl (sym ((slot_at-set slots j x tomb).0 same lt) ∙ here))
  | no other ↦ aged x k r age (sym ((slot_at-set slots j x tomb).1 other) ∙ here)
]

-- One slot taken away before the others.
gone_first :
    (before after : List RecordSlot) (j : ℕ) (k : FrKey) (r : Record) (age : ℕ)
    → slot_at before j ≡ live k r age
    → Older before age
    → j < length before
    → OldestGone (set before j tomb) after
    → OldestGone before after
gone_first before after j k r age here older lt gone x = elim (ℕ_discrete j x) [
  | yes same ↦
      let at_x = (slot_at-set before j x tomb).0 same lt in
      let older' =
        Older-after (set before j tomb) after age gone (Older-bury before j age lt older) in
      let why : (k' : FrKey) (r' : Record) (age' : ℕ)
          → slot_at before x ≡ live k' r' age'
          → Older after age' =
        λ k' r' age' h. rw⁻¹ (age_of (sym here ∙ ap (slot_at before) same ∙ h)) older' in
      elim (gone x) [ inl kept ↦ inr (kept ∙ at_x, why) | inr (buried, _) ↦ inr (buried, why) ]
  | no other ↦
      let at_x = (slot_at-set before j x tomb).1 other in
      elim (gone x) [
        | inl kept ↦ inl (kept ∙ at_x)
        | inr (buried, why) ↦ inr (buried, λ k' r' age' h. why k' r' age' (at_x ∙ h))
      ]
]

-- Each key has the record it had, or none.
abbrev pub Fades : List RecordSlot → List RecordSlot → Type 0
Fades before after = (q : FrKey) → (view after q ≡ view before q) ⊎ (view after q ≡ none)

Fades-first :
    (k : FrKey) (before mid after : List RecordSlot)
    → ((q : FrKey) → view mid q ≡ (if key_equal k q then none else view before q))
    → Fades mid after
    → Fades before after
Fades-first k before mid after reads fades q = elim (fades q) [
  | inr e ↦ inr e
  | inl e ↦ elim (Bool-cases (key_equal k q)) [
    | inl same ↦ inr (e ∙ rw same at (reads q))
    | inr other ↦ inl (e ∙ rw other at (reads q))
  ]
]

abbrev pub Evicted : ℕ → RecordMap → ℕ × RecordMap → Type 0
Evicted n m result =
    (result.0 ≡ n)
    × IsValid result.1
    × (result.1.count + n ≡ m.count)
    × (result.1.cap ≡ m.cap)
    × OldestGone m.slots result.1.slots
    × Fades m.slots result.1.slots

evict_loop-Evicted :
    (n : ℕ) (m : RecordMap) → IsValid m → Aged m.slots → n ≤ m.count → Evicted n m (evict_loop n m)
unfolding evict_loop
evict_loop-Evicted zero m valid aged few =
    (refl, valid, omega arith, refl, (λ j. inl refl), (λ q. inl refl))
evict_loop-Evicted (suc n) m valid aged few =
    let (j, k, r, age, at_j, here, older) =
      Found-Chosen m.slots _ aged (omega (arith, valid.counted))
        (oldest-Found m.slots 0 none (2 ^ 64 - 1)) in
    let in_list = live_lt m.slots j (rw here refl) in
    let (valid', reads) = bury-Updated m valid k j (omega (arith, valid.placed.width)) r age here in
    let (done, valid'', fewer, cap_same, gone, fades) =
      evict_loop-Evicted n (bury m j) valid' (Aged-bury m.slots j in_list aged) (omega arith) in
    rw (evict_loop, at_j)
      (
        ap suc done,
        valid'',
        omega (arith, fewer),
        cap_same,
        gone_first m.slots _ j k r age here older in_list gone,
        Fades-first k m.slots _ _ reads fades,
      )

evict_lru_lem : (m : RecordMap) (n : ℕ) → IsValid m → evict_lru m n ≡ evict_loop (min n m.count) m
unfolding evict_lru
evict_lru_lem m n valid =
    let some_room : (m.cap == 0) ≡ false = ground (arith, valid.sized) in
    elim (Bool-cases (m.count == 0)) [
      | inl e ↦
          let least : 0 ≡ min n m.count = ground (arith, e) in simp (some_room, e) (rw⁻¹ least refl)
      | inr e ↦ elim (Bool-cases (ltb m.count n)) [
        | inl f ↦ simp (some_room, e, f) (ap (λ x. evict_loop x m) (ground (arith, f)))
        | inr f ↦ simp (some_room, e, f) (ap (λ x. evict_loop x m) (ground (arith, f)))
      ]
    ]

-- `fakeroot_map_evict_lru`, asked for `n` records, takes away `n`, or all if there are fewer: the
-- least recently used ones. The others keep their records, and the table is well-formed. No record
-- has UINT64_MAX for its time.
pub evict_lru-Evicted :
    (m : RecordMap) (n : ℕ) → IsValid m → Aged m.slots → Evicted (min n m.count) m (evict_lru m n)
evict_lru-Evicted m n valid aged =
    rw (evict_lru_lem m n valid) (evict_loop-Evicted (min n m.count) m valid aged (omega arith))
