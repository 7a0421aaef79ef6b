-- ===== src/Table/Relocate.antt =====
-- Moving the entries of a table, one after the other, to a table without tombstones.
use bxroot.Prelude.{
  ℕ, ◌+◌, ◌≤◌, ◌<◌, ◌≡◌, refl, sym, ◌∙◌, true, Option, none, some, List, ◌∷◌, length, set,
  Bool-cases, inl, inr, if◌then◌else◌, arith,
}
use bxroot.Table.{
  Key, Slot, live, Probe, index_of, slot_at, is_live, lives, tombs, view, times, first_of,
}
use bxroot.Table.Slots.{lives-set, tombs-set, times-set, view-none_of_times, view-at, lives-crowded}
use bxroot.Table.Moves.{IsBlank, lives-blank, tombs-blank, times-blank, blank-IsPlaced}
use bxroot.Table.Writes.{insert-IsPlaced}
use bxroot.Table.Paths.{IsPlaced, Ends, at_key, at_free, at_none, value_of_self}

-- The map after a key was moved over: read in what is left, and then in what was moved.
pub view_moved :
    {K V : Type 0} ⦃key : Key K⦄ (k q : K) (r : V) (left old : Option V)
    → (key.same k q ≡ true → left ≡ none)
    → first_of left (if key.same k q then some r else old)
      ≡ first_of (first_of (if key.same k q then some r else none) left) old
view_moved ⦃key⦄ k q r left old gone = elim (Bool-cases (key.same k q)) [
  | inl same ↦ rw (same, gone same) refl
  | inr other ↦ rw other refl
]

pub first_of-none : {V : Type 0} (o : Option V) → first_of o none ≡ o
first_of-none none = refl
first_of-none (some r) = refl

some-ne-none : {V : Type 0} {r : V} → some r ≡ none → ⊥
some-ne-none h = cc

once_here : (n : ℕ) {m : ℕ} → (1 + n) + m ≤ 1 → m ≡ 0
once_here n h = omega arith

once_there : {n : ℕ} (m : ℕ) → (1 + n) + m ≤ 1 → n ≡ 0
once_there m h = omega arith

no_room : (a : ℕ) {b cap : ℕ} → b ≡ cap → (1 + a) + b ≤ cap → ⊥
no_room a e h = omega arith

module _ {K V : Type 0} ⦃key : Key K⦄ (path : K → ℕ → ℕ) (cap : ℕ)
    (covers : (k : K) (j : ℕ) → j < cap → (i : ℕ) × (i < cap) × (path k i ≡ j)) where
  -- Every place that a probe can see is in use.
  pub crowded_full :
      (slots : List (Slot K V)) (k : K)
      → length slots ≡ cap
      → ((i : ℕ) → i < cap → is_live (slot_at slots (path k i)) ≡ 1)
      → lives slots ≡ cap
  crowded_full slots k width crowd =
      lives-crowded slots
        (λ j lt. let (i, in_cap, at_j) = covers k j (omega arith) in rw at_j at (crowd i in_cap))
      ∙ width

  pub record Moving (old new : List (Slot K V)) : Type 0 where
    pub placed : IsPlaced path cap new
    pub clean : tombs new ≡ 0
    pub room : lives old + lives new ≤ cap
    pub apart : (q : K) → times old q + times new q ≤ 1

  abbrev pub Arrived : List (Slot K V) → List (Slot K V) → List (Slot K V) → Type 0
  Arrived old new new' =
      IsPlaced path cap new'
      × (tombs new' ≡ 0)
      × (lives new' ≡ lives old + lives new)
      × ((q : K) → view new' q ≡ first_of (view old q) (view new q))

  pub skipped :
      (s : (Slot K V)) (old new : List (Slot K V))
      → is_live s ≡ 0
      → Moving (s ∷ old) new
      → Moving old new
  unfolding lives times
  skipped s old new vacant moving = record {
    placed = moving.placed;
    clean = moving.clean;
    room = omega (arith, moving.room);
    apart = λ q. omega (arith, moving.apart q);
  }

  -- Where a live slot goes.
  abbrev pub Landed : K → V → ℕ → List (Slot K V) → List (Slot K V) → Probe → Type 0
  Landed k r age old new p =
      (j : ℕ) × (index_of p ≡ some j)
      × Moving old (set new j (live k r age))
      × (lives (set new j (live k r age)) ≡ 1 + lives new)
      × ((q : K)
          → first_of (view old q) (view (set new j (live k r age)) q)
            ≡ first_of (view (live k r age ∷ old) q) (view new q))

  module _ (k : K) (r : V) (age : ℕ) (old new : List (Slot K V))
      (moving : Moving (live k r age ∷ old) new) where
    absent_new : view new k ≡ none
    unfolding times
    absent_new =
        view-none_of_times new k (once_here _ (rw (value_of_self k r age) at (moving.apart k)))

    absent_old : (q : K) → key.same k q ≡ true → view old q ≡ none
    unfolding times
    absent_old q same = view-none_of_times old q (once_there _ (rw same at (moving.apart q)))

    pub landed : (p : Probe) → Ends path cap new k p → Landed k r age old new p
    unfolding view times lives
    landed _ (at_key j was age' lt here) =
        let seen : view new k ≡ some was =
          view-at new j k (moving.placed.once k) (rw here (value_of_self k was age')) in
        absurd (some-ne-none (sym seen ∙ absent_new))
    landed _ (at_free j lt vacant absent reach) =
        let (placed, reads) =
          insert-IsPlaced path cap new j moving.placed lt k r age vacant absent reach in
        let in_list : j < length new = omega (arith, moving.placed.width) in
        (
          j,
          refl,
          record {
            placed = placed;
            clean = omega (arith, tombs-set new j (live k r age) in_list, moving.clean);
            room = omega (arith, lives-set new j (live k r age) in_list, moving.room);
            apart = λ q. omega (arith, moving.apart q, times-set new j (live k r age) q in_list);
          },
          omega (arith, lives-set new j (live k r age) in_list),
          λ q. rw (reads q) (view_moved k q r (view old q) (view new q) (absent_old q)),
        )
    landed _ (at_none absent crowd) =
        absurd (no_room _ (crowded_full new k moving.placed.width crowd) moving.room)

  -- The start: all is to be moved, into empty slots.
  pub Moving-blank :
      (old new : List (Slot K V))
      → IsBlank new
      → length new ≡ cap
      → lives old ≤ cap
      → ((q : K) → times old q ≤ 1)
      → Moving old new
  Moving-blank old new blank width fits once = record {
    placed = blank-IsPlaced path cap new blank width;
    clean = tombs-blank blank;
    room = omega (arith, lives-blank blank, fits);
    apart = λ q. omega (arith, times-blank q blank, once q);
  }
