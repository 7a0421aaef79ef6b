-- ===== src/Table/Writes.antt =====
-- What a write does to a well-formed table: a new key in a free place, another value over a key, and
-- a key removed.
use native.Mathlib.Decide.{ℕ_discrete}
use bxroot.Prelude.{
  ℕ, ◌+◌, ◌≤◌, ◌<◌, ◌≡◌, ◌≢◌, refl, sym, ◌∙◌, ap, Bool, true, false, Option, none, some, List,
  length, set, if◌then◌else◌, Bool-cases, inl, inr, arith,
}
use bxroot.Table.{Key, Slot, empty, tomb, live, slot_at, is_live, first_of, one, view, times}
use bxroot.Table.Slots.{slot_at-set, length-set, times-set, view-set, unless, times_of_view}
use bxroot.Table.Paths.{Reach, IsPlaced, live-ne-empty, tomb-ne-empty, vacant_none}

first_if :
    {V : Type 0} (v : V) (rest : Option V) (b : Bool)
    → first_of (if b then some v else none) rest ≡ (if b then some v else rest)
first_if v rest true = refl
first_if v rest false = refl

over_if :
    {V : Type 0} (v w : V) (rest : Option V) (b : Bool)
    → first_of (if b then some v else none) (unless (if b then some w else none) rest)
      ≡ (if b then some v else rest)
over_if v w rest true = refl
over_if v w rest false = refl

under_if :
    {V : Type 0} (w : V) (rest : Option V) (b : Bool)
    → unless (if b then some w else none) rest ≡ (if b then none else rest)
under_if w rest true = refl
under_if w rest false = refl

one_if :
    {V : Type 0} (v w : V) (b : Bool)
    → one (if b then some v else none) ≡ one (if b then some w else none)
one_if v w true = refl
one_if v w false = refl

tomb-ne-live : {K V : Type 0} {k : K} {v : V} {age : ℕ} → tomb ≡ live k v age → ⊥
tomb-ne-live h = cc

few_same : {n m a : ℕ} (b : ℕ) → m ≤ 1 → a ≡ b → n + b ≡ m + a → n ≤ 1
few_same b h s e = omega arith

few_less : {n m : ℕ} (a : ℕ) → m ≤ 1 → n + a ≡ m + 0 → n ≤ 1
few_less a h e = omega arith

few_new : {n m : ℕ} → m ≡ 0 → n + 0 ≡ m + 1 → n ≤ 1
few_new h e = omega arith

few_old : {n m : ℕ} → m ≤ 1 → n + 0 ≡ m + 0 → n ≤ 1
few_old h e = omega arith

module _ {K V : Type 0} ⦃key : Key K⦄ (path : K → ℕ → ℕ) (cap : ℕ) where
  module _ (slots : List (Slot K V)) (i : ℕ) (s : Slot K V) (in_list : i < length slots)
      (filled : s ≢ empty) where
    stays_filled : (x : ℕ) → slot_at slots x ≢ empty → slot_at (set slots i s) x ≢ empty
    stays_filled x ne f = elim (ℕ_discrete i x) [
      | yes same ↦ filled (sym ((slot_at-set slots i x s).0 same in_list) ∙ f)
      | no other ↦ ne (sym ((slot_at-set slots i x s).1 other) ∙ f)
    ]

    stays_reached : (k : K) (j : ℕ) → Reach path cap slots k j → Reach path cap (set slots i s) k j
    stays_reached k j (n, in_cap, at_j, before) =
        (n, in_cap, at_j, λ i' h. stays_filled (path k i') (before i' h))

  moved_key :
      (slots : List (Slot K V)) (k k' : K) (v v' : V) (age age' j : ℕ)
      → live k v age ≡ live k' v' age'
      → Reach path cap slots k j
      → Reach path cap slots k' j
  moved_key slots k k' v v' age age' j e reach = let same : k ≡ k' = cc e in rw same at reach

  moved :
      (slots : List (Slot K V)) (k : K) (i j : ℕ)
      → i ≡ j
      → Reach path cap slots k i
      → Reach path cap slots k j
  moved slots k i j same (n, in_cap, at_i, before) = (n, in_cap, at_i ∙ same, before)

  -- A slot may be filled or buried, if a key that goes there belongs there and was nowhere else.
  pub set-IsPlaced :
      (slots : List (Slot K V)) (i : ℕ) (s : Slot K V)
      → IsPlaced path cap slots
      → i < cap
      → s ≢ empty
      → ((k : K) (v : V) (age : ℕ) → s ≡ live k v age → Reach path cap slots k i)
      → ((q : K) → times (set slots i s) q ≤ 1)
      → IsPlaced path cap (set slots i s)
  set-IsPlaced slots i s placed lt filled belongs few =
      let in_list : i < length slots = omega (arith, placed.width) in
      record {
        width = length-set slots i s ∙ placed.width;
        once = few;
        reached = λ k j v age e. stays_reached slots i s in_list filled k j (elim (ℕ_discrete i j) [
          | yes same ↦
              moved slots k i j same
                (belongs k v age (sym ((slot_at-set slots i j s).0 same in_list) ∙ e))
          | no other ↦ placed.reached k j v age (sym ((slot_at-set slots i j s).1 other) ∙ e)
        ]);
      }

  -- The three writes: a new key in a free place, a key over itself, and a key removed.
  module _ (slots : List (Slot K V)) (j : ℕ) (placed : IsPlaced path cap slots) (lt : j < cap) where
    in_list : j < length slots
    in_list = omega (arith, placed.width)

    pub insert-IsPlaced :
        (k : K) (v : V) (age : ℕ)
        → is_live (slot_at slots j) ≡ 0
        → view slots k ≡ none
        → Reach path cap slots k j
        → IsPlaced path cap (set slots j (live k v age))
          × ((q : K)
              → view (set slots j (live k v age)) q
                ≡ (if key.same k q then some v else view slots q))
    insert-IsPlaced k v age vacant absent reach =
        let few : (q : K) → times (set slots j (live k v age)) q ≤ 1 = λ q.
          elim (Bool-cases (key.same k q)) [
            | inl e ↦
                few_new
                  (times_of_view slots q (ap (view slots) (sym ((key.same_iff k q).0 e)) ∙ absent))
                  (rw (e, vacant_none (slot_at slots j) q vacant) at
                    (times-set slots j (live k v age) q in_list))
            | inr e ↦ few_old (placed.once q) (
                rw (e, vacant_none (slot_at slots j) q vacant) at
                  (times-set slots j (live k v age) q in_list))
          ] in
        (
          set-IsPlaced slots j (live k v age) placed lt (λ e. live-ne-empty e)
              (λ k' v' age' e. moved_key slots k k' v v' age age' j e reach) few,
          λ q.
              view-set slots j (live k v age) q in_list (placed.once q) (few q)
              ∙ rw (vacant_none (slot_at slots j) q vacant)
                  (first_if v (view slots q) (key.same k q)),
        )

    pub replace-IsPlaced :
        (k : K) (v w : V) (age old : ℕ)
        → slot_at slots j ≡ live k w old
        → IsPlaced path cap (set slots j (live k v age))
          × ((q : K)
              → view (set slots j (live k v age)) q
                ≡ (if key.same k q then some v else view slots q))
    replace-IsPlaced k v w age old here =
        let few : (q : K) → times (set slots j (live k v age)) q ≤ 1 = λ q.
          few_same _ (placed.once q) (one_if v w (key.same k q))
            (rw here at (times-set slots j (live k v age) q in_list)) in
        (
          set-IsPlaced slots j (live k v age) placed lt (λ e. live-ne-empty e)
              (λ k' v' age' e.
                moved_key slots k k' v v' age age' j e (placed.reached k j w old here))
              few,
          λ q.
              view-set slots j (live k v age) q in_list (placed.once q) (few q)
              ∙ rw here (over_if v w (view slots q) (key.same k q)),
        )

    pub bury-IsPlaced :
        (k : K) (w : V) (old : ℕ)
        → slot_at slots j ≡ live k w old
        → IsPlaced path cap (set slots j tomb)
          × ((q : K) → view (set slots j tomb) q ≡ (if key.same k q then none else view slots q))
    bury-IsPlaced k w old here =
        let few : (q : K) → times (set slots j tomb) q ≤ 1 =
          λ q. few_less _ (placed.once q) (times-set slots j tomb q in_list) in
        (
          set-IsPlaced slots j tomb placed lt (λ e. tomb-ne-empty e)
              (λ k' v' age' e. absurd (tomb-ne-live e)) few,
          λ q.
              view-set slots j tomb q in_list (placed.once q) (few q)
              ∙ rw here (under_if w (view slots q) (key.same k q)),
        )
