-- ===== src/Table/Moves.antt =====
-- A table with no entries.
use bxroot.Prelude.{ℕ, zero, suc, ◌≡◌, refl, sym, ◌∙◌, none, List, [], ◌∷◌, length, arith}
use bxroot.Table.{empties, Key, Slot, empty, slot_at, lives, tombs, view, times}
use bxroot.Table.Paths.{IsPlaced, live-ne-empty}

pub length-empties : (K V : Type 0) (n : ℕ) → length (empties {K = K} {V = V} n) ≡ n
unfolding empties
length-empties K V zero = refl
length-empties K V (suc n) = omega (arith, length-empties K V n)

module _ {K V : Type 0} where
  -- Only empty slots.
  pub data IsBlank : List (Slot K V) → Type 0 where
    none_left : IsBlank []
    one_more : (slots : List (Slot K V)) → IsBlank slots → IsBlank (empty ∷ slots)

  pub empties-IsBlank : (n : ℕ) → IsBlank (empties n)
  unfolding empties
  empties-IsBlank zero = none_left
  empties-IsBlank (suc n) = one_more (empties n) (empties-IsBlank n)

  pub slot_at-blank : {slots : List (Slot K V)} (j : ℕ) → IsBlank slots → slot_at slots j ≡ empty
  slot_at-blank j none_left = refl
  slot_at-blank zero (one_more slots blank) = refl
  slot_at-blank (suc j) (one_more slots blank) = slot_at-blank j blank

  pub lives-blank : {slots : List (Slot K V)} → IsBlank slots → lives slots ≡ 0
  unfolding lives
  lives-blank none_left = refl
  lives-blank (one_more slots blank) = omega (arith, lives-blank blank)

  pub tombs-blank : {slots : List (Slot K V)} → IsBlank slots → tombs slots ≡ 0
  unfolding tombs
  tombs-blank none_left = refl
  tombs-blank (one_more slots blank) = omega (arith, tombs-blank blank)

module _ {K V : Type 0} ⦃key : Key K⦄ where
  pub times-blank : {slots : List (Slot K V)} (q : K) → IsBlank slots → times slots q ≡ 0
  unfolding times
  times-blank q none_left = refl
  times-blank q (one_more slots blank) = omega (arith, times-blank q blank)

  pub view-blank : {slots : List (Slot K V)} (q : K) → IsBlank slots → view slots q ≡ none
  unfolding view
  view-blank q none_left = refl
  view-blank q (one_more slots blank) = view-blank q blank

  pub blank-IsPlaced :
      (path : K → ℕ → ℕ) (cap : ℕ) (slots : List (Slot K V))
      → IsBlank slots
      → length slots ≡ cap
      → IsPlaced path cap slots
  blank-IsPlaced path cap slots blank width = record {
    width = width;
    once = λ q. omega (arith, times-blank q blank);
    reached = λ k j v age e. absurd (live-ne-empty (sym e ∙ slot_at-blank j blank));
  }
