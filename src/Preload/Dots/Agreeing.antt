-- ===== src/Preload/Dots/Agreeing.antt =====
-- preload.c, guest_resolve_dotdot: what the walk asks of the links, and how much fuel it needs.
use bxroot.Prelude.{
  ℕ, zero, suc, ◌≤◌, ◌<◌, ◌≡◌, ◌≢◌, refl, ap, ◌∙◌, Bool, true, false, Option, none, some, [], ◌∷◌,
  ◌++◌, Str, codes, str_eq, length, length-drop, drop, leb, if◌then◌else◌, Bool-cases, inl, inr,
  arith,
}
use bxroot.Preload.Config.{max_path_len, is_empty}
use bxroot.Preload.Dots.{
  skip_slashes, first_name, up, Walk, arrived, overlong, looping, jump_to, follow, enter, named_at,
  walk_at, walk, finish, has_trailing, max_links, guest_resolve_dotdot,
}
use bxroot.Preload.Dots.Walking.{
  IsName, IsWalk, start, step, up-IsWalk, IsWalk-if, skip-first, first_name-no_slash,
}

-- The links are asked of the same paths with the same answers.
abbrev pub AskedAlike : (Str → Option Str) → (Str → Option Str) → Type 0
AskedAlike t t' = (cur : Str) → IsWalk cur → cur ≢ [] → t cur ≡ t' cur

-- Two ways to go on agree on rests below a bound.
abbrev Agree : ℕ → (Str → Str → Walk) → (Str → Str → Walk) → Type 0
Agree bound a a' = (cur rest : Str) → IsWalk cur → length rest < bound → a cur rest ≡ a' cur rest

abbrev AgreeToo : Option (Str → Str → Walk) → Option (Str → Str → Walk) → Type 0
AgreeToo none none = Unit
AgreeToo none (some go) = ⊥
AgreeToo (some go) none = ⊥
AgreeToo (some go) (some go') = (cur rest : Str) → IsWalk cur → go cur rest ≡ go' cur rest

if-alike :
    (b : Bool) (x y x' y' : Walk) → x ≡ x' → y ≡ y' → (if b then x else y) ≡ (if b then x' else y')
if-alike true x y x' y' p q = p
if-alike false x y x' y' p q = q

skip-le : (s : Str) → length (skip_slashes s) ≤ length s
unfolding skip_slashes
skip-le [] = omega arith
skip-le (c ∷ s) = ground (arith, skip-le s)

length-pos : (s : Str) → s ≢ [] → 0 < length s
length-pos [] ne = absurd (ne refl)
length-pos (c ∷ s) ne = omega arith

name-le : (s : Str) → length (first_name s) ≤ length s
unfolding first_name
name-le [] = omega arith
name-le (c ∷ s) = ground (arith, name-le s)

slash_ne : (a b : Str) → a ++ (b'/' ∷ b) ≢ []
slash_ne [] b e = cc
slash_ne (x ∷ a) b e = cc

-- Each component is at least one byte.
first-pos : (s : Str) → first_name s ≢ [] → 0 < length (first_name s)
first-pos s ne = length-pos (first_name s) ne

after-shorter :
    (rest : Str)
    → is_empty (skip_slashes rest) ≡ false
    → length (drop (length (first_name (skip_slashes rest))) (skip_slashes rest)) < length rest
after-shorter rest some_left =
    let r = skip_slashes rest in
    omega (
      arith,
      length-drop (length (first_name r)) r,
      first-pos r (skip-first rest some_left),
      name-le r,
      skip-le rest,
    )

module _ (t t' : Str → Option Str) (asked : AskedAlike t t') (bound : ℕ) (a a' : Str → Str → Walk)
    (agree : Agree bound a a') where
  jump_to-alike :
      (go go' : Str → Str → Walk) (cur text after : Str)
      → AgreeToo (some go) (some go')
      → IsWalk cur
      → jump_to go cur text after ≡ jump_to go' cur text after
  jump_to-alike go go' cur text after same w =
      if-alike _ overlong _ overlong _ refl (same _ _ (IsWalk-if _ (up cur) (up-IsWalk cur w)))

  follow-alike :
      (jump jump' : Option (Str → Str → Walk)) (cur after : Str) (found : Option Str)
      → AgreeToo jump jump'
      → IsWalk cur
      → length after < bound
      → follow a jump cur after found ≡ follow a' jump' cur after found
  follow-alike none none cur after none same w short = agree cur after w short
  follow-alike none none cur after (some text) same w short =
      if-alike (is_empty text) _ looping _ looping (agree cur after w short) refl
  follow-alike none (some go') cur after found same w short = absurd same
  follow-alike (some go) none cur after found same w short = absurd same
  follow-alike (some go) (some go') cur after none same w short = agree cur after w short
  follow-alike (some go) (some go') cur after (some text) same w short =
      if-alike (is_empty text) _ _ _ _ (agree cur after w short)
        (jump_to-alike go go' cur text after same w)

  enter-alike :
      (jump jump' : Option (Str → Str → Walk)) (cur name after : Str)
      → AgreeToo jump jump'
      → IsWalk cur
      → IsName name
      → length after < bound
      → enter t a jump cur name after ≡ enter t' a' jump' cur name after
  enter-alike jump jump' cur name after same w named short =
      let here = cur ++ (b'/' ∷ name) in
      let there = step cur name w named refl in
      if-alike _ overlong _ overlong _ refl (
        if-alike (is_empty (skip_slashes after)) (arrived here) _ (arrived here) _ refl (
          ap (follow a jump here after) (asked here there (slash_ne cur name))
          ∙ follow-alike jump jump' here after (t' here) same there short))

  named-alike :
      (jump jump' : Option (Str → Str → Walk)) (cur rest : Str)
      → AgreeToo jump jump'
      → IsWalk cur
      → is_empty (skip_slashes rest) ≡ false
      → length (drop (length (first_name (skip_slashes rest))) (skip_slashes rest)) < bound
      → named_at t a jump cur (skip_slashes rest) ≡ named_at t' a' jump' cur (skip_slashes rest)
  named-alike jump jump' cur rest same w some_left short =
      let r = skip_slashes rest in
      let name = first_name r in
      if-alike (str_eq name (codes ".")) _ _ _ _ (agree cur _ w short)
        (elim (Bool-cases (str_eq name (codes ".."))) [
          | inl e ↦ rw e (agree (up cur) _ (up-IsWalk cur w) short)
          | inr e ↦ rw e (
              enter-alike jump jump' cur name _ same w
                (record {
                  some_byte = skip-first rest some_left;
                  no_slash = first_name-no_slash r;
                  not_up = e;
                })
                short)
        ])

  walk_at-alike :
      (jump jump' : Option (Str → Str → Walk)) (cur rest : Str)
      → AgreeToo jump jump'
      → IsWalk cur
      → length rest ≤ bound
      → walk_at t a jump cur (skip_slashes rest) ≡ walk_at t' a' jump' cur (skip_slashes rest)
  walk_at-alike jump jump' cur rest same w short =
      elim (Bool-cases (is_empty (skip_slashes rest))) [
        | inl e ↦ rw e refl
        | inr e ↦
            rw e (named-alike jump jump' cur rest same w e (omega (arith, after-shorter rest e)))
      ]

-- With fuel above the length of the rest, more fuel and links that answer alike give the same.
pub walk-alike :
    (t t' : Str → Option Str) (links fuel more : ℕ) (cur rest : Str)
    → AskedAlike t t'
    → IsWalk cur
    → length rest < fuel
    → length rest < more
    → walk t links fuel cur rest ≡ walk t' links more cur rest
unfolding walk
walk-alike t t' links zero more cur rest asked w f g = absurd (omega arith)
walk-alike t t' links (suc fuel) zero cur rest asked w f g = absurd (omega arith)
walk-alike t t' zero (suc fuel) (suc more) cur rest asked w f g =
    walk_at-alike t t' asked (length rest) _ _
      (λ c r v s. walk-alike t t' zero fuel more c r asked v (omega arith) (omega arith)) none none
      cur rest tt w (omega arith)
walk-alike t t' (suc links) (suc fuel) (suc more) cur rest asked w f g =
    walk_at-alike t t' asked (length rest) _ _
      (λ c r v s. walk-alike t t' (suc links) fuel more c r asked v (omega arith) (omega arith))
      (some (λ c r. walk t links (suc (length r)) c r))
      (some (λ c r. walk t' links (suc (length r)) c r)) cur rest
      (λ c r v.
        walk-alike t t' links (suc (length r)) (suc (length r)) c r asked v (omega arith)
          (omega arith))
      w (omega arith)

pub guest_resolve_dotdot-alike :
    (t t' : Str → Option Str) (path : Str) (size : ℕ)
    → AskedAlike t t'
    → guest_resolve_dotdot t path size ≡ guest_resolve_dotdot t' path size
unfolding guest_resolve_dotdot
guest_resolve_dotdot-alike t t' path size asked =
    elim (Bool-cases (leb max_path_len (length path))) [
      | inl e ↦ rw e refl
      | inr e ↦ rw e (
          ap (finish (has_trailing path) size) (
            walk-alike t t' max_links (suc (length path)) (suc (length path)) [] path asked start
              (omega arith) (omega arith)))
    ]
