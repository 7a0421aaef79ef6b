-- ===== src/Preload/Dots/Walking.antt =====
-- preload.c, guest_resolve_dotdot: what the walk holds, whatever links there are.
use bxroot.Prelude.{
  ℕ, zero, suc, ◌≡◌, ◌≢◌, refl, Bool, true, false, Option, none, some, [], ◌∷◌, ◌++◌, Str, codes,
  str_eq, has_byte, has_byte-append, length, drop, ◌==◌, if◌then◌else◌, Bool-cases, inl, inr, arith,
}
use bxroot.Preload.Config.{is_empty}
use bxroot.Preload.Dots.{
  skip_slashes, first_name, up, Walk, arrived, overlong, looping, jump_to, follow, enter, walk_at,
  walk,
}

-- A component that is neither empty, "." nor "..".
pub record IsName (n : Str) : Type 0 where
  pub some_byte : n ≢ []
  pub no_slash : has_byte b'/' n ≡ false
  pub not_up : str_eq n (codes "..") ≡ false

-- A path that is walked: names, each behind a slash.
pub data IsWalk : Str → Type 0 where
  start : IsWalk []
  step : {s : Str} (cur n : Str) → IsWalk cur → IsName n → s ≡ cur ++ (b'/' ∷ n) → IsWalk s

up-append : (cur n : Str) → has_byte b'/' n ≡ false → up (cur ++ (b'/' ∷ n)) ≡ cur
unfolding up has_byte
up-append [] n h = ground (arith, h)
up-append (c ∷ cur) n h = ground (arith, h, up-append cur n h, has_byte-append b'/' cur (b'/' ∷ n))

pub up-IsWalk : (cur : Str) → IsWalk cur → IsWalk (up cur)
unfolding up
up-IsWalk cur start = start
up-IsWalk s (step cur n w name e) = rw (e, up-append cur n name.no_slash) w

-- The first component of what stands behind the slashes.
pub first_name-no_slash : (s : Str) → has_byte b'/' (first_name s) ≡ false
unfolding first_name has_byte
first_name-no_slash [] = refl
first_name-no_slash (c ∷ s) = ground (arith, first_name-no_slash s)

pub skip-first : (s : Str) → is_empty (skip_slashes s) ≡ false → first_name (skip_slashes s) ≢ []
unfolding skip_slashes first_name
skip-first [] h = absurd (cc)
skip-first (c ∷ s) h = elim (Bool-cases (c == b'/')) [
  | inl slash ↦ rw slash (skip-first s (ground (arith, h, slash)))
  | inr other ↦ rw (other, other) (λ e. cc)
]

-- Where a walk stops, it stops at a walked path.
abbrev pub Stops : Walk → Type 0
Stops (arrived cur) = IsWalk cur
Stops overlong = Unit
Stops looping = Unit

abbrev pub Keeps : (Str → Str → Walk) → Type 0
Keeps again = (cur rest : Str) → IsWalk cur → Stops (again cur rest)

abbrev pub KeepsToo : Option (Str → Str → Walk) → Type 0
KeepsToo none = Unit
KeepsToo (some jump) = Keeps jump

Stops-if : (b : Bool) (x y : Walk) → Stops x → Stops y → Stops (if b then x else y)
Stops-if true x y p q = p
Stops-if false x y p q = q

pub IsWalk-if : (b : Bool) (s : Str) → IsWalk s → IsWalk (if b then [] else s)
IsWalk-if true s w = start
IsWalk-if false s w = w

jump_to-Stops :
    (go : Str → Str → Walk) (cur t after : Str)
    → Keeps go
    → IsWalk cur
    → Stops (jump_to go cur t after)
jump_to-Stops go cur t after kept w =
    Stops-if _ overlong _ tt (kept _ _ (IsWalk-if _ (up cur) (up-IsWalk cur w)))

follow-Stops :
    (again : Str → Str → Walk) (jump : Option (Str → Str → Walk)) (cur after : Str)
    (found : Option Str)
    → Keeps again
    → KeepsToo jump
    → IsWalk cur
    → Stops (follow again jump cur after found)
follow-Stops again jump cur after none keeps kept w = keeps cur after w
follow-Stops again none cur after (some t) keeps kept w =
    Stops-if (is_empty t) _ looping (keeps cur after w) tt
follow-Stops again (some go) cur after (some t) keeps kept w =
    Stops-if (is_empty t) _ _ (keeps cur after w) (jump_to-Stops go cur t after kept w)

module _ (target : Str → Option Str) (again : Str → Str → Walk) (jump : Option (Str → Str → Walk))
    (keeps : Keeps again) (kept : KeepsToo jump) where
  enter-Stops :
      (cur name after : Str)
      → IsWalk cur
      → IsName name
      → Stops (enter target again jump cur name after)
  enter-Stops cur name after w named =
      let here = cur ++ (b'/' ∷ name) in
      let there = step cur name w named refl in
      Stops-if _ overlong _ tt (
        Stops-if (is_empty (skip_slashes after)) (arrived here) _ there
          (follow-Stops again jump here after (target here) keeps kept there))

  named_or_up :
      (cur rest : Str)
      → is_empty (skip_slashes rest) ≡ false
      → IsWalk cur
      → Stops (
          let r = skip_slashes rest in
          let name = first_name r in
          let after = drop (length name) r in
          if str_eq name (codes "..")
          then again (up cur) after
          else enter target again jump cur name after)
  named_or_up cur rest some_left w =
      let r = skip_slashes rest in
      let name = first_name r in
      elim (Bool-cases (str_eq name (codes ".."))) [
        | inl e ↦ rw e (keeps (up cur) _ (up-IsWalk cur w))
        | inr e ↦ rw e (
            enter-Stops cur name _ w (record {
              some_byte = skip-first rest some_left;
              no_slash = first_name-no_slash r;
              not_up = e;
            }))
      ]

  -- A round, from behind the slashes.
  walk_at-Stops :
      (cur rest : Str) → IsWalk cur → Stops (walk_at target again jump cur (skip_slashes rest))
  walk_at-Stops cur rest w =
      let r = skip_slashes rest in
      elim (Bool-cases (is_empty r)) [
        | inl e ↦ rw e w
        | inr e ↦ rw e (
            Stops-if (str_eq (first_name r) (codes ".")) _ _ (keeps cur _ w)
              (named_or_up cur rest e w))
      ]

-- The walk stops at a walked path, if it starts at one.
pub walk-Stops :
    (target : Str → Option Str) (links fuel : ℕ) (cur rest : Str)
    → IsWalk cur
    → Stops (walk target links fuel cur rest)
unfolding walk
walk-Stops target links zero cur rest w = w
walk-Stops target zero (suc fuel) cur rest w =
    walk_at-Stops target _ none (λ c r v. walk-Stops target zero fuel c r v) tt cur rest w
walk-Stops target (suc links) (suc fuel) cur rest w =
    walk_at-Stops target _ (some (λ c r. walk target links (suc (length r)) c r))
      (λ c r v. walk-Stops target (suc links) fuel c r v)
      (λ c r v. walk-Stops target links (suc (length r)) c r v) cur rest w
