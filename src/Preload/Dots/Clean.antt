-- ===== src/Preload/Dots/Clean.antt =====
-- preload.c: which paths path_has_dotdot finds, and what guest_resolve_dotdot leaves.
use bxroot.Prelude.{
  ℕ, suc, ◌≡◌, ◌≢◌, refl, ◌∙◌, Bool, true, false, ◌||◌, Option, [], ◌∷◌, ◌++◌, Str, codes, byte_at,
  str_eq, has_byte, length, ltb, leb, ◌==◌, if◌then◌else◌, Bool-cases, inl, inr, arith, append-nil,
}
use bxroot.Preload.Config.{max_path_len}
use bxroot.Preload.Dots.{
  dotdot_from, path_has_dotdot, Walk, arrived, overlong, looping, finish, has_trailing, max_links,
  Resolved, resolved, too_long, too_many_links, guest_resolve_dotdot,
}
use bxroot.Preload.Dots.Walking.{IsWalk, start, step, Stops, walk-Stops}

-- A slash parts a path for the search.
pub dotdot_from-append :
    (before : ℕ) (s n : Str)
    → dotdot_from before (s ++ (b'/' ∷ n)) ≡ (dotdot_from before s || dotdot_from b'/' n)
unfolding dotdot_from
dotdot_from-append before [] [] = refl
dotdot_from-append before [] (d ∷ n) = refl
dotdot_from-append before (c ∷ []) [] = ground arith
dotdot_from-append before (c ∷ []) (d ∷ n) = ground arith
dotdot_from-append before (c ∷ (d ∷ [])) n =
    ground (arith, dotdot_from-append c (d ∷ []) n, dotdot_from-append d [] n)
dotdot_from-append before (c ∷ (d ∷ (e ∷ s))) n =
    ground (arith, dotdot_from-append c (d ∷ (e ∷ s)) n, dotdot_from-append d (e ∷ s) n)

-- Inside a component nothing is found.
inside :
    (before : ℕ) (n : Str)
    → (before == b'/') ≡ false
    → has_byte b'/' n ≡ false
    → dotdot_from before n ≡ false
unfolding dotdot_from has_byte
inside before [] b h = refl
inside before (c ∷ []) b h = refl
inside before (c ∷ (d ∷ n)) b h = ground (arith, b, h, inside c (d ∷ n), inside d n)

-- A component is found exactly if it is "..".
pub dotdot_from-name :
    (n : Str) → has_byte b'/' n ≡ false → dotdot_from b'/' n ≡ str_eq n (codes "..")
unfolding dotdot_from has_byte str_eq
dotdot_from-name [] h = refl
dotdot_from-name (c ∷ []) h = ground arith
dotdot_from-name (c ∷ (d ∷ [])) h = ground arith
dotdot_from-name (c ∷ (d ∷ (e ∷ n))) h = ground (arith, h, inside c (d ∷ (e ∷ n)), inside d (e ∷ n))

pub IsWalk-clean : (cur : Str) → IsWalk cur → path_has_dotdot cur ≡ false
unfolding path_has_dotdot
IsWalk-clean cur start = refl
IsWalk-clean s (step cur n w name e) =
    rw (e, dotdot_from-append b'/' cur n, IsWalk-clean cur w, dotdot_from-name n name.no_slash)
      name.not_up

trailing-clean : (cur : Str) → IsWalk cur → path_has_dotdot (cur ++ codes "/") ≡ false
unfolding path_has_dotdot
trailing-clean cur w = rw (dotdot_from-append b'/' cur [], IsWalk-clean cur w) refl

first_of :
    (cur rest : Str) → (cur ≢ [] → byte_at cur 0 ≡ b'/') → byte_at (cur ++ (b'/' ∷ rest)) 0 ≡ b'/'
first_of [] rest h = refl
first_of (c ∷ cur) rest h = h (λ e. cc)

pub IsWalk-first : (cur : Str) → IsWalk cur → cur ≢ [] → byte_at cur 0 ≡ b'/'
IsWalk-first cur start ne = absurd (ne refl)
IsWalk-first s (step cur n w name e) ne = rw e (first_of cur n (IsWalk-first cur w))

-- Absolute, and without a component "..".
pub record IsGuest (path : Str) : Type 0 where
  pub absolute : byte_at path 0 ≡ b'/'
  pub clean : path_has_dotdot path ≡ false

abbrev pub Resolves : Resolved → Type 0
Resolves (resolved path) = IsGuest path
Resolves too_long = Unit
Resolves too_many_links = Unit

first-append : (a b : Str) → a ≢ [] → byte_at (a ++ b) 0 ≡ byte_at a 0
first-append [] b ne = absurd (ne refl)
first-append (x ∷ a) b ne = refl

out_of :
    (trailing : Bool) (cur : Str)
    → IsWalk cur
    → cur ≢ []
    → IsGuest (cur ++ (if trailing then codes "/" else []))
out_of true cur w ne = record {
  absolute = first-append cur (codes "/") ne ∙ IsWalk-first cur w ne;
  clean = trailing-clean cur w;
}
out_of false cur w ne =
    rw (append-nil cur) (record { absolute = IsWalk-first cur w ne; clean = IsWalk-clean cur w })

Resolves-if :
    (b : Bool) (path : Str)
    → (b ≡ false → IsGuest path)
    → Resolves (if b then too_long else resolved path)
Resolves-if true path g = tt
Resolves-if false path g = g refl

root-IsGuest : IsGuest (codes "/")
unfolding path_has_dotdot dotdot_from
root-IsGuest = record { absolute = refl; clean = refl }

finish-Resolves :
    (trailing : Bool) (size : ℕ) (stop : Walk) → Stops stop → Resolves (finish trailing size stop)
finish-Resolves trailing size overlong s = tt
finish-Resolves trailing size looping s = tt
finish-Resolves trailing size (arrived []) s =
    Resolves-if (ltb size 2) (codes "/") (λ e. root-IsGuest)
finish-Resolves trailing size (arrived (c ∷ cur)) s =
    Resolves-if _ _ (λ e. out_of trailing (c ∷ cur) s (λ z. cc))

-- What guest_resolve_dotdot gives is absolute and has no component "..", whatever the links say.
pub guest_resolve_dotdot-IsGuest :
    (target : Str → Option Str) (path : Str) (size : ℕ)
    → Resolves (guest_resolve_dotdot target path size)
unfolding guest_resolve_dotdot
guest_resolve_dotdot-IsGuest target path size = elim (Bool-cases (leb max_path_len (length path))) [
  | inl e ↦ rw e tt
  | inr e ↦ rw e (
      finish-Resolves (has_trailing path) size _
        (walk-Stops target max_links (suc (length path)) [] path start))
]
