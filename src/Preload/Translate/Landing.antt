-- ===== src/Preload/Translate/Landing.antt =====
-- preload.c, translate_path: where an absolute path of the guest ends up on the host.
use bxroot.Prelude.{
  ℕ, zero, suc, ◌≡◌, ◌⊎◌, refl, Bool, true, false, ◌&&◌, Option, none, some, List, [], ◌∷◌, ◌++◌,
  Str, byte_at, length, drop, ltb, ◌==◌, ◌!=◌, if◌then◌else◌, Bool-cases, and_second, inl, inr,
  arith,
}
use bxroot.Preload.Config.{max_path_len, Bind, Config, World, beneath, copied, printed}
use bxroot.Preload.Binds.{match_from}
use bxroot.Preload.Binds.Matching.{IsAmong}
use bxroot.Preload.Termux.{Mapped, mapped, no_prefix, overlong, termux_compat_enabled}
use bxroot.Preload.Termux.Laws.{Maps, termux_compat_map-absolute}
use bxroot.Preload.Dots.{path_has_dotdot, Resolved, resolved, too_long, too_many_links}
use bxroot.Preload.Dots.Clean.{IsGuest, Resolves, guest_resolve_dotdot-IsGuest}
use bxroot.Preload.Translate.{
  Translated, failed, same, rewritten, or_failed, or_else_to, root_of, sentinel, after_dots,
  clamped, link_target, guest_view, is_bind_source, shm_guest, shm_tmp_base, redirected, is_special,
  prefixed, ordinary, compatible, unbound, bound, absolute_path, translate_round, translate_on,
  translate_path,
}

-- Where a path may lead: below the root, below the source of a bind, to a name that does not exist; or
-- it stays as it is, when it is of the root, of the source of a bind, or of /proc, /sys or /dev. `guest`
-- has no component "..", so that nothing below a prefix leads above it.
pub data Lands (cfg : Config) (size : ℕ) : Translated → Type 0 where
  in_root :
      {r : Translated} (guest : Str)
      → IsGuest guest
      → r ≡ rewritten (root_of cfg ++ guest)
      → Lands cfg size r
  in_bind :
      {r : Translated} (b : Bind) (guest : Str)
      → IsAmong b cfg.binds
      → IsGuest guest
      → beneath guest b.target ≡ true
      → r ≡ rewritten (b.source ++ drop (length b.target) guest)
      → Lands cfg size r
  nowhere :
      {r : Translated} (root : Str)
      → (root ≡ root_of cfg) ⊎ (root ≡ [])
      → r ≡ rewritten (root ++ sentinel)
      → Lands cfg size r
  kept :
      {r : Translated} (guest : Str)
      → IsGuest guest
      → ((beneath guest (root_of cfg) ≡ true)
          ⊎ (is_bind_source cfg.binds guest ≡ true)
          ⊎ (is_special guest ≡ true))
      → r ≡ same (copied size guest)
      → Lands cfg size r
  refused : {r : Translated} → r ≡ failed → Lands cfg size r

-- The entry that is selected is one of the table, and the path lies below its target.
abbrev Selected : Str → List Bind → Option Bind → Type 0
Selected path binds none = Unit
Selected path binds (some b) = IsAmong b binds × (beneath path b.target ≡ true)

Selected-if :
    (path : Str) (all : List Bind) (hit : Bool) (b : Bind) (best : Option Bind)
    → (hit ≡ true → beneath path b.target ≡ true)
    → IsAmong b all
    → Selected path all best
    → Selected path all (if hit then some b else best)
Selected-if path all true b best below here s = (here, below refl)
Selected-if path all false b best below here s = s

and_middle : (a b c : Bool) → (a && b && c) ≡ true → b ≡ true
and_middle true true true h = refl
and_middle true true false h = refl
and_middle true false c h = cc
and_middle false true c h = refl
and_middle false false c h = absurd (cc)

match_from-Selected :
    (path : Str) (all rest : List Bind) (best : Option Bind)
    → ((b : Bind) → IsAmong b rest → IsAmong b all)
    → Selected path all best
    → Selected path all (match_from path rest best)
unfolding match_from
match_from-Selected path all [] best sub s = s
match_from-Selected path all (b ∷ bs) best sub s =
    match_from-Selected path all bs _ (λ c m. sub c (inr m))
      (Selected-if path all _ b best (λ h. and_middle _ _ _ h) (sub b (inl refl)) s)

module _ (cfg : Config) (size : ℕ) where
  or_else_to-Lands :
      (s : Str) (other : Translated)
      → Lands cfg size (rewritten s)
      → Lands cfg size other
      → Lands cfg size (or_else_to (printed size s) other)
  or_else_to-Lands s other here there = elim (Bool-cases (ltb (length s) size)) [
    | inl e ↦ rw e here
    | inr e ↦ rw e there
  ]

  or_failed-Lands :
      (s : Str) → Lands cfg size (rewritten s) → Lands cfg size (or_failed (printed size s))
  or_failed-Lands s here = elim (Bool-cases (ltb (length s) size)) [
    | inl e ↦ rw e here
    | inr e ↦ rw e (refused refl)
  ]

  Lands-if :
      (b : Bool) (x y : Translated)
      → (b ≡ true → Lands cfg size x)
      → (b ≡ false → Lands cfg size y)
      → Lands cfg size (if b then x else y)
  Lands-if true x y p q = p refl
  Lands-if false x y p q = q refl

  prefixed-Lands : (path : Str) → IsGuest path → Lands cfg size (prefixed cfg path size)
  unfolding prefixed
  prefixed-Lands path g = or_else_to-Lands (root_of cfg ++ path) _ (in_root path g refl) (
      or_else_to-Lands (root_of cfg ++ sentinel) _ (nowhere (root_of cfg) (inl refl) refl)
        (Lands-if _ _ _ (λ e. nowhere [] (inr refl) refl) (λ e. refused refl)))

  ordinary-Lands : (path : Str) → IsGuest path → Lands cfg size (ordinary cfg path size)
  ordinary-Lands path g =
      Lands-if (is_special path) _ _ (λ e. kept path g (inr (inr e)) refl)
        (λ e. prefixed-Lands path g)

pub append_first : (a b : Str) → byte_at a 0 ≡ b'/' → byte_at (a ++ b) 0 ≡ b'/'
append_first [] b h = absurd (omega arith)
append_first (x ∷ a) b h = h

pub is_absolute : (path : Str) → byte_at path 0 ≡ b'/' → (byte_at path 0 != b'/') ≡ false
is_absolute path h = ground (arith, h)

-- What the further calls of the function are to do.
abbrev pub LandsAll : Config → (Str → ℕ → Translated) → Type 0
LandsAll cfg again =
    (path : Str) (size : ℕ) → byte_at path 0 ≡ b'/' → Lands cfg size (again path size)

module _ (cfg : Config) (w : World) (again : Str → ℕ → Translated) (lands : LandsAll cfg again)
    (tmp : byte_at (shm_tmp_base cfg) 0 ≡ b'/') where
  redirected-Lands :
      (size : ℕ) (rest : Str)
      → Lands cfg size (redirected again size (printed max_path_len (shm_tmp_base cfg ++ rest)))
  redirected-Lands size rest =
      elim (Bool-cases (ltb (length (shm_tmp_base cfg ++ rest)) max_path_len)) [
        | inl e ↦ rw e (lands _ size (append_first (shm_tmp_base cfg) rest tmp))
        | inr e ↦ rw e (refused refl)
      ]

  compatible-Lands :
      (path : Str) (size : ℕ) (found : Mapped)
      → Maps (λ s. byte_at s 0 ≡ b'/') found
      → IsGuest path
      → Lands cfg size (compatible again cfg path size found)
  compatible-Lands path size no_prefix m g = ordinary-Lands cfg size path g
  compatible-Lands path size overlong m g = ordinary-Lands cfg size path g
  compatible-Lands path size (mapped redirect) m g = lands redirect size m

  unbound-Lands :
      (path : Str) (size : ℕ) → IsGuest path → Lands cfg size (unbound again cfg w path size)
  unfolding unbound
  unbound-Lands path size g = elim (Bool-cases (beneath path shm_guest)) [
    | inl e ↦ rw e (redirected-Lands size _)
    | inr e ↦ rw e (elim (Bool-cases (termux_compat_enabled (some (root_of cfg)) w.no_termux)) [
      | inl t ↦ rw t (compatible-Lands path size _ (termux_compat_map-absolute path max_path_len) g)
      | inr t ↦ rw t (ordinary-Lands cfg size path g)
    ])
  ]

  bound-Lands :
      (path : Str) (size : ℕ) (found : Option Bind)
      → IsGuest path
      → Selected path cfg.binds found
      → Lands cfg size (bound again cfg w path size found)
  bound-Lands path size none g s = unbound-Lands path size g
  bound-Lands path size (some b) g s = or_failed-Lands cfg size _ (in_bind b path s.0 g s.1 refl)

  absolute_path-Lands :
      (path : Str) (size : ℕ) → IsGuest path → Lands cfg size (absolute_path again cfg w path size)
  unfolding absolute_path
  absolute_path-Lands path size g =
      elim (Bool-cases (length (root_of cfg) != 0 && beneath path (root_of cfg))) [
        | inl e ↦ rw e (kept path g (inl (and_second (length (root_of cfg) != 0) _ e)) refl)
        | inr e ↦ rw e (elim (Bool-cases (is_bind_source cfg.binds path)) [
          | inl s ↦ rw s (kept path g (inr (inl s)) refl)
          | inr s ↦ rw s (
              bound-Lands path size _ g
                (match_from-Selected path cfg.binds cfg.binds none (λ b m. m) tt))
        ])
      ]

  after_dots-Lands :
      (size : ℕ) (r : Resolved) → Resolves r → Lands cfg size (after_dots again cfg size r)
  after_dots-Lands size (resolved guest) g = lands guest size g.absolute
  after_dots-Lands size too_long g =
      or_failed-Lands cfg size _ (nowhere (root_of cfg) (inl refl) refl)
  after_dots-Lands size too_many_links g =
      or_failed-Lands cfg size _ (nowhere (root_of cfg) (inl refl) refl)

  clamped-Lands : (path : Str) (size : ℕ) → Lands cfg size (clamped again cfg w path size)
  unfolding clamped
  clamped-Lands path size =
      after_dots-Lands size _
        (guest_resolve_dotdot-IsGuest (link_target again cfg w) (guest_view cfg path) max_path_len)

  translate_round-Lands :
      (path : Str) (size : ℕ)
      → byte_at path 0 ≡ b'/'
      → Lands cfg size (translate_round again cfg w path size)
  unfolding translate_round
  translate_round-Lands path size abs = rw (is_absolute path abs) (
      Lands-if cfg size (size == 0) _ _ (λ e. refused refl)
        (λ e.
          Lands-if cfg size (path_has_dotdot path) _ _ (λ d. clamped-Lands path size)
            (λ d. absolute_path-Lands path size (record { absolute = abs; clean = d }))))

translate_on-Lands :
    (cfg : Config) (w : World) (fuel : ℕ)
    → byte_at (shm_tmp_base cfg) 0 ≡ b'/'
    → LandsAll cfg (λ p s. translate_on (λ p s. failed) fuel cfg w p s)
unfolding translate_on
translate_on-Lands cfg w zero tmp path size abs = refused refl
translate_on-Lands cfg w (suc fuel) tmp path size abs =
    translate_round-Lands cfg w _ (translate_on-Lands cfg w fuel tmp) tmp path size abs

-- An absolute path of the guest leads below the root, below the source of a bind whose target it
-- lies in, or to a name that does not exist; or it stays as it is, cut to the buffer, where it lies in
-- the root, in the source of a bind that is not of a path to itself, or in /proc, /sys or /dev; or it is
-- refused. What is put behind a prefix, or kept, is absolute and has no component "..", whatever links
-- the path goes through. The directory for shared memory is an absolute path.
pub translate_path-Lands :
    (cfg : Config) (w : World) (path : Str) (size : ℕ)
    → byte_at (shm_tmp_base cfg) 0 ≡ b'/'
    → byte_at path 0 ≡ b'/'
    → Lands cfg size (translate_path cfg w path size)
unfolding translate_path
translate_path-Lands cfg w path size tmp abs = translate_on-Lands cfg w 5 tmp path size abs
