-- ===== src/Preload/Translate/Returning.antt =====
-- preload.c: a path below the root on its way back, and on its way in once more.
use mathlib.Core.Path.{subst}
use bxroot.Prelude.{
  ℕ, ◌<◌, ◌≡◌, refl, sym, ap, ◌∙◌, true, false, none, some, List, [], ◌∷◌, ◌++◌, Str, codes,
  byte_at, starts_with-append, length, drop-append, ◌==◌, ◌!=◌, if◌then◌else◌, Bool-cases, inl, inr,
  arith, ok,
}
use bxroot.Preload.Config.{max_path_len, Bind, Config, World, beneath, ends_name, is_empty, copied}
use bxroot.Preload.Reverse.{behind, strip_rootfs, source_from, detranslate_binds, getcwd_fixup}
use bxroot.Preload.Dots.{path_has_dotdot, dotdot_from}
use bxroot.Preload.Dots.Clean.{IsGuest, dotdot_from-append}
use bxroot.Preload.Translate.{
  root_of, same, absolute_path, translate_round, translate_on, translate_path,
}
use bxroot.Preload.Translate.Landing.{is_absolute, append_first}

slash-clean : (s : Str) → dotdot_from b'/' (b'/' ∷ s) ≡ dotdot_from b'/' s
unfolding dotdot_from
slash-clean [] = refl
slash-clean (c ∷ s) = refl

-- A path of the guest, behind its slash.
rest_of : (g : Str) → byte_at g 0 ≡ b'/' → (s : Str) × (g ≡ b'/' ∷ s)
rest_of [] h = absurd (omega (arith, h))
rest_of (c ∷ s) h = (s, ap (λ d. d ∷ s) h)

below-clean : (root g : Str) → IsGuest root → IsGuest g → path_has_dotdot (root ++ g) ≡ false
unfolding path_has_dotdot
below-clean root g r h =
    let (s, e) = rest_of g h.absolute in
    let rest_clean : dotdot_from b'/' s ≡ false =
      sym (slash-clean s) ∙ subst (λ t. dotdot_from b'/' t ≡ false) e h.clean in
    rw (e, dotdot_from-append b'/' root s, r.clean, rest_clean) refl

ends_name-guest : (g : Str) → byte_at g 0 ≡ b'/' → ends_name g ≡ true
ends_name-guest [] h = refl
ends_name-guest (c ∷ g) h = ground (arith, h)

below-beneath : (root g : Str) → IsGuest g → beneath (root ++ g) root ≡ true
unfolding beneath
below-beneath root g h =
    rw (starts_with-append root g, drop-append root g) (ends_name-guest g h.absolute)

not_empty : (g : Str) → byte_at g 0 ≡ b'/' → (if is_empty g then codes "/" else g) ≡ g
not_empty [] h = absurd (omega (arith, h))
not_empty (c ∷ g) h = refl

behind-below : (root g : Str) → IsGuest g → behind (root ++ g) root ≡ g
behind-below root g h = rw (drop-append root g) (not_empty g h.absolute)

not_root : (root : Str) → byte_at root 0 ≡ b'/' → (length root == 0) ≡ false
not_root [] h = absurd (omega (arith, h))
not_root (c ∷ root) h = ground arith

not_root_ne : (root : Str) → byte_at root 0 ≡ b'/' → (length root != 0) ≡ true
not_root_ne [] h = absurd (omega (arith, h))
not_root_ne (c ∷ root) h = ground arith

module _ (cfg : Config) (w : World) (g : Str) (root : IsGuest (root_of cfg))
    (guest : IsGuest g) where
  strip_below : strip_rootfs cfg w (root_of cfg ++ g) ≡ some g
  unfolding strip_rootfs
  strip_below =
      rw
        (
          not_root (root_of cfg) root.absolute,
          below-beneath (root_of cfg) g guest,
          behind-below (root_of cfg) g guest,
        )
        refl

  translate_below :
      (size : ℕ)
      → (size == 0) ≡ false
      → translate_path cfg w (root_of cfg ++ g) size ≡ same (copied size (root_of cfg ++ g))
  unfolding translate_path translate_on translate_round absolute_path
  translate_below size room =
      rw
        (
          room,
          is_absolute (root_of cfg ++ g) (append_first (root_of cfg) g root.absolute),
          below-clean (root_of cfg) g root guest,
          not_root_ne (root_of cfg) root.absolute,
          below-beneath (root_of cfg) g guest,
        )
        refl

detranslate-free :
    (binds : List Bind) (g : Str)
    → source_from g binds none ≡ none
    → detranslate_binds binds g max_path_len ≡ none
unfolding detranslate_binds
detranslate-free binds g free = elim (Bool-cases (byte_at g 0 != b'/')) [
  | inl e ↦ rw e refl
  | inr e ↦ rw (e, free) refl
]

-- What translate_path puts below the root comes back: getcwd_fixup of the root with a path of the guest
-- behind it gives that path, unless it lies in the source of a bind; and translate_path leaves it as it
-- is, so that the root is not put in front twice. Both are absolute paths without "..".
pub getcwd_fixup-below_root :
    (cfg : Config) (w : World) (g : Str) (size : ℕ)
    → IsGuest (root_of cfg)
    → IsGuest g
    → source_from g cfg.binds none ≡ none
    → 0 < size
    → (getcwd_fixup cfg w (root_of cfg ++ g) size ≡ ok g)
      × (translate_path cfg w (root_of cfg ++ g) size ≡ same (copied size (root_of cfg ++ g)))
unfolding getcwd_fixup
getcwd_fixup-below_root cfg w g size root guest free room = (
  rw (strip_below cfg w g root guest, detranslate-free cfg.binds g free) refl,
  translate_below cfg w g root guest size (ground (arith, room)),
)
