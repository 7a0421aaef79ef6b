-- ===== src/Preload/Termux/Laws.antt =====
-- termux_compat.h: what the paths of Termux are mapped to.
use bxroot.Prelude.{
  ℕ, ◌≡◌, refl, Bool, true, false, ◌&&◌, List, [], ◌∷◌, ◌++◌, Str, byte_at, starts_with, length,
  drop, ltb, ◌==◌, if◌then◌else◌, Bool-cases, and_first, inl, inr,
}
use bxroot.Preload.Config.{beneath, printed}
use bxroot.Preload.Termux.{
  Mapped, mapped, no_prefix, overlong, fitted, map_prefix, or_next, map_base, prefixes, bases,
  termux_compat_map,
}

-- What is mapped is a target of the table with what stood behind the name that it replaces.
module _ (P : Str → Type 0) where
  abbrev pub Maps : Mapped → Type 0
  Maps no_prefix = Unit
  Maps overlong = Unit
  Maps (mapped s) = P s

  abbrev pub Serves : Str → List (Str × Str) → Type 0
  Serves rest [] = Unit
  Serves rest ((from, to) ∷ more) =
      (beneath rest from ≡ true → P (to ++ drop (length from) rest)) × Serves rest more

  Maps-if :
      (b : Bool) (x y : Mapped)
      → (b ≡ true → Maps x)
      → (b ≡ false → Maps y)
      → Maps (if b then x else y)
  Maps-if true x y p q = p refl
  Maps-if false x y p q = q refl

  fitted-Maps : (s : Str) (size : ℕ) → P s → Maps (fitted (printed size s))
  unfolding fitted
  fitted-Maps s size p = elim (Bool-cases (ltb (length s) size)) [
    | inl e ↦ rw e p
    | inr e ↦ rw e tt
  ]

  map_prefix-Maps :
      (rest : Str) (size : ℕ) (table : List (Str × Str))
      → Serves rest table
      → Maps (map_prefix rest size table)
  unfolding map_prefix
  map_prefix-Maps rest size [] s = tt
  map_prefix-Maps rest size ((from, to) ∷ more) s =
      Maps-if (beneath rest from) _ _ (λ e. fitted-Maps _ size (s.0 e))
        (λ e. map_prefix-Maps rest size more s.1)

  or_next-Maps : (x y : Mapped) → Maps x → Maps y → Maps (or_next x y)
  unfolding or_next
  or_next-Maps no_prefix y p q = q
  or_next-Maps overlong y p q = tt
  or_next-Maps (mapped s) y p q = p

  map_base-Maps :
      (path : Str) (size : ℕ) (bs : List Str)
      → ((base : Str) → starts_with path base ≡ true → Serves (drop (length base) path) prefixes)
      → Maps (map_base path size bs)
  unfolding map_base
  map_base-Maps path size [] s = tt
  map_base-Maps path size (base ∷ more) s =
      let later = map_base-Maps path size more s in
      let here = map_prefix (drop (length base) path) size prefixes in
      let hit = starts_with path base in
      let slash = byte_at path (length base) == b'/' in
      Maps-if (hit && slash) (or_next here (map_base path size more)) (map_base path size more)
        (λ e.
          or_next-Maps here (map_base path size more)
            (map_prefix-Maps (drop (length base) path) size prefixes
              (s base (and_first hit slash e)))
            later)
        (λ e. later)

  -- The rule for the whole function.
  pub termux_compat_map-Maps :
      (path : Str) (size : ℕ)
      → ((base : Str) → starts_with path base ≡ true → Serves (drop (length base) path) prefixes)
      → Maps (termux_compat_map path size)
  unfolding termux_compat_map
  termux_compat_map-Maps path size s =
      Maps-if (size == 0) _ _ (λ e. tt) (λ e. map_base-Maps path size bases s)

pub termux_compat_map-absolute :
    (path : Str) (size : ℕ) → Maps (λ s. byte_at s 0 ≡ b'/') (termux_compat_map path size)
termux_compat_map-absolute path size =
    termux_compat_map-Maps (λ s. byte_at s 0 ≡ b'/') path size
      (λ base e. (λ h. refl, (λ h. refl, (λ h. refl, (λ h. refl, (λ h. refl, tt))))))
