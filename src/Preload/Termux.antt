-- ===== src/Preload/Termux.antt =====
-- termux_compat.h: paths of Termux as paths of the guest.
pub mod Laws
use bxroot.Prelude.{
  ℕ, ◌+◌, ◌-◌, Bool, true, false, not, ◌&&◌, ◌||◌, Option, none, some, List, [], ◌∷◌, ◌++◌, Str,
  codes, byte_at, str_eq, starts_with, length, take, drop, ltb, leb, ◌==◌, ◌!=◌, if◌then◌else◌,
}
use bxroot.Preload.Config.{beneath, printed}

-- `strstr(s, part) != NULL`
has_part : Str → Str → Bool
has_part [] part = starts_with [] part
has_part (c ∷ s) part = starts_with (c ∷ s) part || has_part s part

ends_with : Str → Str → Bool
ends_with s tail = leb (length tail) (length s) && str_eq (drop (length s - length tail) s) tail

in_termux : Str → Bool
unfolding has_part ends_with
in_termux root = has_part root (codes "/com.termux/") || ends_with root (codes "/com.termux")

unfoldable pub termux_compat_enabled : Option Str → Option Str → Bool
unfolding in_termux starts_with str_eq
termux_compat_enabled rootfs opt_out =
    if (elim opt_out [ none ↦ false | some o ↦ byte_at o 0 == b'1' ])
    then false
    else elim rootfs [ none ↦ true | some root ↦ not (in_termux root) ]

abbrev pub bases : List Str
bases = codes "/data/data/com.termux/files" ∷ (codes "/data/user/0/com.termux/files" ∷ [])

abbrev pub prefixes : List (Str × Str)
prefixes =
    (codes "/usr/tmp", codes "/tmp")
    ∷ ((codes "/usr/etc", codes "/etc")
        ∷ ((codes "/usr/var", codes "/var")
            ∷ ((codes "/usr", codes "/usr") ∷ ((codes "/home", codes "/root") ∷ []))))

-- `0`, `-1` and `1` of bx_termux_compat_map
pub data Mapped : Type 0 where
  no_prefix overlong : Mapped
  mapped : Str → Mapped

fitted : Option Str → Mapped
fitted none = overlong
fitted (some s) = mapped s

map_prefix : Str → ℕ → List (Str × Str) → Mapped
unfolding beneath fitted
map_prefix rest size [] = no_prefix
map_prefix rest size ((from, to) ∷ more) =
    if beneath rest from
    then fitted (printed size (to ++ drop (length from) rest))
    else map_prefix rest size more

or_next : Mapped → Mapped → Mapped
or_next no_prefix next = next
or_next overlong next = overlong
or_next (mapped s) next = mapped s

map_base : Str → ℕ → List Str → Mapped
unfolding map_prefix or_next starts_with
map_base path size [] = no_prefix
map_base path size (base ∷ more) =
    let here = map_prefix (drop (length base) path) size prefixes in
    let later = map_base path size more in
    if starts_with path base && byte_at path (length base) == b'/'
    then or_next here later
    else later

unfoldable pub termux_compat_map : Str → ℕ → Mapped
unfolding map_base
termux_compat_map path size = if size == 0 then no_prefix else map_base path size bases
