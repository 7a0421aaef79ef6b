-- ===== src/Launcher/Binds.antt =====
-- launcher.c: an argument of -b, host_abspath, add_bind_ro, and the writing of BXROOT_BINDS.
pub mod Texts
pub mod Reading
pub mod Options
pub mod Laws
use mathlib.Core.Option
use bxroot.Prelude.{
  ℕ, zero, suc, ◌+◌, ◌-◌, Bool, true, false, not, ◌&&◌, ◌||◌, Option, none, some, List, [], ◌∷◌,
  ◌++◌, Str, codes, byte_at, str_eq, has_byte, length, take, ltb, leb, ◌==◌, ◌!=◌, if◌then◌else◌,
  Result, ok, fail, ◌>>=◌, ◌>>◌, reject_if,
}
use bxroot.Preload.Config.{is_empty, Bind}
use bxroot.Preload.Binds.{max_binds, max_bind_text, cut, is_ro, is_rw, strip_trailing_slash}

pub data OptionError : Type 0 where
  extra_colon unknown_modifier empty_path has_semicolon too_many too_long no_memory : OptionError

abbrev parse_modifier : Str → Result OptionError Bool
parse_modifier m =
    if is_empty m
    then fail extra_colon
    else if is_ro m
    then ok true
    else if is_rw m
    then ok false
    else fail unknown_modifier

-- The guest's path and whether it may only be read.
abbrev guest_of : Str → Option (Str × Str) → Result OptionError (Str × Bool)
guest_of rest none = ok (rest, false)
guest_of rest (some (guest, modifier)) = do readonly ← parse_modifier modifier; ok (guest, readonly)

-- A path without a colon stands for both sides.
abbrev spec_of : Str → Option (Str × Str) → Result OptionError (Str × Str × Bool)
spec_of spec none = ok (spec, spec, false)
spec_of spec (some (host, rest)) =
    guest_of rest (cut b':' rest) >>= λ (guest, readonly). ok (host, guest, readonly)

unfoldable pub split_spec : Str → Result OptionError (Str × Str × Bool)
split_spec spec = spec_of spec (cut b':' spec)

-- The size of `joined` in host_abspath
abbrev pub joined_max : ℕ
joined_max = 4096

abbrev dir_part : Str → Str
dir_part dir = if str_eq dir (codes "/") then [] else dir

abbrev joined : Str → Str → Option Str
joined cwd p =
    let path = dir_part (strip_trailing_slash cwd) ++ (b'/' ∷ p) in
    if ltb (length path) joined_max then some path else none

-- `none` for a working directory that is not to be had.
abbrev from_dir : Option Str → Str → Option Str
from_dir none p = none
from_dir (some dir) p = joined dir p

unfoldable pub host_abspath : Option Str → Str → Option Str
unfolding strip_trailing_slash str_eq
host_abspath cwd p = if byte_at p 0 == b'/' then some p else from_dir cwd p

abbrev pub or_raw : Str → Option Str → Str
or_raw p none = p
or_raw p (some abs) = abs

unfoldable pub add_bind_ro :
    Option Str → List Bind → Str × Str × Bool → Result OptionError (List Bind)
add_bind_ro cwd binds (host, guest, readonly) = do
  reject_if (leb max_binds (length binds)) too_many
  ok (
      binds
      ++ (record {
        source = or_raw host (host_abspath cwd host);
        target = guest;
        readonly = readonly;
      }
          ∷ []))

abbrev check_spec : Str × Str × Bool → Result OptionError (Unit {0})
check_spec (host, guest, readonly) = do
  reject_if (is_empty host || is_empty guest) empty_path
  reject_if (has_byte b';' host || has_byte b';' guest) has_semicolon

unfoldable pub add_spec : Option Str → List Bind → Str → Result OptionError (List Bind)
add_spec cwd binds spec = do parts ← split_spec spec; check_spec parts; add_bind_ro cwd binds parts

-- The options in their order.
unfoldable pub add_specs : Option Str → List Bind → List Str → Result OptionError (List Bind)
add_specs cwd binds [] = ok binds
add_specs cwd binds (spec ∷ specs) = do more ← add_spec cwd binds spec; add_specs cwd more specs

abbrev pub entry_text : Bind → Str
entry_text b = b.source ++ (b':' ∷ (b.target ++ (if b.readonly then codes ":ro" else [])))

-- The entries, each but the first behind a semicolon.
unfoldable pub more_text : List Bind → Str
more_text [] = []
more_text (b ∷ bs) = b';' ∷ (entry_text b ++ more_text bs)

unfoldable pub bind_text : List Bind → Str
unfolding more_text
bind_text [] = []
bind_text (b ∷ bs) = entry_text b ++ more_text bs

-- The count of bytes with the terminator, checked behind each entry; each but the first has one byte more
-- for its separator.
unfoldable pub check_need : ℕ → ℕ → List Bind → Result OptionError ℕ
check_need separator need [] = ok need
check_need separator need (b ∷ bs) = do
  let so_far = need + length (entry_text b) + separator
  reject_if (ltb max_bind_text so_far) too_long
  check_need 1 so_far bs

-- What BXROOT_BINDS is set to: `none` where it is unset, which it is without any bind.
unfoldable pub bind_env : Bool → List Bind → Result OptionError (Option Str)
bind_env given [] = ok none
bind_env given (b ∷ bs) = do
  need ← check_need 0 1 (b ∷ bs)
  reject_if (not given) no_memory
  ok (some (bind_text (b ∷ bs)))
