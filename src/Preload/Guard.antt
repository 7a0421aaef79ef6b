-- ===== src/Preload/Guard.antt =====
-- preload.c: what may be written (bind_is_readonly_target, ro_guard_path, open_flags_write_intent).
pub mod Laws
use Prim.Native.Nat.{bit_and}
use bxroot.Prelude.{
  ℕ, Bool, true, false, ◌||◌, Option, none, some, List, Str, byte_at, ◌==◌, ◌!=◌, if◌then◌else◌,
  Result, ok, fail,
}
use bxroot.Preload.Config.{max_path_len, Bind, Config, World}
use bxroot.Preload.Binds.{bind_match}
use bxroot.Preload.Reverse.{Absolute, absolutize}

-- A bind that is not found may be written.
abbrev pub is_readonly : Option Bind → Bool
is_readonly none = false
is_readonly (some b) = b.readonly

abbrev pub readonly_at : Config → Absolute → Bool
readonly_at cfg (Absolute.absolute path) = is_readonly (bind_match cfg.binds (some path))
readonly_at cfg other = false

unfoldable pub bind_is_readonly_target : Config → World → Option Str → Bool
bind_is_readonly_target cfg w none = false
bind_is_readonly_target cfg w (some path) =
    if byte_at path 0 != b'/'
    then readonly_at cfg (absolutize cfg w (some path) max_path_len)
    else is_readonly (bind_match cfg.binds (some path))

-- `EROFS`
abbrev pub erofs : ℕ
erofs = 30

unfoldable pub ro_guard_path : Config → World → Option Str → Result ℕ (Unit {0})
unfolding bind_is_readonly_target
ro_guard_path cfg w path = if bind_is_readonly_target cfg w path then fail erofs else ok tt

-- O_ACCMODE, O_WRONLY, O_RDWR, and O_CREAT | O_TRUNC, as Linux has them on all but a few machines
abbrev pub accmode : ℕ
accmode = 3

abbrev pub creat_or_trunc : ℕ
creat_or_trunc = 0x240

unfoldable pub open_flags_write_intent : ℕ → Bool
open_flags_write_intent flags =
    bit_and flags accmode == 1 || bit_and flags accmode == 2 || bit_and flags creat_or_trunc != 0
