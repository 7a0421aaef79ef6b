-- ===== src/Preload/Config.antt =====
-- config.h and the state of preload.c that path translation reads. The arrays of the bind table are one
-- list of records; what a slot behind `bind_count` holds is never read.
use bxroot.Prelude.{
  ℕ, Bool, true, false, ◌&&◌, ◌||◌, Option, none, some, List, Str, byte_at, starts_with, length,
  drop, [], ◌∷◌, take, ltb, ◌==◌, ◌-◌, if◌then◌else◌,
}

-- `MAX_PATH_LEN`, with the PATH_MAX of Linux
abbrev pub max_path_len : ℕ
max_path_len = 8192

pub record Bind : Type 0 where
  pub source : Str
  pub target : Str
  pub readonly : Bool

pub record Config : Type 0 where
  pub rootfs : Option Str
  pub tmp_dir : Option Str
  pub guest_exe : Option Str
  pub binds : List Bind

-- What the kernel and the C library answer: the target of a link on the host, the working directory on
-- the host, `realpath` of the root, the entries in the first 65535 bytes of an environment file under
-- /proc, and the variable BXROOT_NO_TERMUX_COMPAT.
pub record World : Type 0 where
  pub readlink : Str → Option Str
  pub getcwd : Option Str
  pub real_root : Option Str
  pub environ : Str → Option (List Str)
  pub no_termux : Option Str

-- `p ? p : d`
abbrev pub text_or : Option Str → Str → Str
text_or none d = d
text_or (some s) d = s

abbrev pub is_empty : Str → Bool
is_empty [] = true
is_empty (x ∷ xs) = false

-- `s[0] == '\0' || s[0] == '/'`
abbrev pub ends_name : Str → Bool
ends_name s = is_empty s || byte_at s 0 == b'/'

-- `strncmp(path, top, strlen(top)) == 0`, and the prefix ends a component.
unfoldable pub beneath : Str → Str → Bool
beneath path top = starts_with path top && ends_name (drop (length top) path)

-- `strncpy(out, s, size - 1)` with its terminator
abbrev pub copied : ℕ → Str → Str
copied size s = take (size - 1) s

-- `snprintf(out, size, …)` where the result has to fit
abbrev pub printed : ℕ → Str → Option Str
printed size s = if ltb (length s) size then some s else none
