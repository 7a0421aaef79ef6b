-- ===== src/L2s/Types.antt =====
-- src/l2s/l2s.h: error codes, schemes, configuration and results, and the accessors of the
-- configuration in l2s.c. An array of bytes that holds a C string is the string.
use bxroot.Prelude.{
  ℕ, zero, suc, Bool, false, ◌&&◌, Option, none, some, [], Str, codes, byte_at, length, ltb, ◌==◌,
  ◌!=◌, if◌then◌else◌, Result,
}

-- The negative return codes; `L2S_OK` is the `ok` of `Result`.
pub data Rc : Type 0 where
  err enametoolong enotl2s erange ebadname : Rc

abbrev pub Res {ℓ} : Type ℓ → Type ℓ
Res A = Result Rc A

pub data Scheme : Type 0 where
  proot proroot : Scheme

pub data Kind : Type 0 where
  kind_none intermediate final group member legacy_key refcount : Kind

-- `none` in a field stands for a NULL pointer.
pub record Config : Type 0 where
  pub l2s_dir : Option Str
  pub prefix : Option Str
  pub scheme : Scheme
  pub lenient_classify : Bool

pub record Info : Type 0 where
  pub kind : Kind
  pub scheme : Scheme
  pub orig_name : Str
  pub orig_dir : Str
  pub dir_known : Bool
  pub mid_dir : Str
  pub generation : ℕ
  pub nlink : ℕ

pub record Paths : Type 0 where
  pub orig : Str
  pub mid : Str
  pub final_path : Str
  pub dir : Str
  pub name : Str
  pub generation : ℕ
  pub nlink : ℕ
  pub cfg : Config
  pub l2s_dir_storage : Str

abbrev pub path_max : ℕ
path_max = 4096

abbrev pub name_max : ℕ
name_max = 256

abbrev pub digits : ℕ
digits = 4

abbrev pub gen_first : ℕ
gen_first = 1

abbrev pub gen_last : ℕ
gen_last = 999

abbrev pub gen_giveup : ℕ
gen_giveup = 1000

abbrev pub nlink_max : ℕ
nlink_max = 9999

abbrev pub prefix_default : Str
prefix_default = codes ".l2s."

abbrev pub prefix_userland : Str
prefix_userland = codes ".proot.l2s."

-- `L2S_CONFIG_DEFAULT`
abbrev pub config_default : Config
config_default = record {
  l2s_dir = none;
  prefix = some prefix_default;
  scheme = proot;
  lenient_classify = false;
}

unfoldable pub strerror : Res (Unit {0}) → Str
strerror (Result.ok _) = codes "ok"
strerror (Result.fail err) = codes "invalid argument"
strerror (Result.fail enametoolong) = codes "l2s path too long"
strerror (Result.fail enotl2s) = codes "not an l2s path"
strerror (Result.fail erange) = codes "l2s count out of range"
strerror (Result.fail ebadname) = codes "invalid path component"

unfoldable pub kind_name : Kind → Str
kind_name kind_none = codes "none"
kind_name intermediate = codes "intermediate"
kind_name final = codes "final"
kind_name group = codes "proroot-group"
kind_name member = codes "proroot-member"
kind_name legacy_key = codes "proroot-legacy-key"
kind_name refcount = codes "refcount"

abbrev prefix_or_default : Option Str → Str
prefix_or_default none = prefix_default
prefix_or_default (some p) = p

abbrev pub cfg_prefix : Option Config → Str
cfg_prefix none = prefix_default
cfg_prefix (some cfg) = prefix_or_default cfg.prefix

abbrev pub cfg_scheme : Option Config → Scheme
cfg_scheme none = proot
cfg_scheme (some cfg) = cfg.scheme

abbrev pub cfg_lenient : Option Config → Bool
cfg_lenient none = false
cfg_lenient (some cfg) = cfg.lenient_classify

-- `while (n > 1 && d[n - 1] == '/') n--;`
pub strip_slashes : Str → ℕ → ℕ
strip_slashes d zero = 0
strip_slashes d (suc n) = if ltb 1 (suc n) && byte_at d n == b'/' then strip_slashes d n else suc n

unfoldable pub effective_dir : Option Str → Option Str
unfolding strip_slashes
effective_dir none = none
effective_dir (some d) =
    if byte_at d 0 != b'/'
    then none
    else let n = strip_slashes d (length d) in
      if n != length d then none else if ltb n 2 then none else some d

-- The configured directory, if it is absolute and has no trailing slash.
abbrev pub cfg_l2s_dir : Option Config → Option Str
cfg_l2s_dir none = none
cfg_l2s_dir (some cfg) = effective_dir cfg.l2s_dir

-- The pair is `dst->l2s_dir` and the text left in `storage`.
pub cfg_embed : ℕ → Option Config → Option Str × Str
cfg_embed storage_sz src = elim (cfg_l2s_dir src) [
  | none ↦ (none, [])
  | some d ↦ if ltb (length d) storage_sz then (some d, d) else (none, [])
]
