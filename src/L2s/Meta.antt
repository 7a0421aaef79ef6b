-- ===== src/L2s/Meta.antt =====
-- l2s.c, "proroot metadata names".
pub mod Laws
pub mod Entry
use bxroot.Prelude.{
  ℕ, zero, suc, ◌+◌, ◌*◌, ◌/◌, ◌%◌, ◌^◌, Bool, true, false, ◌&&◌, ◌||◌, not, Option, none, some, [],
  ◌∷◌, ◌++◌, Str, codes, byte_at, length, ltb, ◌==◌, if◌then◌else◌, Result, ok, fail, ◌>>=◌, ◌>>◌,
  reject_if,
}
use bxroot.L2s.Types.{Rc, err, enametoolong, ebadname, Res}
use bxroot.L2s.Path.{join, text_or_empty}
use bxroot.L2s.Format.{is_key16, key_len}

-- The loop over the bytes of the string, in 32 bits; `h << 5` wraps before it is added.
djb2_from : ℕ → Str → ℕ
djb2_from h [] = h
djb2_from h (c ∷ cs) = djb2_from ((h + h * 32 % 2 ^ 32 + c) % 2 ^ 32) cs

unfoldable pub djb2 : Option Str → ℕ
unfolding djb2_from
djb2 none = 5381
djb2 (some s) = djb2_from 5381 s

abbrev hex_digits : Str
hex_digits = codes "0123456789abcdef"

-- The nibbles of `h`, the lowest last, in front of `acc`: `h & 0xf` and `h >>= 4`.
key_onto : ℕ → ℕ → Str → Str
key_onto zero h acc = acc
key_onto (suc n) h acc = key_onto n (h / 16) (byte_at hex_digits (h % 16) ∷ acc)

unfoldable pub key16 : Option Str → Str
unfolding key_onto djb2
key16 basename = key_onto key_len (djb2 (some (text_or_empty basename))) []

abbrev pub meta_dir_default : Str
meta_dir_default = codes "/.proroot-meta"

abbrev pub meta_dir_or_default : Option Str → Str
meta_dir_or_default none = meta_dir_default
meta_dir_or_default (some d) = d

abbrev bad_prefix : Str → Bool
bad_prefix p =
    ltb 2 (length p)
    || length p == 2 && not ((byte_at p 0 == b'g' || byte_at p 0 == b'm') && byte_at p 1 == b'_')
    || length p == 1

-- The checks before anything is written.
unfoldable pub check_entry : Str → Str → Str → ℕ → Res (Unit {0})
check_entry d p key outsz = do
  reject_if (outsz == 0) err
  reject_if (not (is_key16 (some key))) ebadname
  reject_if (bad_prefix p) ebadname
  reject_if (length d == 0) ebadname

-- `strcat(out, key16)`, if it fits.
abbrev append_key : Str → ℕ → Str → Res Str
append_key key outsz out =
    if ltb outsz (length out + key_len + 1) then fail enametoolong else ok (out ++ key)

unfoldable pub meta_entry : Option Str → Option Str → Option Str → Option ℕ → Res Str
meta_entry meta_dir prefix2 none outsz = fail err
meta_entry meta_dir prefix2 (some key) none = fail err
meta_entry meta_dir prefix2 (some key) (some outsz) =
    let p = text_or_empty prefix2 in
    let d = meta_dir_or_default meta_dir in
    check_entry d p key outsz >> (join (some d) (some p) (some outsz) >>= append_key key outsz)

abbrev cnt_suffix : Str
cnt_suffix = codes ".cnt"

unfoldable pub refcount_path : Option Str → Option ℕ → Res Str
refcount_path none outsz = fail err
refcount_path (some path) none = fail err
refcount_path (some path) (some outsz) = do
  reject_if (outsz == 0) err
  reject_if (ltb outsz (length path + length cnt_suffix + 1)) enametoolong
  ok (path ++ cnt_suffix)
