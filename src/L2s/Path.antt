-- ===== src/L2s/Path.antt =====
-- l2s.c, "Splitting and joining". An `Option ℕ` is the size of an output buffer, `none` for NULL.
-- What an output buffer holds after an error is not modelled: no caller reads it then.
pub mod Laws
use bxroot.Prelude.{
  ℕ, zero, suc, ◌+◌, Bool, true, false, ◌&&◌, ◌||◌, Option, none, some, [], ◌∷◌, ◌++◌, Str, codes,
  byte_at, str_eq, length, take, drop, ltb, ◌==◌, if◌then◌else◌, Result, ok, fail, ◌>>=◌, ◌>>◌,
  reject_if,
}
use bxroot.L2s.Types.{Rc, err, enametoolong, ebadname, Res}

-- The index that `strrchr(s, '/')` finds.
pub last_slash : Str → Option ℕ
last_slash [] = none
last_slash (c ∷ cs) = elim (last_slash cs) [
  | none ↦ if c == b'/' then some 0 else none
  | some i ↦ some (suc i)
]

-- `slash == NULL ? path : slash + 1`
pub name_part : Str → Option ℕ → Str
name_part path none = path
name_part path (some i) = drop (suc i) path

-- `dlen`: the root keeps its slash, any other directory loses it.
pub dir_len : Option ℕ → ℕ
dir_len none = 0
dir_len (some zero) = 1
dir_len (some (suc i)) = suc i

pub overflows : ℕ → Option ℕ → Bool
overflows len none = false
overflows len (some size) = ltb size (len + 1)

unfoldable pub is_dots : Str → Bool
is_dots name = str_eq name (codes ".") || str_eq name (codes "..")

-- The directory and the base name; a caller that passes NULL for `dir` drops the first.
unfoldable pub split : Option Str → Option ℕ → Option ℕ → Res (Str × Str)
unfolding name_part dir_len overflows is_dots last_slash str_eq
split none dirsz basesz = fail err
split (some path) dirsz none = fail err
split (some path) dirsz (some basesz) = do
  reject_if (basesz == 0) err
  let name = name_part path (last_slash path)
  let dlen = dir_len (last_slash path)
  reject_if (length name == 0) ebadname
  reject_if (ltb basesz (length name + 1)) enametoolong
  reject_if (overflows dlen dirsz) enametoolong
  reject_if (is_dots name) ebadname
  ok (take dlen path, name)

abbrev pub text_or_empty : Option Str → Str
text_or_empty none = []
text_or_empty (some s) = s

-- The separator that `l2s_join` writes: none behind an empty directory or the root.
unfoldable pub separator : Str → Str
separator dir =
    if length dir == 1 && byte_at dir 0 == b'/'
    then []
    else if ltb 0 (length dir)
    then b'/' ∷ []
    else []

unfoldable pub join : Option Str → Option Str → Option ℕ → Res Str
unfolding separator
join dir none outsz = fail err
join dir (some base) none = fail err
join dir (some base) (some outsz) = do
  reject_if (outsz == 0) err
  let d = text_or_empty dir
  reject_if (ltb outsz (length d + length (separator d) + length base + 1)) enametoolong
  ok (d ++ (separator d ++ base))
