-- ===== src/L2s/Count.antt =====
-- l2s.c, "Link counts": the count in a final name, and the link counts that the guest is shown.
pub mod Laws
pub mod Undo
pub mod Patch
use Prim.Native.Nat.{bit_and}
use bxroot.Prelude.{
  ℕ, ◌+◌, ◌-◌, ◌%◌, ◌^◌, Bool, true, false, ◌&&◌, ◌||◌, not, Option, none, some, [], ◌∷◌, ◌++◌, Str,
  has_byte, length, take, ltb, ◌==◌, if◌then◌else◌, Result, ok, fail, ◌>>=◌, ◌>>◌, reject_if,
}
use bxroot.System.{Stat}
use bxroot.L2s.Types.{
  Rc, err, enametoolong, enotl2s, erange, Res, Kind, final, kind_none, intermediate, group, member,
  legacy_key, refcount, Info, name_max, digits, nlink_max,
}
use bxroot.L2s.Path.{split}
use bxroot.L2s.Format.{format_fixed}
use bxroot.L2s.Name.{parse_l2s_name}

abbrev is_final : Kind → Bool
is_final final = true
is_final _ = false

-- The link count of a final name; everything else is no l2s name here.
abbrev final_count : Res Info → Res ℕ
final_count (ok info) = if is_final info.kind then ok info.nlink else fail enotl2s
final_count (fail e) = fail enotl2s

abbrev or_too_long : Res Str → Res Str
or_too_long (ok s) = ok s
or_too_long (fail e) = fail enametoolong

-- The name with another count in its last four characters, in a buffer of `outsz` bytes.
unfoldable pub with_count : Str → ℕ → ℕ → Res Str
with_count name count outsz = do
  let stemlen = length name - digits
  reject_if (ltb outsz (stemlen + 1)) enametoolong
  text ← or_too_long (format_fixed count digits (outsz - stemlen))
  ok (take stemlen name ++ text)

abbrev pub next_count : Str → Res ℕ
next_count name = do
  reject_if (has_byte b'/' name) err
  nlink ← final_count (parse_l2s_name none true (some name))
  let count = (nlink + 1) % 2 ^ 32
  reject_if (ltb nlink_max count) erange
  ok count

-- `memcpy(base, name, strlen(name) + 1)`, which a long name that was accepted does not fit.
abbrev pub recount : Str → ℕ → Res ℕ → Option (Res Str)
recount name outsz (fail e) = some (fail e)
recount name outsz (ok count) =
    if ltb name_max (length name + 1) then none else some (with_count name count outsz)

-- `none` is a write behind the array `base`.
unfoldable pub next_final : Option Str → Option ℕ → Option (Res Str)
next_final none outsz = some (fail err)
next_final (some name) none = some (fail err)
next_final (some name) (some outsz) = recount name outsz (next_count name)

-- The name, if one is left, and what `*out_count` was set to, if it was.
abbrev pub Prev : Type 0
Prev = Res (Option Str) × Option ℕ

abbrev into_some : Res Str → Res (Option Str)
into_some (ok s) = ok (some s)
into_some (fail e) = fail e

abbrev prev_name : Str → ℕ → Option ℕ → Res (Option Str)
prev_name name count none = fail err
prev_name name count (some outsz) = into_some (with_count name count outsz)

abbrev prev_of : Str → Option ℕ → Res ℕ → Prev
prev_of name outsz (fail e) = (fail e, none)
prev_of name outsz (ok nlink) =
    if nlink == 0
    then (fail erange, none)
    else if nlink - 1 == 0
    then (ok none, some (nlink - 1))
    else (prev_name name (nlink - 1) outsz, some (nlink - 1))

-- A caller that passes NULL for `out_count` drops the second part.
unfoldable pub prev_final : Option Str → Option ℕ → Prev
prev_final none outsz = (fail err, none)
prev_final (some name) outsz =
    prev_of name outsz (final_count (parse_l2s_name none true (some name)))

abbrev base_count : Res (Str × Str) → Res ℕ
base_count (ok (dir, base)) = final_count (parse_l2s_name none true (some base))
base_count (fail e) = fail err

unfoldable pub nlink_from_path : Option Str → Res ℕ
nlink_from_path none = fail err
nlink_from_path (some path) = base_count (split (some path) none (some name_max))

unfoldable pub patch_nlink_value : Option Stat → ℕ → Res Stat
patch_nlink_value none nlink = fail err
patch_nlink_value (some st) nlink = do
  reject_if (ltb nlink 1 || ltb nlink_max nlink) erange
  ok (record st { st_nlink = nlink })

abbrev is_not_l2s : Rc → Bool
is_not_l2s enotl2s = true
is_not_l2s _ = false

abbrev patched : Stat → Res Stat → Res (Bool × Stat)
patched st (ok st') = ok (true, st')
patched st (fail e) = fail e

abbrev patch_of : Stat → Res ℕ → Res (Bool × Stat)
patch_of st (ok nlink) = patched st (patch_nlink_value (some st) nlink)
patch_of st (fail e) = if is_not_l2s e then ok (false, st) else fail e

-- The flag is the answer 1 or 0.
unfoldable pub patch_nlink : Option Stat → Option Str → Res (Bool × Stat)
patch_nlink none path = fail err
patch_nlink (some st) none = fail err
patch_nlink (some st) (some path) = patch_of st (nlink_from_path (some path))

abbrev statx_of : ℕ → Res ℕ → Res (Bool × ℕ)
statx_of stx_nlink (ok nlink) = ok (true, nlink)
statx_of stx_nlink (fail e) = if is_not_l2s e then ok (false, stx_nlink) else fail e

-- The number is what `*stx_nlink` is left at.
unfoldable pub patch_statx_nlink : ℕ → ℕ → ℕ → Option Str → Res (Bool × ℕ)
patch_statx_nlink stx_nlink stx_mask nlink_bit none = fail err
patch_statx_nlink stx_nlink stx_mask nlink_bit (some path) =
    if bit_and stx_mask nlink_bit == 0
    then ok (false, stx_nlink)
    else statx_of stx_nlink (nlink_from_path (some path))

unfoldable pub chain_nlink : ℕ → ℕ
chain_nlink links = if links == 0 then 0 else if ltb nlink_max links then nlink_max else links
