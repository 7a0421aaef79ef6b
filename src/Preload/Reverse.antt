-- ===== src/Preload/Reverse.antt =====
-- preload.c: from a path of the host back to the guest's (strip_rootfs_prefix_inplace, detranslate_binds,
-- readlink_fixup, getcwd_fixup), and bxroot_absolutize, which rests on them. An `Option Str` is the
-- rewritten path, `none` where the code says that nothing was rewritten.
pub mod Laws
use bxroot.Prelude.{
  ℕ, zero, suc, ◌+◌, ◌-◌, Bool, true, false, not, ◌&&◌, ◌||◌, Option, none, some, List, [], ◌∷◌,
  ◌++◌, Str, codes, byte_at, str_eq, starts_with, has_byte, length, take, drop, ltb, leb, ◌==◌,
  ◌!=◌, if◌then◌else◌, Result, ok, fail,
}
use bxroot.Preload.Config.{
  is_empty, max_path_len, Bind, Config, World, text_or, beneath, copied, printed,
}

-- The path behind a prefix, "/" where nothing is left.
abbrev pub behind : Str → Str → Str
behind path top = let rest = drop (length top) path in if is_empty rest then codes "/" else rest

-- The second comparison, with the root that `realpath` gives.
strip_real : Str → Option Str → Str → Option Str
unfolding beneath
strip_real root none path = none
strip_real root (some real) path =
    if length real != 0 && length real != length root && beneath path real
    then some (behind path real)
    else none

unfoldable pub strip_rootfs : Config → World → Str → Option Str
unfolding beneath strip_real
strip_rootfs cfg w path =
    let root = text_or cfg.rootfs [] in
    if length root == 0
    then none
    else if beneath path root
    then some (behind path root)
    else strip_real root w.real_root path

abbrev pub is_shorter : Option Bind → ℕ → Bool
is_shorter none len = ltb 0 len
is_shorter (some best) len = ltb (length best.source) len

abbrev pub is_found : Option Bind → Bool
is_found none = false
is_found (some best) = true

-- One round of detranslate_binds: whether the entry is taken over the best so far.
abbrev pub is_taken : Str → Bind → Option Bind → Bool
is_taken path b best =
    byte_at b.source 0 != 0
    && beneath path b.source
    && not (str_eq b.source b.target && is_found best)
    && is_shorter best (length b.source)

unfoldable pub source_from : Str → List Bind → Option Bind → Option Bind
unfolding beneath str_eq
source_from path [] best = best
source_from path (b ∷ bs) best = source_from path bs (if is_taken path b best then some b else best)

abbrev pub to_target : ℕ → Str → Option Bind → Option Str
to_target size path none = none
to_target size path (some b) = printed size (b.target ++ drop (length b.source) path)

unfoldable pub detranslate_binds : List Bind → Str → ℕ → Option Str
unfolding source_from
detranslate_binds binds path size =
    if size == 0
    then none
    else if byte_at path 0 != b'/'
    then none
    else to_target size path (source_from path binds none)

-- The first that is there.
abbrev pub or_else : Option Str → Option Str → Option Str
or_else none d = d
or_else (some s) d = some s

-- `/proc/<who>/root…`: the rest from the slash behind <who>, where <who> is not empty.
slash_from : Str → Str
slash_from [] = []
slash_from (c ∷ s) = if c == b'/' then c ∷ s else slash_from s

under_proc_root : Config → World → Str → ℕ → Option Str
unfolding slash_from strip_rootfs detranslate_binds starts_with str_eq
under_proc_root cfg w raw size =
    let rest = drop 6 raw in
    let slash = slash_from rest in
    let path =
      text_or (strip_rootfs cfg w (copied max_path_len (drop 5 slash)))
        (copied max_path_len (drop 5 slash)) in
    if not (starts_with raw (codes "/proc/")) || byte_at rest 0 == b'/'
    then none
    else if str_eq slash (codes "/root")
    then some (copied size (codes "/"))
    else if starts_with slash (codes "/root/")
    then or_else (detranslate_binds cfg.binds path size) (some (copied size path))
    else none

-- The third rule: the root first, then the binds.
from_host : Config → World → Str → ℕ → Option Str
unfolding strip_rootfs detranslate_binds
from_host cfg w raw size =
    let tmp = copied max_path_len raw in
    let stripped = strip_rootfs cfg w tmp in
    or_else (detranslate_binds cfg.binds (text_or stripped tmp) size)
      (elim stripped [ none ↦ none | some path ↦ some (copied size path) ])

-- The fourth rule: the directories above the root are the guest's "/".
from_above : Config → Str → ℕ → Option Str
unfolding starts_with
from_above cfg raw size =
    let root = text_or cfg.rootfs [] in
    let len = length raw in
    let above = ltb len (length root) && starts_with root raw && byte_at root len == b'/' in
    if ltb 0 (length root) && not (starts_with raw root) && (len == 1 || above)
    then some (copied size (codes "/"))
    else none

unfoldable pub readlink_fixup : Config → World → Str → ℕ → Option Str
unfolding under_proc_root from_host from_above
readlink_fixup cfg w raw size =
    if size == 0 || byte_at raw 0 != b'/'
    then none
    else or_else (under_proc_root cfg w raw size)
        (or_else (from_host cfg w raw size) (from_above cfg raw size))

-- The guest's working directory, for a buffer of the given size: a failure is ERANGE.
rebind : Option Str → Str → ℕ → Result ℕ Str
rebind none path size = ok path
rebind (some reb) path size = if ltb size (length reb + 1) then fail 34 else ok reb

unfoldable pub getcwd_fixup : Config → World → Str → ℕ → Result ℕ Str
unfolding strip_rootfs detranslate_binds rebind
getcwd_fixup cfg w host size =
    let path = text_or (strip_rootfs cfg w host) host in
    rebind (detranslate_binds cfg.binds path max_path_len) path size

-- `-1`, `0` and `1` of bxroot_absolutize
pub data Absolute : Type 0 where
  failed unchanged : Absolute
  absolute : Str → Absolute

absolute_in : Config → World → Option Str → Str → ℕ → Absolute
unfolding strip_rootfs
absolute_in cfg w none path size = failed
absolute_in cfg w (some host) path size =
    let cwd = text_or (strip_rootfs cfg w host) host in
    if ltb size (length cwd + 1 + length path + 1) then failed else absolute (cwd ++ (b'/' ∷ path))

unfoldable pub absolutize : Config → World → Option Str → ℕ → Absolute
unfolding absolute_in
absolutize cfg w none size = failed
absolutize cfg w (some path) size =
    if size == 0
    then failed
    else if byte_at path 0 == 0 || byte_at path 0 == b'/'
    then unchanged
    else absolute_in cfg w w.getcwd path size
