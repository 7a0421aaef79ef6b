-- ===== src/Preload/Dots.antt =====
-- preload.c: path_has_dotdot, and guest_resolve_dotdot, which walks a path of the guest and follows the
-- links inside it, so that no ".." is left.
pub mod Walking
pub mod Clean
pub mod Agreeing
use bxroot.Prelude.{
  ℕ, zero, suc, ◌+◌, ◌-◌, Bool, true, false, not, ◌&&◌, ◌||◌, Option, none, some, List, [], ◌∷◌,
  ◌++◌, Str, codes, byte_at, str_eq, starts_with, has_byte, length, take, drop, ltb, leb, ◌==◌,
  ◌!=◌, if◌then◌else◌,
}
use bxroot.Preload.Config.{max_path_len, is_empty, ends_name}

-- The loop of strstr, with the byte in front, which is a slash for the start of the path. Both dots of
-- an occurrence are skipped.
unfoldable pub dotdot_from : ℕ → Str → Bool
dotdot_from before [] = false
dotdot_from before (c ∷ []) = false
dotdot_from before (c ∷ (d ∷ s)) =
    let next = dotdot_from c (d ∷ s) in
    let skipped = dotdot_from d s in
    if c == b'.' && d == b'.' then before == b'/' && ends_name s || skipped else next

unfoldable pub path_has_dotdot : Str → Bool
unfolding dotdot_from
path_has_dotdot path = dotdot_from b'/' path

-- `while (*r == '/') r++;`
unfoldable pub skip_slashes : Str → Str
skip_slashes [] = []
skip_slashes (c ∷ s) = if c == b'/' then skip_slashes s else c ∷ s

-- The bytes in front of the first slash.
unfoldable pub first_name : Str → Str
first_name [] = []
first_name (c ∷ s) = let more = first_name s in if c == b'/' then [] else c ∷ more

-- What `strrchr(cur, '/')` cuts off is dropped; without a slash nothing is.
unfoldable pub up : Str → Str
up [] = []
up (c ∷ s) =
    let more = up s in if has_byte b'/' s then c ∷ more else if c == b'/' then [] else c ∷ s

pub data Walk : Type 0 where
  arrived : Str → Walk
  overlong looping : Walk

-- `rest` = target, slash, what is left, in a buffer; an absolute target starts again at the root.
abbrev pub jump_to : (Str → Str → Walk) → Str → Str → Str → Walk
jump_to again cur target after =
    if ltb max_path_len (length target + 1 + length after + 1)
    then overlong
    else again (if byte_at target 0 == b'/' then [] else up cur) (target ++ (b'/' ∷ after))

-- A component in the middle, behind which `after` is left, and where it leads. `none` in place of `jump`
-- are forty links.
abbrev pub follow : (Str → Str → Walk) → Option (Str → Str → Walk) → Str → Str → Option Str → Walk
follow again jump cur after none = again cur after
follow again none cur after (some t) = if is_empty t then again cur after else looping
follow again (some go) cur after (some t) =
    if is_empty t then again cur after else jump_to go cur t after

-- A component that is a name.
abbrev pub enter :
    (Str → Option Str) → (Str → Str → Walk) → Option (Str → Str → Walk) → Str → Str → Str → Walk
enter target again jump cur name after =
    let here = cur ++ (b'/' ∷ name) in
    if ltb max_path_len (length cur + 1 + length name + 1)
    then overlong
    else if is_empty (skip_slashes after)
    then arrived here
    else follow again jump here after (target here)

abbrev pub named_at :
    (Str → Option Str) → (Str → Str → Walk) → Option (Str → Str → Walk) → Str → Str → Walk
named_at target again jump cur rest =
    let name = first_name rest in
    let after = drop (length name) rest in
    if str_eq name (codes ".")
    then again cur after
    else if str_eq name (codes "..")
    then again (up cur) after
    else enter target again jump cur name after

-- One round, from the rest behind the slashes.
abbrev pub walk_at :
    (Str → Option Str) → (Str → Str → Walk) → Option (Str → Str → Walk) → Str → Str → Walk
walk_at target again jump cur rest =
    if is_empty rest then arrived cur else named_at target again jump cur rest

-- The loop, with the links that may still be followed. The fuel is for the components up to the next
-- link: the length of the rest and one is enough.
unfoldable pub walk : (Str → Option Str) → ℕ → ℕ → Str → Str → Walk
walk target links zero cur rest = arrived cur
walk target zero (suc fuel) cur rest =
    walk_at target (λ c r. walk target zero fuel c r) none cur (skip_slashes rest)
walk target (suc links) (suc fuel) cur rest =
    walk_at target (λ c r. walk target (suc links) fuel c r)
      (some (λ c r. walk target links (suc (length r)) c r)) cur (skip_slashes rest)

-- `0`, `-1` and `-2` of guest_resolve_dotdot
pub data Resolved : Type 0 where
  resolved : Str → Resolved
  too_long too_many_links : Resolved

abbrev pub finish : Bool → ℕ → Walk → Resolved
finish trailing size overlong = too_long
finish trailing size looping = too_many_links
finish trailing size (arrived cur) =
    let out = cur ++ (if trailing then codes "/" else []) in
    if is_empty cur
    then (if ltb size 2 then too_long else resolved (codes "/"))
    else if ltb size (length out + 1)
    then too_long
    else resolved out

abbrev pub has_trailing : Str → Bool
has_trailing path = ltb 1 (length path) && byte_at path (length path - 1) == b'/'

abbrev pub max_links : ℕ
max_links = 40

unfoldable pub guest_resolve_dotdot : (Str → Option Str) → Str → ℕ → Resolved
guest_resolve_dotdot target path size =
    if leb max_path_len (length path)
    then too_long
    else finish (has_trailing path) size (walk target max_links (suc (length path)) [] path)
