-- ===== src/Preload/Translate.antt =====
-- preload.c: translate_path, from a path of the guest to one of the host. The function calls itself; one
-- round takes that call as an argument, and `translate_path` ties the knot on fuel.
pub mod Landing
pub mod Rounds
pub mod Kinds
pub mod Depth
pub mod Returning
use bxroot.Prelude.{
  ℕ, zero, suc, ◌+◌, ◌-◌, Bool, true, false, not, ◌&&◌, ◌||◌, Option, none, some, List, [], ◌∷◌,
  ◌++◌, Str, codes, byte_at, str_eq, starts_with, has_byte, length, take, drop, ltb, leb, ◌==◌,
  ◌!=◌, if◌then◌else◌,
}
use bxroot.Preload.Config.{max_path_len, Bind, Config, World, text_or, beneath, copied, printed}
use bxroot.Preload.Binds.{match_from}
use bxroot.Preload.Reverse.{behind, Absolute, absolutize}
use bxroot.Preload.Termux.{termux_compat_enabled, termux_compat_map, Mapped, mapped}
use bxroot.Preload.Magic.{proc_magic_link_target}
use bxroot.Preload.Dots.{path_has_dotdot, Resolved, resolved, guest_resolve_dotdot}

-- `-1`, `0` with the path as it is, and `1`
pub data Translated : Type 0 where
  failed : Translated
  same rewritten : Str → Translated

abbrev pub or_failed : Option Str → Translated
or_failed none = failed
or_failed (some s) = rewritten s

abbrev pub root_of : Config → Str
root_of cfg = text_or cfg.rootfs []

abbrev pub sentinel : Str
sentinel = codes "/.bxroot-unresolvable-path"

-- Where a link inside a path leads, as the guest sees it.
abbrev pub kernel_link : World → Translated → Option Str
kernel_link w failed = none
kernel_link w (same host) = w.readlink host
kernel_link w (rewritten host) = w.readlink host

abbrev pub link_of : Option Str → Option Str → Option Str
link_of (some magic) kernel = some magic
link_of none none = none
link_of none (some target) = some (copied max_path_len target)

abbrev pub link_target : (Str → ℕ → Translated) → Config → World → Str → Option Str
link_target again cfg w cur =
    link_of (proc_magic_link_target cfg w cur max_path_len) (kernel_link w (again cur max_path_len))

-- An absolute path with a "..": what cannot be resolved is sent to a name that does not exist.
abbrev pub guest_view : Config → Str → Str
guest_view cfg path =
    if length (root_of cfg) != 0 && beneath path (root_of cfg)
    then behind path (root_of cfg)
    else path

abbrev pub after_dots : (Str → ℕ → Translated) → Config → ℕ → Resolved → Translated
after_dots again cfg size (resolved guest) = again guest size
after_dots again cfg size other = or_failed (printed size (root_of cfg ++ sentinel))

unfoldable pub clamped : (Str → ℕ → Translated) → Config → World → Str → ℕ → Translated
clamped again cfg w path size =
    after_dots again cfg size
      (guest_resolve_dotdot (link_target again cfg w) (guest_view cfg path) max_path_len)

abbrev pub from_cwd : (Str → ℕ → Translated) → Str → ℕ → Absolute → Translated
from_cwd again path size (Absolute.absolute whole) = again whole size
from_cwd again path size other = same (copied size path)

unfoldable pub relative : (Str → ℕ → Translated) → Config → World → Str → ℕ → Translated
relative again cfg w path size =
    if path_has_dotdot path
    then from_cwd again path size (absolutize cfg w (some path) max_path_len)
    else same (copied size path)

-- Whether the path lies under the source of a bind that is not one of a path to itself.
unfoldable pub is_bind_source : List Bind → Str → Bool
unfolding beneath str_eq
is_bind_source [] path = false
is_bind_source (b ∷ bs) path =
    byte_at b.source 0 != 0 && not (str_eq b.source b.target) && beneath path b.source
    || is_bind_source bs path

abbrev pub shm_guest : Str
shm_guest = codes "/dev/shm"

unfoldable pub shm_tmp_base : Config → Str
unfolding beneath
shm_tmp_base cfg =
    let base = text_or cfg.tmp_dir (codes "/tmp") in
    if beneath base shm_guest then codes "/tmp" else base

abbrev pub redirected : (Str → ℕ → Translated) → ℕ → Option Str → Translated
redirected again size none = failed
redirected again size (some redirect) = again redirect size

unfoldable pub is_special : Str → Bool
unfolding beneath
is_special path =
    beneath path (codes "/proc") || beneath path (codes "/sys") || beneath path (codes "/dev")

abbrev pub or_else_to : Option Str → Translated → Translated
or_else_to none other = other
or_else_to (some s) other = rewritten s

-- With the prefix, or else a name that does not exist.
unfoldable pub prefixed : Config → Str → ℕ → Translated
prefixed cfg path size = or_else_to (printed size (root_of cfg ++ path)) (
    or_else_to (printed size (root_of cfg ++ sentinel))
      (if ltb (length sentinel + 1) size then rewritten sentinel else failed))

abbrev pub ordinary : Config → Str → ℕ → Translated
ordinary cfg path size = if is_special path then same (copied size path) else prefixed cfg path size

abbrev pub compatible : (Str → ℕ → Translated) → Config → Str → ℕ → Mapped → Translated
compatible again cfg path size (mapped redirect) = again redirect size
compatible again cfg path size other = ordinary cfg path size

-- What no bind applies to.
unfoldable pub unbound : (Str → ℕ → Translated) → Config → World → Str → ℕ → Translated
unbound again cfg w path size =
    if beneath path shm_guest
    then redirected again size (
        printed max_path_len
          (shm_tmp_base cfg ++ (codes "/.bxroot-shm" ++ drop (length shm_guest) path)))
    else if termux_compat_enabled (some (root_of cfg)) w.no_termux
    then compatible again cfg path size (termux_compat_map path max_path_len)
    else ordinary cfg path size

abbrev pub bound : (Str → ℕ → Translated) → Config → World → Str → ℕ → Option Bind → Translated
bound again cfg w path size none = unbound again cfg w path size
bound again cfg w path size (some b) =
    or_failed (printed size (b.source ++ drop (length b.target) path))

-- An absolute path without "..".
unfoldable pub absolute_path : (Str → ℕ → Translated) → Config → World → Str → ℕ → Translated
absolute_path again cfg w path size =
    if length (root_of cfg) != 0 && beneath path (root_of cfg)
    then same (copied size path)
    else if is_bind_source cfg.binds path
    then same (copied size path)
    else bound again cfg w path size (match_from path cfg.binds none)

unfoldable pub translate_round : (Str → ℕ → Translated) → Config → World → Str → ℕ → Translated
translate_round again cfg w path size =
    if size == 0
    then failed
    else if byte_at path 0 != b'/'
    then relative again cfg w path size
    else if path_has_dotdot path
    then clamped again cfg w path size
    else absolute_path again cfg w path size

-- `last` answers for the calls behind the last round.
unfoldable pub translate_on : (Str → ℕ → Translated) → ℕ → Config → World → Str → ℕ → Translated
translate_on last zero cfg w path size = last path size
translate_on last (suc fuel) cfg w path size =
    translate_round (λ p s. translate_on last fuel cfg w p s) cfg w path size

-- As many as there are kinds of path: relative with "..", absolute with "..", in /dev/shm, of Termux,
-- and any other.
abbrev pub rounds : ℕ
rounds = 5

unfoldable pub translate_path : Config → World → Str → ℕ → Translated
unfolding translate_on
translate_path cfg w path size = translate_on (λ p s. failed) rounds cfg w path size
