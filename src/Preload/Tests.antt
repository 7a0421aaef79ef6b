-- ===== src/Preload/Tests.antt =====
-- preload.c at concrete paths.
use bxroot.Prelude.{
  true, fail, ◌≡◌, refl, ap, sym, arith, false, Option, none, some, [], ◌∷◌, Str, codes, byte_at,
  str_eq, ok, starts_with, has_byte, if◌then◌else◌,
}
use bxroot.Preload.Config.{Bind, Config, World, beneath, copied, text_or}
use bxroot.Preload.Binds.{bind_match, match_from}
use bxroot.Preload.Binds.Matching.{IsAmong, IsBest, bind_match-IsBest}
use bxroot.Preload.Reverse.{strip_rootfs, getcwd_fixup, absolutize, source_from}
use bxroot.Preload.Termux.{termux_compat_enabled, termux_compat_map}
use bxroot.Preload.Magic.{proc_magic_link_target}
use bxroot.Preload.Dots.{
  path_has_dotdot, skip_slashes, first_name, up, walk, dotdot_from, guest_resolve_dotdot,
}
use bxroot.Preload.Translate.{
  same, rewritten, clamped, relative, is_bind_source, shm_tmp_base, is_special, prefixed, unbound,
  absolute_path, translate_round, translate_path, translate_on,
}
use bxroot.Preload.Translate.Landing.{Lands, translate_path-Lands}
use bxroot.Preload.Translate.Depth.{translate_on-enough}
use bxroot.Preload.Translate.Returning.{getcwd_fixup-below_root}
use bxroot.Preload.Reverse.Laws.{IsCwd}
use bxroot.Preload.Dots.Clean.{IsGuest}
use bxroot.Preload.Guard.{ro_guard_path, erofs}

abbrev shared : Bind
shared = record { source = codes "/storage/0"; target = codes "/sdcard"; readonly = false }

abbrev phone : Config
phone = record { rootfs = some (codes "/r"); tmp_dir = none; guest_exe = none; binds = shared ∷ [] }

-- `/r/lib` is a link to "usr/lib".
abbrev links : Str → Option Str
links host = if str_eq host (codes "/r/lib") then some (codes "usr/lib") else none

abbrev disk : World
disk = record {
  readlink = links;
  getcwd = some (codes "/r/home");
  real_root = none;
  environ = λ path. none;
  no_termux = none;
}

translations :
    (translate_path phone disk (codes "/etc/../../bin/sh") 8192 ≡ rewritten (codes "/r/bin/sh"))
    × (translate_path phone disk (codes "/sdcard/a") 8192 ≡ rewritten (codes "/storage/0/a"))
    × (translate_path phone disk (codes "/sdcardx") 8192 ≡ rewritten (codes "/r/sdcardx"))
    × (translate_path phone disk (codes "/lib/../x") 8192 ≡ rewritten (codes "/r/usr/x"))
    × (translate_path phone disk (codes "../x") 8192 ≡ rewritten (codes "/r/x"))
    × (translate_path phone disk (codes "/dev/shm/s") 8192
        ≡ rewritten (codes "/r/tmp/.bxroot-shm/s"))
    × (translate_path phone disk (codes "/dev/null") 8192 ≡ same (codes "/dev/null"))
unfolding translate_path translate_round clamped relative absolute_path unbound prefixed is_special
    is_bind_source beneath starts_with path_has_dotdot guest_resolve_dotdot walk skip_slashes
    first_name up str_eq has_byte match_from absolutize shm_tmp_base termux_compat_enabled
    termux_compat_map proc_magic_link_target strip_rootfs
translations = (refl, refl, refl, refl, refl, refl, refl)

translate_path-Lands_example :
    Lands phone 8192 (translate_path phone disk (codes "/lib/../../../sdcard/x") 8192)
unfolding shm_tmp_base beneath starts_with
translate_path-Lands_example =
    translate_path-Lands phone disk (codes "/lib/../../../sdcard/x") 8192 refl refl

abbrev usr_bin : Str
usr_bin = codes "/usr/bin"

disk-IsCwd : IsCwd disk
disk-IsCwd host e = ap (λ o. byte_at (text_or o (codes "/")) 0) (sym e)

root-IsGuest : IsGuest (codes "/r")
unfolding path_has_dotdot dotdot_from
root-IsGuest = record { absolute = refl; clean = refl }

tmp-IsGuest : IsGuest (shm_tmp_base phone)
unfolding path_has_dotdot dotdot_from shm_tmp_base starts_with
tmp-IsGuest = record { absolute = refl; clean = refl }

usr_bin-IsGuest : IsGuest usr_bin
unfolding path_has_dotdot dotdot_from
usr_bin-IsGuest = record { absolute = refl; clean = refl }

translate_on-enough_example :
    translate_on (λ path size. rewritten path) 9 phone disk (codes "/lib/../x") 8192
    ≡ translate_path phone disk (codes "/lib/../x") 8192
translate_on-enough_example =
    translate_on-enough phone disk (λ path size. rewritten path) 9 (codes "/lib/../x") 8192
      tmp-IsGuest disk-IsCwd (omega arith)

getcwd_fixup-below_root_example :
    (getcwd_fixup phone disk (codes "/r/usr/bin") 4096 ≡ ok usr_bin)
    × (translate_path phone disk (codes "/r/usr/bin") 4096
        ≡ same (copied 4096 (codes "/r/usr/bin")))
unfolding source_from beneath starts_with
getcwd_fixup-below_root_example =
    getcwd_fixup-below_root phone disk usr_bin 4096 root-IsGuest usr_bin-IsGuest refl (omega arith)

bind_match-IsBest_example :
    IsBest
      (codes "/sdcard/a")
      (λ c. IsAmong c (shared ∷ []))
      (bind_match (shared ∷ []) (some (codes "/sdcard/a")))
bind_match-IsBest_example = bind_match-IsBest (shared ∷ []) (codes "/sdcard/a") refl

abbrev kept_safe : Config
kept_safe = record phone {
  binds = record { source = codes "/d"; target = codes "/mnt/ro"; readonly = true } ∷ [];
}

-- The guard looks at the text of a path, translate_path at where it leads.
guard_by_text :
    (ro_guard_path kept_safe disk (some (codes "/mnt/ro/f")) ≡ fail erofs)
    × (ro_guard_path kept_safe disk (some (codes "/x/../mnt/ro/f")) ≡ ok tt)
    × (translate_path kept_safe disk (codes "/x/../mnt/ro/f") 8192 ≡ rewritten (codes "/d/f"))
unfolding translate_path translate_on translate_round clamped relative absolute_path unbound
    prefixed is_special is_bind_source beneath starts_with path_has_dotdot guest_resolve_dotdot walk
    skip_slashes first_name up str_eq has_byte match_from absolutize shm_tmp_base
    termux_compat_enabled termux_compat_map proc_magic_link_target strip_rootfs ro_guard_path
    bind_match
guard_by_text = (refl, refl, refl)
