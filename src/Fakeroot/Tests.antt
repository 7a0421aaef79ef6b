-- ===== src/Fakeroot/Tests.antt =====
-- One session of the false root, worked out.
use Prim.Native.Nat.{max}
use bxroot.Prelude.{◌≡◌, refl, true, false, none, some, [], ◌∷◌, arith}
use bxroot.System.{Stat}
use bxroot.System.Bits.{bit}
use bxroot.Fakeroot.Types.{State, owner}
use bxroot.Fakeroot.Identity.{initial, set_enabled, set_keepcaps, get_keepcaps}
use bxroot.Fakeroot.Identity.Laws.{
  set_uid, set_euid, set_groups, call, run, IsRooted, Ends, run-Ends,
}
use bxroot.Fakeroot.Patch.{updated, owner_delta, compose_mode, patch_stat_ex}
use bxroot.Fakeroot.Patch.Laws.{compose_mode_bits, chown_user_loses_group}

-- The false root of the user 10123.
abbrev rooted : State
rooted = record {
  enabled = true;
  ruid = 0;
  euid = 0;
  suid = 0;
  fsuid = 0;
  rgid = 0;
  egid = 0;
  sgid = 0;
  fsgid = 0;
  groups = 0 ∷ [];
  heuristic = owner;
  real_uid = 10123;
  real_euid = 10123;
  real_gid = 10124;
  real_egid = 10124;
  caps_active = true;
  keep_caps = false;
}

abbrev own_file : Stat
own_file = record {
  st_dev = 5;
  st_ino = 6;
  st_mode = 0x81a4;
  st_nlink = 1;
  st_uid = 10123;
  st_gid = 10124;
}

run-Ends_example :
    IsRooted (run (set_enabled initial true) (set_uid 7 ∷ set_euid 0 ∷ []))
    × Ends
        (set_groups none 3)
        (call (run (set_enabled initial true) (set_uid 7 ∷ set_euid 0 ∷ [])) (set_groups none 3))
run-Ends_example = run-Ends initial (set_uid 7 ∷ set_euid 0 ∷ []) (set_groups none 3)

compose_mode_bits_example : bit 11 (compose_mode 0x81a4 0x9ed) ≡ max (bit 11 0x9ed) (bit 11 0x81a4)
compose_mode_bits_example = compose_mode_bits 11 0x81a4 0x9ed (omega arith)

chown_user_loses_group_example :
    ((patch_stat_ex rooted none none none own_file).st_gid ≡ 0)
    × ((patch_stat_ex rooted
          (some (updated none (owner_delta 3 0xffffffff)))
          none
          none
          own_file).st_gid
        ≡ 10124)
chown_user_loses_group_example =
    chown_user_loses_group rooted 3 own_file refl refl (λ e. omega (arith, e)) refl

keepcaps :
    (get_keepcaps (set_keepcaps (some rooted) true) ≡ true)
    × (get_keepcaps (set_keepcaps none true) ≡ false)
unfolding set_keepcaps get_keepcaps
keepcaps = (refl, refl)
