-- ===== src/Fakeroot/Identity.antt =====
-- fakeroot.c, the state machine of §5: initial state, the set*id calls and the groups. `none` is a
-- NULL state or a NULL list.
pub mod Laws
use bxroot.Prelude.{
  ℕ, Bool, true, false, not, ◌&&◌, ◌||◌, Option, none, some, List, [], ◌∷◌, length, take, ltb, leb,
  ◌==◌, if◌then◌else◌, Result, ok, fail,
}
use bxroot.Fakeroot.Types.{
  FrCode, einval, eperm, State, Heuristic, owner, unset_id, id_is_set, ngroups_max,
}

abbrev pub Res {ℓ} : Type ℓ → Type ℓ
Res A = Result FrCode A

-- `fakeroot_state_init`
unfoldable pub initial : State
initial = record {
  enabled = false;
  ruid = 0;
  euid = 0;
  suid = 0;
  fsuid = 0;
  rgid = 0;
  egid = 0;
  sgid = 0;
  fsgid = 0;
  groups = [];
  heuristic = owner;
  real_uid = 0;
  real_euid = 0;
  real_gid = 0;
  real_egid = 0;
  caps_active = false;
  keep_caps = false;
}

unfoldable pub set_real_ids : State → ℕ → ℕ → ℕ → ℕ → State
set_real_ids fs ruid euid rgid egid = record fs {
  real_uid = ruid;
  real_euid = euid;
  real_gid = rgid;
  real_egid = egid;
}

-- The false identity is root, with the one group 0.
unfoldable pub set_enabled : State → Bool → State
set_enabled fs false = record fs { enabled = false }
set_enabled fs true = record fs {
  enabled = true;
  ruid = 0;
  euid = 0;
  suid = 0;
  fsuid = 0;
  rgid = 0;
  egid = 0;
  sgid = 0;
  fsgid = 0;
  groups = 0 ∷ [];
  caps_active = true;
  keep_caps = false;
}

abbrev pub on_state {ℓ} : {A : Type ℓ} → Option State → (State → Res A) → Res A
on_state none f = fail einval
on_state (some fs) f = f fs

unfoldable pub setuid : Option State → ℕ → Res State
setuid s uid = on_state s λ fs. ok (record fs { ruid = uid; euid = uid; suid = uid; fsuid = uid })

unfoldable pub setgid : Option State → ℕ → Res State
setgid s gid = on_state s λ fs. ok (record fs { rgid = gid; egid = gid; sgid = gid; fsgid = gid })

unfoldable pub seteuid : Option State → ℕ → Res State
seteuid s euid = on_state s λ fs. ok (record fs { euid = euid; fsuid = euid })

unfoldable pub setegid : Option State → ℕ → Res State
setegid s egid = on_state s λ fs. ok (record fs { egid = egid; fsgid = egid })

-- `-1` leaves an identity alone.
abbrev pub chosen : ℕ → ℕ → ℕ
chosen new old = if id_is_set new then new else old

unfoldable pub setreuid : Option State → ℕ → ℕ → Res State
setreuid s r e = on_state s λ fs.
    ok (record fs { ruid = chosen r fs.ruid; euid = chosen e fs.euid; fsuid = chosen e fs.fsuid })

unfoldable pub setregid : Option State → ℕ → ℕ → Res State
setregid s r e = on_state s λ fs.
    ok (record fs { rgid = chosen r fs.rgid; egid = chosen e fs.egid; fsgid = chosen e fs.fsgid })

unfoldable pub setresuid : Option State → ℕ → ℕ → ℕ → Res State
setresuid st r e s = on_state st λ fs. ok (record fs {
  ruid = chosen r fs.ruid;
  euid = chosen e fs.euid;
  suid = chosen s fs.suid;
  fsuid = chosen e fs.fsuid;
})

unfoldable pub setresgid : Option State → ℕ → ℕ → ℕ → Res State
setresgid st r e s = on_state st λ fs. ok (record fs {
  rgid = chosen r fs.rgid;
  egid = chosen e fs.egid;
  sgid = chosen s fs.sgid;
  fsgid = chosen e fs.fsgid;
})

abbrev uid_equals_any : State → ℕ → Bool
uid_equals_any fs u = u == fs.ruid || u == fs.euid || u == fs.suid

abbrev gid_equals_any : State → ℕ → Bool
gid_equals_any fs g = g == fs.rgid || g == fs.egid || g == fs.sgid

-- The old identity, and the state; a refusal is silent.
unfoldable pub setfsuid : State → ℕ → ℕ × State
setfsuid fs fsuid =
    let allowed = fs.euid == 0 || fs.caps_active || fsuid == fs.fsuid || uid_equals_any fs fsuid in
    (fs.fsuid, if allowed then record fs { fsuid = fsuid } else fs)

unfoldable pub setfsgid : State → ℕ → ℕ × State
setfsgid fs fsgid =
    let allowed = fs.egid == 0 || fs.caps_active || fsgid == fs.fsgid || gid_equals_any fs fsgid in
    (fs.fsgid, if allowed then record fs { fsgid = fsgid } else fs)

abbrev missing : Option (List ℕ) → Bool
missing none = true
missing (some l) = false

abbrev listed : Option (List ℕ) → List ℕ
listed none = []
listed (some l) = l

-- The list holds at least the `n` entries that are copied.
unfoldable pub setgroups : Option State → Option (List ℕ) → ℕ → Res State
setgroups s list n = on_state s λ fs.
    if not (fs.euid == 0 || fs.caps_active)
    then fail eperm
    else if ltb ngroups_max n
    then fail einval
    else if ltb 0 n && missing list
    then fail einval
    else ok (record fs { groups = take n (listed list) })

-- The count that is returned, and what is copied to a list of `size` entries, if there is one.
unfoldable pub getgroups : Option State → Bool → ℕ → Res (ℕ × Option (List ℕ))
getgroups s has_list size = on_state s λ fs.
    if size == 0
    then ok (length fs.groups, none)
    else if not has_list
    then fail einval
    else if ltb size (length fs.groups)
    then fail einval
    else ok (length fs.groups, some fs.groups)

-- The state behind the pointer, if there is one.
unfoldable pub set_keepcaps : Option State → Bool → Option State
set_keepcaps none on = none
set_keepcaps (some fs) on = some (record fs { keep_caps = on })

unfoldable pub get_keepcaps : Option State → Bool
get_keepcaps none = false
get_keepcaps (some fs) = fs.keep_caps
