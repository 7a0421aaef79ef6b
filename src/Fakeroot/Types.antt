-- ===== src/Fakeroot/Types.antt =====
-- src/runtime/fakeroot.h: codes, verdicts, the state and the record of a file.
use bxroot.Prelude.{ℕ, Bool, List, ◌!=◌}

-- The negative return codes that the modelled functions use; `FR_OK` is the `ok` of `Result`.
pub data FrCode : Type 0 where
  einval eperm enametoolong enoent enomem efull : FrCode

pub data Verdict : Type 0 where
  granted denied : Verdict

pub data ChownAction : Type 0 where
  propagate fake_ok : ChownAction

pub data Heuristic : Type 0 where
  off owner all : Heuristic

-- `fakeroot_state`, less the tables of records. `groups` holds the first `ngroups` entries.
pub record State : Type 0 where
  pub enabled : Bool
  pub ruid : ℕ
  pub euid : ℕ
  pub suid : ℕ
  pub fsuid : ℕ
  pub rgid : ℕ
  pub egid : ℕ
  pub sgid : ℕ
  pub fsgid : ℕ
  pub groups : List ℕ
  pub heuristic : Heuristic
  pub real_uid : ℕ
  pub real_euid : ℕ
  pub real_gid : ℕ
  pub real_egid : ℕ
  pub caps_active : Bool
  pub keep_caps : Bool

-- `fr_record`
pub record Record : Type 0 where
  pub uid : ℕ
  pub gid : ℕ
  pub mode : ℕ
  pub uid_faked : Bool
  pub gid_faked : Bool
  pub mode_faked : Bool

-- `(uid_t)-1` and `(gid_t)-1`
abbrev pub unset_id : ℕ
unset_id = 0xffffffff

abbrev pub id_is_set : ℕ → Bool
id_is_set u = u != unset_id

abbrev pub ngroups_max : ℕ
ngroups_max = 64
