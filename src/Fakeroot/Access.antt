-- ===== src/Fakeroot/Access.antt =====
-- fakeroot.c, §5: the access model, and the gates of chown and chmod. A mode bit is tested by its
-- place: `R_OK` is bit 2, `W_OK` bit 1, `X_OK` bit 0, and `F_OK` is 0.
pub mod Laws
use Prim.Native.Nat.{bit_and, bit_or}
use bxroot.Prelude.{
  ℕ, ◌+◌, ◌/◌, ◌%◌, Bool, true, false, ◌&&◌, ◌||◌, Option, none, some, ◌==◌, ◌!=◌, if◌then◌else◌,
  Result, ok, fail,
}
use bxroot.System.{Stat, eperm_no, eacces_no}
use bxroot.Fakeroot.Types.{
  FrCode, einval, eperm, Verdict, granted, denied, ChownAction, propagate, fake_ok, State, Record,
}
use bxroot.Fakeroot.Identity.{Res}

unfoldable pub permission_bits : ℕ → Bool → Bool → Bool → ℕ
permission_bits file_mode is_owner in_group as_root =
    let omode =
      if is_owner || as_root
      then file_mode / 64 % 8
      else if in_group
      then file_mode / 8 % 8
      else file_mode % 8 in
    if as_root then bit_or omode 6 % 8 else omode % 8

abbrev pub asks : ℕ → ℕ → Bool
asks mode place = mode / place % 2 != 0

-- `mask` of the three requests.
abbrev pub mask_of : ℕ → ℕ
mask_of mode =
    (if asks mode 4 then 4 else 0) + (if asks mode 2 then 2 else 0) + (if asks mode 1 then 1 else 0)

abbrev check_stat : Option Stat → ℕ → Bool → Verdict
check_stat none mode as_root = granted
check_stat (some st) mode as_root =
    if mask_of mode == 0
    then granted
    else if bit_and (permission_bits st.st_mode false false as_root) (mask_of mode) == mask_of mode
    then granted
    else denied

unfoldable pub check_access : Option Stat → ℕ → Bool → Bool → Verdict
check_access st mode st_valid as_root =
    if bit_and mode 0 != 0
    then granted
    else if st_valid
    then check_stat st mode as_root
    else granted

abbrev is_granted : Verdict → Bool
is_granted granted = true
is_granted denied = false

abbrev pub is_permission : ℕ → Bool
is_permission real_errno = real_errno == eperm_no || real_errno == eacces_no

unfoldable pub access_override : ℕ → Verdict → Bool
access_override real_errno model = if is_permission real_errno then is_granted model else false

-- What goes through `out_uid` and `out_gid`, and the code; `none` for `cur` is a file with no record.
abbrev pub Gate : Type 0
Gate = ℕ × ℕ × Res (Unit {0})

abbrev gate_owner : State → Option Record → ℕ → ℕ → Gate
gate_owner fs none req_uid req_gid = (req_uid, req_gid, fail eperm)
gate_owner fs (some cur) req_uid req_gid =
    if fs.euid == cur.uid then (cur.uid, req_gid, ok tt) else (req_uid, req_gid, fail eperm)

unfoldable pub gate_chown : Option State → Option Record → ℕ → ℕ → Gate
gate_chown none cur req_uid req_gid = (req_uid, req_gid, fail einval)
gate_chown (some fs) cur req_uid req_gid =
    if fs.euid == 0 then (req_uid, req_gid, ok tt) else gate_owner fs cur req_uid req_gid

abbrev gate_mode : State → Option Record → Res (Unit {0})
gate_mode fs none = fail eperm
gate_mode fs (some cur) = if fs.euid == cur.uid then ok tt else fail eperm

unfoldable pub gate_chmod : Option State → Option Record → Res (Unit {0})
gate_chmod none cur = fail einval
gate_chmod (some fs) cur = if fs.euid == 0 then ok tt else gate_mode fs cur

abbrev passed : Res (Unit {0}) → Bool
passed (ok _) = true
passed (fail e) = false

-- `real_ok` says that the real call returned 0.
unfoldable pub chown_action : Bool → ℕ → Res (Unit {0}) → ChownAction
chown_action real_ok real_errno gate =
    if real_ok
    then propagate
    else if is_permission real_errno
    then if passed gate then fake_ok else propagate
    else propagate
