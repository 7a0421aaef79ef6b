-- ===== src/Fakeroot/Patch.antt =====
-- fakeroot.c, §3 and §4: what is recorded of a file, and what a `stat` of it shows the guest. What the
-- tables of records answer is an argument.
pub mod Laws
use Prim.Native.Nat.{bit_and, bit_or}
use bxroot.Prelude.{ℕ, Bool, true, false, ◌&&◌, ◌||◌, not, Option, none, some, ◌==◌, if◌then◌else◌}
use bxroot.System.{Stat}
use bxroot.Fakeroot.Types.{State, Record, Heuristic, off, owner, all, id_is_set}

-- `fr_record_merge`: only the fields of `src` that are faked.
unfoldable pub record_merge : Record → Record → Record
record_merge dst src = record {
  uid = if src.uid_faked then src.uid else dst.uid;
  gid = if src.gid_faked then src.gid else dst.gid;
  mode = if src.mode_faked then src.mode else dst.mode;
  uid_faked = src.uid_faked || dst.uid_faked;
  gid_faked = src.gid_faked || dst.gid_faked;
  mode_faked = src.mode_faked || dst.mode_faked;
}

abbrev fresh_record : Record → Record
fresh_record delta = record delta {
  uid = if id_is_set delta.uid then delta.uid else 0;
  gid = if id_is_set delta.gid then delta.gid else 0;
}

-- The record of a key after `fr_map_update_unlocked`, from the one that was there.
unfoldable pub updated : Option Record → Record → Record
updated none delta = fresh_record delta
updated (some cur) delta = record_merge cur delta

unfoldable pub owner_delta : ℕ → ℕ → Record
owner_delta uid gid = record {
  uid = uid;
  gid = gid;
  mode = 0;
  uid_faked = id_is_set uid;
  gid_faked = id_is_set gid;
  mode_faked = false;
}

-- `fr_mode_low`
abbrev pub mode_low : ℕ → ℕ
mode_low m = bit_and m 0o7777

unfoldable pub mode_delta : ℕ → Record
mode_delta mode = record {
  uid = 0;
  gid = 0;
  mode = mode_low mode;
  uid_faked = false;
  gid_faked = false;
  mode_faked = true;
}

-- Whether the identities are to be written, and which.
abbrev pub Decision : Type 0
Decision = Bool × ℕ × ℕ

abbrev heuristic_ids : State → Heuristic → ℕ → ℕ → ℕ → ℕ → Decision
heuristic_ids fs off real_uid real_gid cur_uid cur_gid = (false, cur_uid, cur_gid)
heuristic_ids fs owner real_uid real_gid cur_uid cur_gid = (
  cur_uid == real_uid || cur_gid == real_gid,
  if cur_uid == real_uid then fs.euid else cur_uid,
  if cur_gid == real_gid then fs.egid else cur_gid,
)
heuristic_ids fs all real_uid real_gid cur_uid cur_gid = (true, fs.euid, fs.egid)

abbrev undecided : Option State → ℕ → ℕ → ℕ → ℕ → Decision
undecided none real_uid real_gid cur_uid cur_gid = (false, cur_uid, cur_gid)
undecided (some fs) real_uid real_gid cur_uid cur_gid =
    if not fs.enabled
    then (false, cur_uid, cur_gid)
    else heuristic_ids fs fs.heuristic real_uid real_gid cur_uid cur_gid

-- The record first, then the heuristic; `none` for `found` is `!have_rec` or a NULL record.
unfoldable pub decide_ids : Option State → Option Record → ℕ → ℕ → ℕ → ℕ → Decision
decide_ids fs none real_uid real_gid cur_uid cur_gid =
    undecided fs real_uid real_gid cur_uid cur_gid
decide_ids fs (some found) real_uid real_gid cur_uid cur_gid =
    if found.uid_faked || found.gid_faked
    then (
      true,
      if found.uid_faked then found.uid else cur_uid,
      if found.gid_faked then found.gid else cur_gid,
    )
    else undecided fs real_uid real_gid cur_uid cur_gid

-- `(rec.mode & 07777) | (st_mode & (S_IFMT | 07000))`
unfoldable pub compose_mode : ℕ → ℕ → ℕ
compose_mode kernel_mode rec_mode = bit_or (mode_low rec_mode) (bit_and kernel_mode 0o177000)

-- The record that is used: the caller's, else that of the inode, else that of the descriptor.
abbrev pub first_found : Option Record → Option Record → Option Record → Option Record
first_found (some given) by_inode by_fd = some given
first_found none (some r) by_fd = some r
first_found none none by_fd = by_fd

abbrev with_ids : Stat → Decision → Stat
with_ids st (changed, uid, gid) = if changed then record st { st_uid = uid; st_gid = gid } else st

abbrev with_mode : Stat → Option Record → Stat
with_mode st none = st
with_mode st (some r) =
    if r.mode_faked then record st { st_mode = compose_mode st.st_mode r.mode } else st

abbrev patched : State → Stat → Option Record → Stat
patched fs st found =
    with_mode (with_ids st (decide_ids (some fs) found fs.real_uid fs.real_gid st.st_uid st.st_gid))
      found

-- `given` is the `rec` argument, `by_inode` and `by_fd` what the lookups of the file's device and inode
-- and of its descriptor find (the second is `none` for a negative descriptor).
unfoldable pub patch_stat_ex : State → Option Record → Option Record → Option Record → Stat → Stat
patch_stat_ex fs given by_inode by_fd st =
    if not fs.enabled then st else patched fs st (first_found given by_inode by_fd)

unfoldable pub patch_stat_simple : ℕ → ℕ → ℕ → ℕ → Stat → Stat
patch_stat_simple real_uid fake_uid real_gid fake_gid st = record st {
  st_uid = if st.st_uid == real_uid then fake_uid else st.st_uid;
  st_gid = if st.st_gid == real_gid then fake_gid else st.st_gid;
}
