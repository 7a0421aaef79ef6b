-- ===== src/Proc/Kill.antt =====
-- proc.c, §4: which signals may leave the container. The ledger of processes is what its lookups
-- show: the life of an entry of either kind. The hash table behind it is in Proc/Ledger.
pub mod Laws
use bxroot.Prelude.{
  ℕ, zero, suc, Bool, true, false, not, ◌&&◌, ◌||◌, Option, none, some, ◌==◌, if◌then◌else◌, Result,
  ok, fail, ℤ, pos, negsuc, is_positive, int_is,
}

pub data KillVerdict : Type 0 where
  pass deny fake_ok : KillVerdict

pub data EntryKind : Type 0 where
  pid_entry pgid_entry : EntryKind

pub data Life : Type 0 where
  live reaped : Life

pub record Ledger : Type 0 where
  pub disabled : Bool
  pub entries : EntryKind → ℕ → Option Life

pub record KillPolicy : Type 0 where
  pub protect_self : Bool
  pub allow_parent : Bool
  pub allow_broadcast : Bool
  pub allow_group : Bool

abbrev pub killpolicy_default : KillPolicy
killpolicy_default = record {
  protect_self = true;
  allow_parent = true;
  allow_broadcast = false;
  allow_group = true;
}

-- The life in what `px_ledger_get` finds for a process number that is not negative.
unfoldable pub get : Ledger → EntryKind → ℕ → Option Life
get l kind pid = if l.disabled || pid == 0 then none else l.entries kind pid

abbrev pub is_some : Option Life → Bool
is_some none = false
is_some (some _) = true

unfoldable pub has : Ledger → EntryKind → ℕ → Bool
unfolding get
has l kind pid = is_some (get l kind pid)

-- `px_mark_reaped` at both kinds: an entry that is there is marked, and none is made.
abbrev pub mark : Option Life → Option Life
mark none = none
mark (some _) = some reaped

abbrev pub marked : Ledger → ℕ → EntryKind → ℕ → Option Life
marked l pid kind n = if n == pid then mark (l.entries kind n) else l.entries kind n

-- `none` is PX_ENOENT.
unfoldable pub reap : Option Ledger → ℕ → Option Ledger
reap none pid = none
reap (some l) pid =
    if l.disabled || pid == 0
    then none
    else if is_some (l.entries pid_entry pid) || is_some (l.entries pgid_entry pid)
    then some (record l { entries = marked l pid })
    else none

-- `SIGCHLD`
abbrev pub sigchld : ℕ
sigchld = 17

unfoldable pub signal_always_allowed : ℕ → Bool
signal_always_allowed sig = sig == sigchld

abbrev pub verdict_of : Bool → KillVerdict
verdict_of true = pass
verdict_of false = deny

abbrev pub caller_is : Option ℤ → ℕ → Bool
caller_is none n = false
caller_is (some i) n = int_is i n

abbrev pub by_life : Option Life → Bool → KillVerdict
by_life (some live) parent = pass
by_life (some reaped) parent = deny
by_life none parent = verdict_of parent

-- `target > 0`
unfoldable pub check_process : Ledger → KillPolicy → Option ℤ → ℤ → ℕ → KillVerdict
unfolding get
check_process l p ppid self_pid target =
    if p.protect_self && (is_positive self_pid && int_is self_pid target)
    then pass
    else by_life (get l pid_entry target)
        (p.allow_parent && is_positive self_pid && caller_is ppid target)

abbrev pub is_reaped : Option Life → Bool
is_reaped (some reaped) = true
is_reaped _ = false

-- `target < -1`, with `pgid` for `-target`. At the least `pid_t` that negation overflows in C; here
-- it does not.
unfoldable pub check_group : Ledger → KillPolicy → Option ℤ → ℕ → KillVerdict
unfolding get has
check_group l p pgrp pgid =
    if not p.allow_group
    then deny
    else if caller_is pgrp pgid
    then pass
    else if has l pid_entry pgid || has l pgid_entry pgid
    then if is_reaped (get l pid_entry pgid) || is_reaped (get l pgid_entry pgid)
      then deny
      else pass
    else deny

abbrev check_target : Ledger → KillPolicy → Option ℤ → Option ℤ → ℤ → ℤ → KillVerdict
check_target l p ppid pgrp self_pid (pos zero) = verdict_of p.allow_broadcast
check_target l p ppid pgrp self_pid (pos (suc n)) = check_process l p ppid self_pid (suc n)
check_target l p ppid pgrp self_pid (negsuc zero) = verdict_of p.allow_broadcast
check_target l p ppid pgrp self_pid (negsuc (suc n)) = check_group l p pgrp (suc (suc n))

abbrev policy_or_default : Option KillPolicy → KillPolicy
policy_or_default none = killpolicy_default
policy_or_default (some p) = p

-- `ppid` and `pgrp` are what `sys->getppid` and `sys->getpgrp` return, `none` where they are NULL.
unfoldable pub check_kill :
    Option Ledger → Option KillPolicy → Option ℤ → Option ℤ → ℤ → ℤ → ℕ → KillVerdict
unfolding check_process check_group signal_always_allowed
check_kill none pol ppid pgrp self_pid target sig = pass
check_kill (some l) pol ppid pgrp self_pid target sig =
    if l.disabled
    then pass
    else if signal_always_allowed sig
    then pass
    else check_target l (policy_or_default pol) ppid pgrp self_pid target
