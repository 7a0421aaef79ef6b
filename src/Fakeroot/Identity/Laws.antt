-- ===== src/Fakeroot/Identity/Laws.antt =====
-- The identity of the guest over any sequence of set*id calls.
use bxroot.Prelude.{
  ℕ, ◌≤◌, ◌<◌, ◌≡◌, refl, ◌⊎◌, true, Option, some, List, [], ◌∷◌, length, length-take_le,
  take-length, ok, fail, arith,
}
use bxroot.Fakeroot.Types.{einval, State, ngroups_max}
use bxroot.Fakeroot.Identity.{
  Res, set_enabled, setuid, setgid, seteuid, setegid, setreuid, setregid, setresuid, setresgid,
  setfsuid, setfsgid, setgroups, getgroups, missing, listed,
}

-- The calls that change the identity.
pub data Call : Type 0 where
  set_uid set_gid set_euid set_egid set_fsuid set_fsgid : ℕ → Call
  set_reuid set_regid : ℕ → ℕ → Call
  set_resuid set_resgid : ℕ → ℕ → ℕ → Call
  set_groups : Option (List ℕ) → ℕ → Call

unfoldable pub call : State → Call → Res State
call fs (set_uid u) = setuid (some fs) u
call fs (set_gid g) = setgid (some fs) g
call fs (set_euid u) = seteuid (some fs) u
call fs (set_egid g) = setegid (some fs) g
call fs (set_fsuid u) = ok (setfsuid fs u).1
call fs (set_fsgid g) = ok (setfsgid fs g).1
call fs (set_reuid r e) = setreuid (some fs) r e
call fs (set_regid r e) = setregid (some fs) r e
call fs (set_resuid r e s) = setresuid (some fs) r e s
call fs (set_resgid r e s) = setresgid (some fs) r e s
call fs (set_groups list n) = setgroups (some fs) list n

abbrev kept : State → Res State → State
kept fs (ok fs') = fs'
kept fs (fail e) = fs

-- The state after the calls in order; one that fails changes nothing.
unfoldable pub run : State → List Call → State
run fs [] = fs
run fs (c ∷ cs) = run (kept fs (call fs c)) cs

-- What holds of an enabled state: the privilege is there, and the groups fit in their array.
pub record IsRooted (fs : State) : Type 0 where
  pub is_enabled : fs.enabled ≡ true
  pub has_caps : fs.caps_active ≡ true
  pub groups_fit : length fs.groups ≤ ngroups_max

pub set_enabled-IsRooted : (fs : State) → IsRooted (set_enabled fs true)
unfolding set_enabled
set_enabled-IsRooted fs = record { is_enabled = refl; has_caps = refl; groups_fit = omega arith }

call-IsRooted : (fs : State) (c : Call) → IsRooted fs → IsRooted (kept fs (call fs c))
unfolding call setuid setgid seteuid setegid setfsuid setfsgid setreuid setregid setresuid setresgid
    setgroups
call-IsRooted fs (set_uid u) v = ground arith
call-IsRooted fs (set_groups list n) v = ground (arith, length-take_le n (listed list))
call-IsRooted fs _ v = ground arith

pub run-IsRooted : (cs : List Call) (fs : State) → IsRooted fs → IsRooted (run fs cs)
unfolding run
run-IsRooted [] fs v = v
run-IsRooted (c ∷ cs) fs v = run-IsRooted cs (kept fs (call fs c)) (call-IsRooted fs c v)

-- The arguments of `setgroups` that the kernel refuses too.
abbrev pub BadGroups : Call → Type 0
BadGroups (set_groups list n) = (ngroups_max < n) ⊎ ((0 < n) × (missing list ≡ true))
BadGroups _ = ⊥

-- What a call that takes effect leaves.
abbrev pub Took : Call → State → Type 0
Took (set_uid u) fs = (fs.ruid ≡ u) × (fs.euid ≡ u) × (fs.suid ≡ u) × (fs.fsuid ≡ u)
Took (set_gid g) fs = (fs.rgid ≡ g) × (fs.egid ≡ g) × (fs.sgid ≡ g) × (fs.fsgid ≡ g)
Took (set_euid u) fs = (fs.euid ≡ u) × (fs.fsuid ≡ u)
Took (set_egid g) fs = (fs.egid ≡ g) × (fs.fsgid ≡ g)
Took (set_fsuid u) fs = fs.fsuid ≡ u
Took (set_fsgid g) fs = fs.fsgid ≡ g
Took _ fs = Unit

-- How a call ends.
abbrev pub Ends : Call → Res State → Type 0
Ends c (ok fs) = (¬ BadGroups c) × Took c fs
Ends c (fail einval) = BadGroups c
Ends c (fail _) = ⊥

takes_fsuid : (fs : State) (u : ℕ) → fs.caps_active ≡ true → (setfsuid fs u).1.fsuid ≡ u
unfolding setfsuid
takes_fsuid fs u caps = ground (arith, caps)

takes_fsgid : (fs : State) (g : ℕ) → fs.caps_active ≡ true → (setfsgid fs g).1.fsgid ≡ g
unfolding setfsgid
takes_fsgid fs g caps = ground (arith, caps)

call-Ends : (fs : State) (c : Call) → IsRooted fs → Ends c (call fs c)
unfolding call setuid setgid seteuid setegid setfsuid setfsgid setreuid setregid setresuid setresgid
    setgroups
call-Ends fs (set_uid u) v = (λ b. b, (refl, refl, refl, refl))
call-Ends fs (set_gid g) v = (λ b. b, (refl, refl, refl, refl))
call-Ends fs (set_euid u) v = (λ b. b, (refl, refl))
call-Ends fs (set_egid g) v = (λ b. b, (refl, refl))
call-Ends fs (set_fsuid u) v = (λ b. b, takes_fsuid fs u v.has_caps)
call-Ends fs (set_fsgid g) v = (λ b. b, takes_fsgid fs g v.has_caps)
call-Ends fs (set_groups list n) v = ground arith
call-Ends fs _ v = (λ b. b, tt)

-- Whatever calls were made once fakeroot is enabled, the privilege is still there, and the next call
-- succeeds unless it is a `setgroups` that is malformed, which is refused with FR_EINVAL: none is ever
-- refused for want of privilege. A call for one identity, also one for the file system, leaves that
-- identity as it was asked.
pub run-Ends :
    (fs : State) (cs : List Call) (c : Call)
    → IsRooted (run (set_enabled fs true) cs) × Ends c (call (run (set_enabled fs true) cs) c)
run-Ends fs cs c =
    let v = run-IsRooted cs (set_enabled fs true) (set_enabled-IsRooted fs) in
    (v, call-Ends (run (set_enabled fs true) cs) c v)

-- Giving root up for the user `u` and taking it back with `seteuid` restores the whole state, if the
-- file system identity was the effective one, as every call but `setfsuid` leaves it.
pub seteuid_back :
    (fs : State) (u : ℕ) {dropped : State}
    → fs.fsuid ≡ fs.euid
    → seteuid (some fs) u ≡ ok dropped
    → (dropped.euid ≡ u) × (seteuid (some dropped) fs.euid ≡ ok fs)
unfolding seteuid
seteuid_back fs u e h = ground arith

-- The groups that were set are read back, in a list that has room for them.
pub getgroups-setgroups :
    (fs : State) (l : List ℕ) (size : ℕ) {fs' : State}
    → setgroups (some fs) (some l) (length l) ≡ ok fs'
    → length l ≤ size
    → 0 < size
    → getgroups (some fs') true size ≡ ok (length l, some l)
unfolding setgroups getgroups
getgroups-setgroups fs l size h fits pos = ground (arith, take-length l)
