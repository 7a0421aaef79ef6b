-- ===== src/Fakeroot/Access/Laws.antt =====
-- What the access model lets a false root do, and when a failed chown is covered up.
use Prim.Native.Nat.{bit_and, bit_or}
use bxroot.Prelude.{
  ℕ, ◌/◌, ◌%◌, ◌<◌, ◌≡◌, ◌↔◌, ◌⊎◌, refl, sym, Bool, true, false, not, ◌&&◌, ◌||◌, some, ◌==◌,
  if◌then◌else◌, all_below, all_below_sound, arith,
}
use bxroot.System.{Stat, eperm_no, eacces_no}
use bxroot.System.Bits.{and_none}
use bxroot.Fakeroot.Types.{granted, denied, fake_ok, State, Record}
use bxroot.Fakeroot.Access.{permission_bits, asks, mask_of, check_access, gate_chown, chown_action}

abbrev same : Bool → Bool → Bool
same true b = b
same false b = not b

same_eq : (a b : Bool) → same a b ≡ true → a ≡ b
same_eq true b h = sym h
same_eq false true h = cc
same_eq false false h = refl

-- Over three permission bits and three requests.
root_table :
    all_below 8
      (λ o. all_below 8 (λ m. same (bit_and (bit_or o 6 % 8) m == m) (m % 2 == 0 || o % 2 == 1)))
    ≡ true
unfolding all_below
root_table = refl

root_lem :
    (o m : ℕ) → o < 8 → m < 8 → (bit_and (bit_or o 6 % 8) m == m) ≡ (m % 2 == 0 || o % 2 == 1)
root_lem o m ho hm = same_eq _ _ (
    all_below_sound 8 (λ m. same (bit_and (bit_or o 6 % 8) m == m) (m % 2 == 0 || o % 2 == 1)) m
      (all_below_sound 8
        (λ o. all_below 8 (λ m. same (bit_and (bit_or o 6 % 8) m == m) (m % 2 == 0 || o % 2 == 1)))
        o root_table ho)
      hm)

mask_lt : (mode : ℕ) → mask_of mode < 8
mask_lt mode = ground arith

mask_odd : (mode : ℕ) → (mask_of mode % 2 == 0) ≡ not (asks mode 1)
mask_odd mode = ground arith

-- The false root may read and write every file, and execute one exactly when its owner may.
pub check_access-root :
    (st : Stat) (mode : ℕ)
    → check_access (some st) mode true true
      ≡ (if asks mode 1 && not (asks st.st_mode 64) then denied else granted)
unfolding check_access permission_bits
check_access-root st mode =
    rw (and_none mode, root_lem (st.st_mode / 64 % 8) (mask_of mode) (omega arith) (mask_lt mode))
      (ground (arith, mask_odd mode))

-- A failed chown is covered up exactly when it failed for want of privilege and the model allows it:
-- to the false root, or to the recorded owner of the file.
pub chown_action-gate_chown :
    (fs : State) (cur : Record) (real_ok : Bool) (real_errno uid gid : ℕ)
    → (chown_action real_ok real_errno (gate_chown (some fs) (some cur) uid gid).2 ≡ fake_ok) ↔ (
        (real_ok ≡ false)
        × ((real_errno ≡ eperm_no) ⊎ (real_errno ≡ eacces_no))
        × ((fs.euid ≡ 0) ⊎ (fs.euid ≡ cur.uid)))
unfolding chown_action gate_chown
chown_action-gate_chown fs cur real_ok real_errno uid gid = ground arith
