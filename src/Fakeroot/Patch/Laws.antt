-- ===== src/Fakeroot/Patch/Laws.antt =====
-- What a `stat` shows after a chown and a chmod that were only recorded.
use Prim.Native.Nat.{bit_and, max, min}
use bxroot.Prelude.{
  ℕ, ◌<◌, ◌≡◌, ◌≢◌, refl, ◌∙◌, Bool, true, false, ◌&&◌, Option, none, some, ltb, ◌==◌, ==_iff,
  if◌then◌else◌, all_below, all_below_sound, arith,
}
use bxroot.System.{Stat}
use bxroot.System.Bits.{bit, bit-lt, bit-or, bit-and}
use bxroot.Fakeroot.Types.{State, Record, owner, unset_id}
use bxroot.Fakeroot.Patch.{
  record_merge, updated, owner_delta, mode_delta, mode_low, decide_ids, compose_mode, patch_stat_ex,
  patch_stat_simple,
}

and_left : (a b : Bool) → (a && b) ≡ true → a ≡ true
and_left true b h = refl
and_left false b h = h

and_right : (a b : Bool) → (a && b) ≡ true → b ≡ true
and_right true b h = h
and_right false b h = cc

-- Which of the two masks holds the bit at each place.
masks :
    all_below 16 (λ k.
      bit k 0o7777 == (if ltb k 12 then 1 else 0) && bit k 0o177000 == (if ltb k 9 then 0 else 1))
    ≡ true
unfolding all_below
masks = refl

mask_bits :
    (k : ℕ)
    → k < 16
    → (bit k 0o7777 ≡ (if ltb k 12 then 1 else 0)) × (bit k 0o177000 ≡ (if ltb k 9 then 0 else 1))
mask_bits k h =
    let e =
      all_below_sound 16
        (λ k.
          bit k 0o7777 == (if ltb k 12 then 1 else 0)
          && bit k 0o177000 == (if ltb k 9 then 0 else 1))
        k masks h in
    ((==_iff _ _).0 (and_left _ _ e), (==_iff _ _).0 (and_right _ _ e))

compose_bit :
    (k kernel rec_mode : ℕ)
    → bit k (compose_mode kernel rec_mode)
      ≡ max (min (bit k rec_mode) (bit k 0o7777)) (min (bit k kernel) (bit k 0o177000))
unfolding compose_mode
compose_bit k kernel rec_mode =
    bit-or k (mode_low rec_mode) (bit_and kernel 0o177000)
    ∙ omega (arith, bit-and k rec_mode 0o7777, bit-and k kernel 0o177000)

-- Of a composed mode, the permissions (bits 0 to 8) are the recorded ones, the file type (bits 12 to
-- 15) is the kernel's, and setuid, setgid and sticky (bits 9 to 11) are set if either has them.
pub compose_mode_bits :
    (k kernel rec_mode : ℕ)
    → k < 16
    → bit k (compose_mode kernel rec_mode) ≡ (
        if ltb k 9
        then bit k rec_mode
        else if ltb k 12
        then max (bit k rec_mode) (bit k kernel)
        else bit k kernel)
compose_mode_bits k kernel rec_mode h =
    let (low, high) = mask_bits k h in
    ground (arith, low, high, compose_bit k kernel rec_mode, bit-lt k kernel, bit-lt k rec_mode)

-- A chown of both identities and a chmod, in this order and only recorded: a `stat` shows both
-- identities and the composed mode, whatever was recorded of the file before, and leaves all else.
pub patch_stat-chown_chmod :
    (fs : State) (before : Option Record) (uid gid mode : ℕ) (st : Stat)
    → fs.enabled ≡ true
    → uid ≢ unset_id
    → gid ≢ unset_id
    → patch_stat_ex fs
        (some (updated (some (updated before (owner_delta uid gid))) (mode_delta mode)))
        none
        none
        st
      ≡ record st { st_uid = uid; st_gid = gid; st_mode = compose_mode st.st_mode (mode_low mode) }
unfolding patch_stat_ex updated record_merge owner_delta mode_delta decide_ids
patch_stat-chown_chmod fs none uid gid mode st en u g = ground arith
patch_stat-chown_chmod fs (some before) uid gid mode st en u g = ground arith

-- Where nothing is recorded and the heuristic is by owner, the guest sees its own identities on the
-- files of the real user and group, and the true ones on all others.
pub patch_stat-heuristic :
    (fs : State) (st : Stat)
    → fs.enabled ≡ true
    → fs.heuristic ≡ owner
    → patch_stat_ex fs none none none st
      ≡ patch_stat_simple fs.real_uid fs.euid fs.real_gid fs.egid st
unfolding patch_stat_ex patch_stat_simple decide_ids
patch_stat-heuristic fs st en h = ground arith

-- A chown of the user alone takes the heuristic off the group: a file of the real group, which showed
-- the false group before, shows the real one afterwards.
pub chown_user_loses_group :
    (fs : State) (uid : ℕ) (st : Stat)
    → fs.enabled ≡ true
    → fs.heuristic ≡ owner
    → uid ≢ unset_id
    → st.st_gid ≡ fs.real_gid
    → ((patch_stat_ex fs none none none st).st_gid ≡ fs.egid)
      × ((patch_stat_ex fs (some (updated none (owner_delta uid unset_id))) none none st).st_gid
          ≡ fs.real_gid)
unfolding patch_stat_ex updated owner_delta decide_ids
chown_user_loses_group fs uid st en h u g = (ground arith, ground arith)
