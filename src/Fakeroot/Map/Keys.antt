-- ===== src/Fakeroot/Map/Keys.antt =====
-- fakeroot.c: the keys of the table of records, their comparison and their hash.
use Prim.Native.Nat.{bit_xor}
use bxroot.Prelude.{
  ℕ, zero, suc, ◌+◌, ◌*◌, ◌/◌, ◌%◌, ◌^◌, ◌≡◌, ◌↔◌, Bool, true, false, ◌&&◌, Option, none, some,
  List, [], ◌∷◌, Str, str_eq, str_eq_iff, length, leb, ◌==◌, if◌then◌else◌, Result, ok, fail, arith,
}
use bxroot.Fakeroot.Types.{FrCode, einval, enametoolong, enomem}
use bxroot.Table.{Key}

-- `fr_key`. Every caller has checked that a descriptor is not negative.
pub data FrKey : Type 0 where
  path_key : Str → FrKey
  inode_key : ℕ → ℕ → FrKey
  fd_key : ℕ → FrKey

abbrev pub fr_path_max : ℕ
fr_path_max = 4096

abbrev u64 : ℕ → ℕ
u64 n = n % 2 ^ 64

-- The bytes of an unsigned number of this width, least first.
pub le_bytes : ℕ → ℕ → List ℕ
le_bytes zero n = []
le_bytes (suc width) n = n % 256 ∷ le_bytes width (n / 256)

pub hash_from : ℕ → List ℕ → ℕ
hash_from h [] = h
hash_from h (b ∷ bs) = hash_from (u64 (bit_xor h b * 1099511628211)) bs

unfoldable pub hash_bytes : List ℕ → ℕ
unfolding hash_from
hash_bytes bs = hash_from 1469598103934665603 bs

abbrev content_hash : FrKey → ℕ
content_hash (path_key p) = hash_bytes p
content_hash (inode_key dev ino) =
    let h = hash_bytes (le_bytes 8 dev) in
    bit_xor h (u64 (hash_bytes (le_bytes 8 ino) + 0x9e3779b97f4a7c15 + u64 (h * 64) + h / 4))
content_hash (fd_key fd) = hash_bytes (le_bytes 4 fd)

abbrev kind_number : FrKey → ℕ
kind_number (path_key p) = 0
kind_number (inode_key dev ino) = 1
kind_number (fd_key fd) = 2

unfoldable pub key_hash : FrKey → ℕ
unfolding hash_bytes le_bytes
key_hash k = bit_xor (content_hash k) (u64 (kind_number k * 0xff51afd7ed558ccd))

unfoldable pub key_equal : FrKey → FrKey → Bool
key_equal (path_key p) (path_key q) = str_eq p q
key_equal (inode_key dev ino) (inode_key dev' ino') = dev == dev' && ino == ino'
key_equal (fd_key a) (fd_key b) = a == b
key_equal (path_key p) (inode_key dev ino) = false
key_equal (path_key p) (fd_key b) = false
key_equal (inode_key dev ino) (path_key q) = false
key_equal (inode_key dev ino) (fd_key b) = false
key_equal (fd_key a) (path_key q) = false
key_equal (fd_key a) (inode_key dev ino) = false

pub key_equal_iff : (a b : FrKey) → (key_equal a b ≡ true) ↔ (a ≡ b)
unfolding key_equal
key_equal_iff (path_key p) (path_key q) = ground (arith, str_eq_iff p q)
key_equal_iff (inode_key dev ino) (inode_key dev' ino') = ground arith
key_equal_iff (fd_key a) (fd_key b) = ground arith
key_equal_iff (path_key p) (inode_key dev ino) = ground arith
key_equal_iff (path_key p) (fd_key b) = ground arith
key_equal_iff (inode_key dev ino) (path_key q) = ground arith
key_equal_iff (inode_key dev ino) (fd_key b) = ground arith
key_equal_iff (fd_key a) (path_key q) = ground arith
key_equal_iff (fd_key a) (inode_key dev ino) = ground arith

instance abbrev pub fr_key : Key FrKey
fr_key = record { same = key_equal; same_iff = key_equal_iff; hash = key_hash }

-- `alloc_ok` says that `malloc` gives the copy of the path.
unfoldable pub key_of_path : Bool → Option Str → Result FrCode FrKey
key_of_path alloc_ok none = fail einval
key_of_path alloc_ok (some []) = fail einval
key_of_path alloc_ok (some (c ∷ p)) =
    if leb fr_path_max (length (c ∷ p))
    then fail enametoolong
    else if alloc_ok
    then ok (path_key (c ∷ p))
    else fail enomem
