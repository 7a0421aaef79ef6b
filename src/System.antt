-- ===== src/System.antt =====
-- What the sources share with the kernel: the fields of `struct stat`, file mode bits, error numbers.
pub mod Bits
pub mod Masks
use bxroot.Prelude.{ℕ}

-- The fields that the sources read or write.
pub record Stat : Type 0 where
  pub st_dev : ℕ
  pub st_ino : ℕ
  pub st_mode : ℕ
  pub st_nlink : ℕ
  pub st_uid : ℕ
  pub st_gid : ℕ

-- `EPERM` and `EACCES`
abbrev pub eperm_no : ℕ
eperm_no = 1

abbrev pub eacces_no : ℕ
eacces_no = 13
