-- ===== src/Proc/Ledger/Types.antt =====
-- proc.c and proc.h, §1: what the ledger of processes holds.
use Prim.Native.Nat.{bit_xor}
use bxroot.Prelude.{ℕ, ◌*◌, ◌/◌, ◌%◌, ◌^◌, ◌≡◌, ◌↔◌, Bool, true, false, ◌&&◌, ◌==◌, ==_iff, arith}
use bxroot.Proc.Kill.{EntryKind, pid_entry, pgid_entry, Life}
use bxroot.Table.{Key}

-- `PX_ENOENT` to `PX_EINVAL`
pub data PxCode : Type 0 where
  enoent enomem efull einval : PxCode

-- The part of `px_procinfo` that an entry is found by. No process number is negative here.
pub record EntryKey : Type 0 where
  pub pid : ℕ
  pub kind : EntryKind

-- The rest of `px_procinfo`.
pub record Entry : Type 0 where
  pub ppid : ℕ
  pub life : Life
  pub tag : ℕ

abbrev pub tag_fork : ℕ
tag_fork = 1

abbrev pub tag_spawn : ℕ
tag_spawn = 2

abbrev pub default_slots : ℕ
default_slots = 256

abbrev pub max_slots : ℕ
max_slots = 2 ^ 22

abbrev pub load_percent : ℕ
load_percent = 75

abbrev pub evict_batch : ℕ
evict_batch = 16

abbrev kind_number : EntryKind → ℕ
kind_number pid_entry = 0
kind_number pgid_entry = 1

abbrev u64 : ℕ → ℕ
u64 n = n % 2 ^ 64

abbrev multiplied : ℕ → ℕ → ℕ
multiplied x factor = u64 (x * factor)

unfoldable pub hash_pid : ℕ → EntryKind → ℕ
hash_pid pid kind =
    let x = bit_xor (pid % 2 ^ 32) (u64 (kind_number kind * 0x9E3779B97F4A7C15)) in
    let y = multiplied x 0x9E3779B97F4A7C15 in
    let z = multiplied (bit_xor y (y / 2 ^ 29)) 0xBF58476D1CE4E5B9 in bit_xor z (z / 2 ^ 32)

unfoldable pub same_kind : EntryKind → EntryKind → Bool
same_kind pid_entry pid_entry = true
same_kind pgid_entry pgid_entry = true
same_kind pid_entry pgid_entry = false
same_kind pgid_entry pid_entry = false

pub same_kind_iff : (a b : EntryKind) → (same_kind a b ≡ true) ↔ (a ≡ b)
unfolding same_kind
same_kind_iff pid_entry pid_entry = ground arith
same_kind_iff pgid_entry pgid_entry = ground arith
same_kind_iff pid_entry pgid_entry = ground arith
same_kind_iff pgid_entry pid_entry = ground arith

-- `s->info.pid == pid && (unsigned)s->info.kind == kind`
unfoldable pub same_entry : EntryKey → EntryKey → Bool
same_entry a b = a.pid == b.pid && same_kind a.kind b.kind

pub same_entry_iff : (a b : EntryKey) → (same_entry a b ≡ true) ↔ (a ≡ b)
unfolding same_entry
same_entry_iff a b = ground (arith, ==_iff a.pid b.pid, same_kind_iff a.kind b.kind)

instance abbrev pub entry_key : Key EntryKey
entry_key = record {
  same = same_entry;
  same_iff = same_entry_iff;
  hash = λ k. hash_pid k.pid k.kind;
}
