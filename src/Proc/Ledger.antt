-- ===== src/Proc/Ledger.antt =====
-- proc.c, §1: the ledger of processes, a hash table with open addressing and tombstones that grows, and
-- that forgets only processes that were reaped.
pub mod Types
pub mod Ops
pub mod Access
pub mod Probing
pub mod Valid
pub mod Lookup
pub mod Growing
pub mod Evicting
pub mod Room
pub mod Putting
pub mod Reaping
pub mod Shown
pub mod Creating
mod Tests
