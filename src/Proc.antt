-- ===== src/Proc.antt =====
-- src/proc/proc.c: the ledger of processes, and the parts that decide about signals, arguments and
-- the environment.
pub mod Kill
pub mod Ledger
pub mod Args
pub mod Env
pub mod Search
mod Tests
