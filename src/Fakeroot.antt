-- ===== src/Fakeroot.antt =====
-- src/runtime/fakeroot.c: the identity that the guest sees, and the table of records. Outside Map a
-- record that a lookup found is an argument.
pub mod Types
pub mod Identity
pub mod Access
pub mod Patch
pub mod Map
pub mod Normalize
mod Tests
