-- ===== src/Fakeroot/Map.antt =====
-- fakeroot.c, §2: the table of records, a hash table with open addressing, tombstones and the removal
-- of the records that were not used for longest. Keys are in the child Keys, and the operations in Store, Upkeep and Ops.
pub mod Keys
pub mod Store
pub mod Upkeep
pub mod Ops
pub mod Probing
pub mod Valid
pub mod Lookup
pub mod Compacting
pub mod Oldest
pub mod Evicting
pub mod Ages
pub mod Room
pub mod Putting
pub mod Creating
pub mod Updating
pub mod Answers
pub mod Reached
mod Tests
