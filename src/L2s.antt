-- ===== src/L2s.antt =====
-- src/l2s/l2s.c: names of emulated hard links. Each child is a part of that file.
pub mod Types
pub mod Path
pub mod Format
pub mod Name
pub mod Decode
pub mod Build
pub mod Count
pub mod Meta
mod Tests
