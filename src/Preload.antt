-- ===== src/Preload.antt =====
-- src/runtime/preload.c: the guest's paths, where they lie on the host, and back.
pub mod Config
pub mod Binds
pub mod Reverse
pub mod Termux
pub mod Magic
pub mod Dots
pub mod Translate
pub mod Guard
mod Tests
