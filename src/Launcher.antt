-- ===== src/Launcher.antt =====
-- src/launcher/launcher.c: the bind options, and the variable that hands them to the run time.
pub mod Binds
mod Tests
