-- ===== src/ExecGuard.antt =====
-- The execution guards of orb/execguard.py.
pub mod Defs
pub mod Windows
pub mod Fills
