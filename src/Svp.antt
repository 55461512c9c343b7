-- ===== src/Svp.antt =====
-- The parts of orb/svp that stand by themselves.
pub mod Sizing
pub mod Swings
