-- ===== src/Smc.antt =====
-- The configuration of the SMC strategy.
pub mod Config
pub mod Levels
pub mod Blocks
pub mod Poi
pub mod Tidy
