-- ===== src/Quarters.antt =====
-- The quarters of the trading day of orb/quarters.py.
pub mod Defs
pub mod Opens
