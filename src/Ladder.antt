-- ===== src/Ladder.antt =====
-- The ladder exit manager of orb/smc/exits.py.
pub mod Defs
pub mod Rungs
pub mod Trades
pub mod Lifetime
pub mod Distances
pub mod Stops
