-- ===== src/SvpEngine.antt =====
-- The strategy on the session volume profile, orb/svp/strategy.py and orb/svp/config.py.
pub mod Config
pub mod State
pub mod Filters
pub mod Setups
pub mod Step
pub mod Triggers
pub mod Detect
pub mod Outcomes
pub mod Invariant
pub mod Runs
