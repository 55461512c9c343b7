-- ===== src/SmcEngine.antt =====
-- The strategy of smart money concepts, orb/smc/strategy.py.
pub mod State
pub mod Checks
pub mod Entry
pub mod Step
pub mod Invariant
pub mod Decisions
pub mod Stages
pub mod Runs
pub mod Counts
pub mod Days
pub mod Setups
