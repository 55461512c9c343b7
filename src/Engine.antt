-- ===== src/Engine.antt =====
-- orb/engine.py: the ORB state machine.
pub mod State
pub mod Exit
pub mod Entry
pub mod Step
pub mod Invariant
pub mod Sound
pub mod Runs
pub mod Trail
pub mod Stops
pub mod Entries
