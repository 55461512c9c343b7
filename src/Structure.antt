-- ===== src/Structure.antt =====
-- orb/smc/structure.py: swings and breaks of structure, one bar at a time.
pub mod Defs
pub mod Peaks
pub mod Swings
pub mod Breaks
unfoldable pub use Defs.*
