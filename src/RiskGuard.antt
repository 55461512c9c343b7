-- ===== src/RiskGuard.antt =====
-- orb/riskguard.py: the daily loss breaker, the consecutive loss guard and the spike detector.
pub mod Defs
pub mod Breaker
pub mod Streak
pub mod Spikes
unfoldable pub use Defs.*
