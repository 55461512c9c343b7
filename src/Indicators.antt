-- ===== src/Indicators.antt =====
-- orb/indicators.py: Wilder's ATR, the rate of change and the volume average, one bar at a time.
-- The bound of a deque is its `maxlen`: an append past it drops the oldest element.
pub mod Defs
pub mod Windows
pub mod Atr
pub mod Ready
unfoldable pub use Defs.*
