-- ===== src/Mtf.antt =====
-- orb/smc/mtf.py: one-minute candles folded into a higher timeframe.
pub mod Defs
pub mod Fold
unfoldable pub use Defs.*
