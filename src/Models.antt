-- ===== src/Models.antt =====
-- orb/models.py: the data that every component of the ORB engine shares, candle validation and
-- configuration validation.
pub mod Enums
pub mod Bars
pub mod Config
pub mod Records
pub mod Sanity
pub use Enums.*
unfoldable pub use Bars.*
unfoldable pub use Config.*
pub use Records.*
