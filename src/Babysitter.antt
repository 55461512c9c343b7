-- ===== src/Babysitter.antt =====
-- orb/babysitter.py: partial closes and the trailing stop of every open position, by ticket.
pub mod Defs
pub mod Stops
pub mod Tickets
unfoldable pub use Defs.*
