-- ===== src/Session.antt =====
-- orb/session.py: the zone of a bar and the session that it belongs to. Instants are counted in
-- microseconds since the start of the calendar, and a session is named by the day of its opening:
-- an ISO date and a day number name the same thing.
pub mod Defs
pub mod Zones
unfoldable pub use Defs.*
