-- ===== src/Engine/Sound.antt =====
-- Every method keeps the invariant of the engine and raises no error of the program.
mod Exits
mod Ranges
mod Bars
pub use Exits.*
pub use Bars.*
