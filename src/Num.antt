-- ===== src/Num.antt =====
-- Python's float, which the program computes with everywhere: an interface with the operations
-- that the program calls and the laws of IEEE 754 comparison that the proofs rely on. Rounding
-- is left to the operations, so nothing here assumes exact arithmetic.
pub mod Interface
pub mod Order
pub mod Fixed
pub use Interface.*
