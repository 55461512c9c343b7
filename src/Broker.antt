-- ===== src/Broker.antt =====
-- The MetaTrader 5 adapter, orb/broker/mt5.py, and its table of return codes,
-- orb/broker/retcodes.py.
pub mod Retcodes
pub mod Terminal
pub mod Send
pub mod Once
pub mod Orders
pub mod Sent
pub mod Entries
pub mod Requests
pub mod Volumes
pub mod Single
pub mod Own
pub mod Attempts
pub mod Eventually
pub mod Access
