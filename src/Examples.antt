-- ===== src/Examples.antt =====
-- The theorems at concrete inputs.
pub mod Machine
pub mod Texts
pub mod Messages
pub mod Lookups
pub mod Sends
pub mod Exchanges
pub mod Published
pub mod Deliveries
pub mod Inboxes
pub mod Listens
pub mod Commands
