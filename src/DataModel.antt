-- ===== src/DataModel.antt =====
-- The data model of the WAN interfaces, which the message bus reads and writes.
pub mod Config
pub mod Numbers
pub mod RoundTrip
pub mod Distinct
pub mod Setters
