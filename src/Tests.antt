-- ===== src/Tests.antt =====
-- The theorems at work on a gateway with three interfaces.
pub mod Gateway
pub mod Choice
pub mod Priority
pub mod Fixed
pub mod Bootup
pub mod Selecting
pub mod Fallback
pub mod Home
pub mod Machine
pub mod Lease
pub mod Access
pub mod Clients
pub mod Options
