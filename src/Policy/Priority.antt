-- ===== src/Policy/Priority.antt =====
-- Primary priority: the best primary interface with a link, or else the best other one.
pub mod Defs
pub mod Links
pub mod States
pub mod Sound
pub mod Exclusive
pub mod Steps
pub mod Disturb
pub mod Connect
pub mod Fallback
pub mod Failover
