-- ===== src/Interface.antt =====
-- The state machine of one interface, source/WanManager/wanmgr_interface_sm.c, with the DHCP events
-- that it handles.
pub mod Outside
pub mod Address
pub mod Status
pub mod Transitions
pub mod States
pub mod Thread
pub mod Graph
pub mod Runs
pub mod Leases
pub mod Passes
pub mod System
pub mod Lost
pub mod Tunnel
pub mod Bridge
pub mod Frame
