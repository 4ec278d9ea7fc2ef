-- ===== src/Policy.antt =====
-- The policies that choose the active interface, one thread each: source/WanManager/
-- wanmgr_policy_*_impl.c.
pub mod Control
pub mod Enter
pub mod Write
pub mod Notions
pub mod Fixed
pub mod FixedOnBootup
pub mod Priority
pub mod PriorityOnBootup
