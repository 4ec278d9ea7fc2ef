-- ===== src/Net.antt =====
-- The checks on the table of the interfaces that the setters of the data model make,
-- source/WanManager/wanmgr_net_utils.c.
pub mod Conflict
pub mod Search
