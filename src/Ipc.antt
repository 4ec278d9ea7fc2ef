-- ===== src/Ipc.antt =====
-- The messages of the DHCP clients on their way to an interface, source/WanManager/wanmgr_ipc.c.
pub mod Slot
pub mod Delivery
