-- ===== src/Policy/PriorityOnBootup.antt =====
-- Primary priority on bootup: the best interface with a link, chosen once.
pub mod Defs
pub mod Steps
pub mod Select
