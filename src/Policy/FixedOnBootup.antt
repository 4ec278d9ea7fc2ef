-- ===== src/Policy/FixedOnBootup.antt =====
-- Fixed mode on bootup: as fixed mode, but the interface is chosen once.
pub mod Defs
pub mod Steps
