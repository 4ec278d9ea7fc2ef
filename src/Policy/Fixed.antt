-- ===== src/Policy/Fixed.antt =====
-- Fixed mode: the enabled primary interface with the best priority, whatever its link does.
pub mod Defs
pub mod Sound
pub mod Steps
pub mod Change
