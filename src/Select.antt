-- ===== src/Select.antt =====
-- The choice of the interface that carries the WAN connection.
pub mod Defs
pub mod Scan
pub mod Choice
