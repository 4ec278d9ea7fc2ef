-- ===== src/Store.antt =====
-- The WAN manager's database, source/WanManager/wanmgr_data.c: the configuration, the table of the
-- interfaces, and one recursive mutex for each.
--
-- A mutex is the number of times that it is held, and whether it is usable: `pthread_mutex_lock` on
-- a recursive mutex returns 0 to its holder while it is initialised, and an error otherwise. A
-- pointer into the table is the index of its entry. A read out of the memory of the table, which C
-- leaves undefined, gives `zero_iface`; no code does it on a well-formed database.
pub mod Defs
pub mod Lock
pub mod Pointer
pub mod Lookup
