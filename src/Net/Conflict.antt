-- ===== src/Net/Conflict.antt =====
-- `WanManager_CheckGivenPriorityExists` and `WanManager_CheckGivenTypeExists` of
-- source/WanManager/wanmgr_net_utils.c: does another interface have this priority and this type?
use rdk_wanmanager.Common.{
  ℕ, zero, suc, ◌+◌, Bool, true, false, not, ◌&&◌, Option, none, some, if◌then◌else◌, ◌==◌, ℤ, pos,
  eqb_ℤ,
}
use rdk_wanmanager.Dml.{IfaceType, Iface}
use rdk_wanmanager.Store.Defs.{Database, load, get_iface_data_locked, iface_data_release}

-- The comparison of two values of `DML_WAN_IFACE_TYPE`.
abbrev pub eqb_type : IfaceType → IfaceType → Bool
eqb_type IfaceType.unconfigured IfaceType.unconfigured = true
eqb_type IfaceType.primary IfaceType.primary = true
eqb_type IfaceType.secondary IfaceType.secondary = true
eqb_type IfaceType.unconfigured IfaceType.primary = false
eqb_type IfaceType.unconfigured IfaceType.secondary = false
eqb_type IfaceType.primary IfaceType.unconfigured = false
eqb_type IfaceType.primary IfaceType.secondary = false
eqb_type IfaceType.secondary IfaceType.unconfigured = false
eqb_type IfaceType.secondary IfaceType.primary = false

-- The nested tests of the two functions.
abbrev pub priority_then_type : ℤ → IfaceType → Iface → Bool
priority_then_type priority type f = eqb_ℤ f.wan.priority priority && eqb_type f.wan.type type

abbrev pub type_then_priority : IfaceType → ℤ → Iface → Bool
type_then_priority type priority f = eqb_type f.wan.type type && eqb_ℤ f.wan.priority priority

-- One round of the loop: whether it ends the search with TRUE.
unfoldable pub conflict_entry : (Iface → Bool) → ℤ → ℕ → Database × Option ℕ → Database × Bool
conflict_entry hit if_index i (db, none) = (db, false)
conflict_entry hit if_index i (db, some p) =
    (iface_data_release db, not (eqb_ℤ (pos i) if_index) && hit (load db p))

-- The loop, with `*Status`.
unfoldable pub conflict_loop : (Iface → Bool) → ℤ → ℕ → ℕ → Database → Bool → Database × Bool
unfolding conflict_entry
conflict_loop hit if_index zero i db status = (db, status)
conflict_loop hit if_index (suc rounds) i db status =
    let (db', found) = conflict_entry hit if_index i (get_iface_data_locked db i) in
    let rest = conflict_loop hit if_index rounds (i + 1) db' status in
    if found then (db', true) else rest

-- What both functions return: the database, `*Status`, and whether it is `ANSC_STATUS_SUCCESS`.
unfoldable pub check_conflict : (Iface → Bool) → ℤ → ℕ → Database → Bool → Database × Bool × Bool
check_conflict hit if_index total db status =
    if total == 0
    then (db, status, false)
    else (let (db', s) = conflict_loop hit if_index total 0 db status in (db', s, true))

unfoldable pub check_given_priority_exists :
    ℤ → ℕ → ℤ → IfaceType → Database → Bool → Database × Bool × Bool
unfolding check_conflict
check_given_priority_exists if_index total priority type db status =
    check_conflict (priority_then_type priority type) if_index total db status

unfoldable pub check_given_type_exists :
    ℤ → ℕ → IfaceType → ℤ → Database → Bool → Database × Bool × Bool
unfolding check_conflict
check_given_type_exists if_index total type priority db status =
    check_conflict (type_then_priority type priority) if_index total db status
