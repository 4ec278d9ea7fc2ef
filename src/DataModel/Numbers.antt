-- ===== src/DataModel/Numbers.antt =====
-- The numeric parameters of X_RDK_WanManager.CPEInterface.{i}.Wan and of its Phy:
-- source/TR-181/middle_layer_src/wanmgr_dml_iface_apis.c. A priority and a type are checked against the
-- other interfaces; the lock is given back for the check and taken again for the write.
use rdk_wanmanager.Common.{
  ℕ, Bool, true, false, Option, none, some, if◌then◌else◌, ℤ, to_int, ◌%◌, u32_mod,
}
use rdk_wanmanager.Dml.{LinkStatus, PhyStatus, IfaceType, Iface}
use rdk_wanmanager.Store.Defs.{Database, load, store, iface_data_release}
use rdk_wanmanager.Net.Conflict.{check_given_priority_exists, check_given_type_exists}
use rdk_wanmanager.DataModel.Config.{access, entry_count, read_at, write_at}

pub data IntParam : Type 0 where
  priority unknown : IntParam

abbrev pub with_priority : ℤ → Iface → Iface
with_priority v f = record f { wan = record f.wan { priority = v } }

abbrev pub with_type : IfaceType → Iface → Iface
with_type t f = record f { wan = record f.wan { type = t } }

-- The second lock, after the check; the write goes through the pointer `p` of the first one.
unfoldable pub write_checked : (Iface → Iface) → ℕ → Database × Option ℕ → Database × Bool
write_checked g p (db, none) = (db, false)
write_checked g p (held, some q) = (iface_data_release (store held p (g (load held p))), true)

unfoldable pub set_int_at : Option ℕ → IntParam → ℤ → Database × Option ℕ → Database × Bool
unfolding entry_count write_checked access
set_int_at e param v (db, none) = (db, false)
set_int_at e IntParam.unknown v (held, some p) = (iface_data_release held, false)
set_int_at e IntParam.priority v (held, some p) =
    let f : Iface = load held p in
    let (db1, total) = entry_count (iface_data_release held) in
    let (db2, exists, success) =
      check_given_priority_exists (to_int f.iface_idx) total v f.wan.type db1 false in
    if success
    then (if exists then (db2, false) else write_checked (with_priority v) p (access db2 e))
    else (db2, false)

-- `WanIfCfg_SetParamIntValue`.
unfoldable pub set_int : Database → Option ℕ → IntParam → ℤ → Database × Bool
unfolding set_int_at access
set_int db e param v = set_int_at e param v (access db e)

-- What `WanIfCfg_GetParamIntValue` writes to `*pInt`.
unfoldable pub get_int : Database → Option ℕ → IntParam → Database × Option ℤ
unfolding access read_at
get_int db e IntParam.priority = read_at (λ f. some f.wan.priority) (access db e)
get_int db e IntParam.unknown = read_at (λ f. none) (access db e)

-- A parameter of `WanIfCfg_SetParamUlongValue`, with its value.
pub data UlongSetting : Type 0 where
  selection_timeout : ℕ → UlongSetting
  type : IfaceType → UlongSetting
  link_status : LinkStatus → UlongSetting
  unknown : UlongSetting

-- The type is written after the check. If the check does not succeed, the lock that has been given
-- back is given back once more.
unfoldable pub set_type_at : Option ℕ → IfaceType → Database → ℕ → Database × Bool
unfolding entry_count write_checked access
set_type_at e t held p =
    let f : Iface = load held p in
    let (db1, total) = entry_count (iface_data_release held) in
    let (db2, exists, success) =
      check_given_type_exists (to_int f.iface_idx) total t f.wan.priority db1 false in
    if success
    then (if exists then (db2, false) else write_checked (with_type t) p (access db2 e))
    else (iface_data_release db2, false)

unfoldable pub set_ulong_at : Option ℕ → UlongSetting → Database × Option ℕ → Database × Bool
unfolding set_type_at
set_ulong_at e u (db, none) = (db, false)
set_ulong_at e (UlongSetting.selection_timeout n) (held, some p) =
    let f : Iface = load held p in
    (
      iface_data_release
          (store held p (record f { wan = record f.wan { selection_timeout = n % u32_mod } })),
      true,
    )
set_ulong_at e (UlongSetting.type t) (held, some p) = set_type_at e t held p
set_ulong_at e (UlongSetting.link_status l) (held, some p) =
    let f : Iface = load held p in
    (iface_data_release (store held p (record f { wan = record f.wan { link_status = l } })), true)
set_ulong_at e UlongSetting.unknown (held, some p) = (iface_data_release held, false)

-- `WanIfCfg_SetParamUlongValue`.
unfoldable pub set_ulong : Database → Option ℕ → UlongSetting → Database × Bool
unfolding set_ulong_at access
set_ulong db e u = set_ulong_at e u (access db e)

pub data PhySetting : Type 0 where
  status : PhyStatus → PhySetting
  unknown : PhySetting

abbrev pub with_phy : PhySetting → Iface → Option Iface
with_phy (PhySetting.status s) f = some (record f { phy = record f.phy { status = s } })
with_phy PhySetting.unknown f = none

-- `WanIfPhy_SetParamUlongValue`.
unfoldable pub set_phy : Database → Option ℕ → PhySetting → Database × Bool
unfolding access write_at
set_phy db e u = write_at (with_phy u) (access db e)
