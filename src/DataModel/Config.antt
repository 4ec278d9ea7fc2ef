-- ===== src/DataModel/Config.antt =====
-- The Boolean parameters of X_RDK_WanManager.CPEInterface.{i}.Wan and of its Validation:
-- source/TR-181/middle_layer_src/wanmgr_dml_iface_apis.c. The name of a parameter is a constructor, with
-- `unknown` for any name that the code does not compare with; a value of an enumeration is one of its
-- enumerators. The handle is the pointer to an entry of the table, `none` for NULL.
use rdk_wanmanager.Common.{ℕ, Bool, true, false, Option, none, some}
use rdk_wanmanager.Dml.{Iface, Wan, Validation}
use rdk_wanmanager.Store.Defs.{
  Database, load, store, get_iface_ctrl_locked, iface_ctrl_release, get_iface_data_locked,
  iface_data_release,
}

-- The locked interface of a handle: by the index that its entry holds.
unfoldable pub access : Database → Option ℕ → Database × Option ℕ
access db none = (db, none)
access db (some e) = get_iface_data_locked db (load db e).iface_idx

-- `WanIf_GetEntryCount`.
unfoldable pub entry_count_of : Database → Option Database → Database × ℕ
entry_count_of db none = (db, 0)
entry_count_of db (some held) = (iface_ctrl_release held, held.total)

unfoldable pub entry_count : Database → Database × ℕ
unfolding entry_count_of
entry_count db = entry_count_of db (get_iface_ctrl_locked db)

-- A read under the lock, and a write under it.
unfoldable pub read_at :
    {A : Type 0} → (Iface → Option A) → Database × Option ℕ → Database × Option A
read_at g (db, none) = (db, none)
read_at g (held, some p) = (iface_data_release held, g (load held p))

unfoldable pub write_new : Database → ℕ → Option Iface → Database × Bool
write_new held p none = (iface_data_release held, false)
write_new held p (some f) = (iface_data_release (store held p f), true)

unfoldable pub write_at : (Iface → Option Iface) → Database × Option ℕ → Database × Bool
unfolding write_new
write_at g (db, none) = (db, false)
write_at g (held, some p) = write_new held p (g (load held p))

pub data BoolParam : Type 0 where
  enable refresh active_link enable_dslite enable_ipoe enable_mapt unknown : BoolParam

-- What `WanIfCfg_GetParamBoolValue` writes to `*pBool`.
abbrev pub bool_value : BoolParam → Iface → Option Bool
bool_value BoolParam.enable f = some f.wan.enable
bool_value BoolParam.refresh f = some f.wan.refresh
bool_value BoolParam.active_link f = some f.wan.active_link
bool_value BoolParam.enable_dslite f = some f.wan.enable_dslite
bool_value BoolParam.enable_ipoe f = some f.wan.enable_ipoe
bool_value BoolParam.enable_mapt f = some f.wan.enable_mapt
bool_value BoolParam.unknown f = none

abbrev with_wan : Iface → Wan → Option Iface
with_wan f w = some (record f { wan = w })

-- The assignments of `WanIfCfg_SetParamBoolValue`.
abbrev pub with_bool : BoolParam → Bool → Iface → Option Iface
with_bool BoolParam.enable b f = with_wan f (record f.wan { enable = b })
with_bool BoolParam.refresh b f = with_wan f (record f.wan { refresh = b })
with_bool BoolParam.active_link b f = with_wan f (record f.wan { active_link = b })
with_bool BoolParam.enable_dslite b f = with_wan f (record f.wan { enable_dslite = b })
with_bool BoolParam.enable_ipoe b f = with_wan f (record f.wan { enable_ipoe = b })
with_bool BoolParam.enable_mapt b f = with_wan f (record f.wan { enable_mapt = b })
with_bool BoolParam.unknown b f = none

-- `WanIfCfg_GetParamBoolValue` and `WanIfCfg_SetParamBoolValue`.
unfoldable pub get_bool : Database → Option ℕ → BoolParam → Database × Option Bool
unfolding access read_at
get_bool db e p = read_at (bool_value p) (access db e)

unfoldable pub set_bool : Database → Option ℕ → BoolParam → Bool → Database × Bool
unfolding access write_at
set_bool db e p b = write_at (with_bool p b) (access db e)

pub data ValidationParam : Type 0 where
  discover_offer solicit_advertise rs_ra padi_pado unknown : ValidationParam

abbrev pub validation_value : ValidationParam → Iface → Option Bool
validation_value ValidationParam.discover_offer f = some f.wan.validation.discover_offer
validation_value ValidationParam.solicit_advertise f = some f.wan.validation.solicit_advertise
validation_value ValidationParam.rs_ra f = some f.wan.validation.rs_ra
validation_value ValidationParam.padi_pado f = some f.wan.validation.padi_pado
validation_value ValidationParam.unknown f = none

abbrev with_checks : Iface → Validation → Option Iface
with_checks f v = some (record f { wan = record f.wan { validation = v } })

abbrev pub with_validation : ValidationParam → Bool → Iface → Option Iface
with_validation ValidationParam.discover_offer b f =
    with_checks f (record f.wan.validation { discover_offer = b })
with_validation ValidationParam.solicit_advertise b f =
    with_checks f (record f.wan.validation { solicit_advertise = b })
with_validation ValidationParam.rs_ra b f = with_checks f (record f.wan.validation { rs_ra = b })
with_validation ValidationParam.padi_pado b f =
    with_checks f (record f.wan.validation { padi_pado = b })
with_validation ValidationParam.unknown b f = none

-- `WanIfValidation_GetParamBoolValue` and `WanIfValidation_SetParamBoolValue`.
unfoldable pub get_validation : Database → Option ℕ → ValidationParam → Database × Option Bool
unfolding access read_at
get_validation db e p = read_at (validation_value p) (access db e)

unfoldable pub set_validation : Database → Option ℕ → ValidationParam → Bool → Database × Bool
unfolding access write_at
set_validation db e p b = write_at (with_validation p b) (access db e)
