-- ===== src/Policy/Control.antt =====
-- What the four policies share: the policy controller of source/WanManager/wanmgr_controller.c and
-- .h, the effects on the rest of the system, and the body of the policy loops.
--
-- A pass of a loop is taken as one step; the other threads act between the passes. The pointer to
-- the policy controller is never NULL, since the loops pass the address of a local variable.
use rdk_wanmanager.Common.{
  ℕ, Bool, false, Option, none, some, List, ◌∷◌, ℤ, minus_one, to_int, to_uint,
}
use rdk_wanmanager.Dml.{Iface, WanStatus}
use rdk_wanmanager.Store.Defs.{
  Database, load, store, get_config_data_locked, config_data_release, get_iface_data_locked,
  iface_data_release,
}

-- `eWanMgrPlatformStatus`.
pub data PlatformStatus : Type 0 where
  disconnected link_up link_v6up_v4down link_v4up_v6down connecting connected : PlatformStatus

-- `WanMgr_IfaceSM_Controller_t`.
pub record SmController : Type 0 where
  pub wan_enable : Bool
  pub interface_idx : ℤ
  pub ihc_pid : ℕ
  pub iface_data : Option ℕ

-- `WanMgr_IfaceSM_Init`.
unfoldable pub iface_sm_init : ℕ → SmController
iface_sm_init idx = record {
  wan_enable = false;
  interface_idx = to_int idx;
  ihc_pid = 0;
  iface_data = none;
}

-- `WanMgr_UpdatePlatformStatus` and `WanMgr_StartInterfaceStateMachine`. The latter is handed a
-- copy of a local variable, `none` if nothing has been written to it.
pub data Effect : Type 0 where
  platform_status : PlatformStatus → Effect
  start_sm : Option SmController → Effect

-- The database, and the effects so far, the newest first.
pub record World : Type 0 where
  pub db : Database
  pub trace : List Effect

-- `WanMgr_Policy_Controller_t`; `active_data` is `pWanActiveIfaceData`.
pub record Controller : Type 0 where
  pub wan_enable : Bool
  pub active_idx : ℤ
  pub secondary_idx : ℤ
  pub active_data : Option ℕ

-- `WanMgr_Controller_PolicyCtrlInit`.
unfoldable pub policy_ctrl_init : Controller
policy_ctrl_init = record {
  wan_enable = false;
  active_idx = minus_one;
  secondary_idx = minus_one;
  active_data = none;
}

abbrev pub emit : World → Effect → World
emit w e = record w { trace = e ∷ w.trace }

abbrev pub with_active_link : Iface → Bool → Iface
with_active_link f b = record f { wan = record f.wan { active_link = b } }

abbrev pub with_status : Iface → WanStatus → Iface
with_status f s = record f { wan = record f.wan { status = s } }

-- `pInterface->Wan.ActiveLink = b` and `pInterface->Wan.Status = s` through a pointer.
abbrev pub set_active_link : World → ℕ → Bool → World
set_active_link w p b = record w { db = store w.db p (with_active_link (load w.db p) b) }

abbrev pub set_status : World → ℕ → WanStatus → World
set_status w p s = record w { db = store w.db p (with_status (load w.db p) s) }

-- What a state or a transition of a policy returns.
pub record Outcome (S : Type 0) : Type 0 where
  pub world : World
  pub ctrl : Controller
  pub state : S

-- A policy thread at the head of its loop; `running` is `bRunning`.
pub record Machine (S : Type 0) : Type 0 where
  pub world : World
  pub ctrl : Controller
  pub state : S
  pub running : Bool

-- "Update Wan config".
read_config : Controller → Database → Option Database → Database × Controller
read_config c db none = (db, c)
read_config c db (some held) =
    (config_data_release held, record c { wan_enable = held.config.enable })

unfoldable pub update_config : World → Controller → World × Controller
unfolding read_config
update_config w c =
    let (db, c') = read_config c w.db (get_config_data_locked w.db) in (record w { db = db }, c')

-- "Lock Iface Data".
unfoldable pub lock_active : World → Controller → World × Controller
lock_active w c =
    let (db, p) = get_iface_data_locked w.db (to_uint c.active_idx) in
    (record w { db = db }, record c { active_data = p })

-- "Release Lock Iface Data".
unfoldable pub release_active : World → Option ℕ → World
release_active w none = w
release_active w (some p) = record w { db = iface_data_release w.db }

-- The part of a pass before `switch`.
unfoldable pub enter : World → Controller → World × Controller
enter w c = let (w', c') = update_config w c in lock_active w' c'

module _ {S : Type 0} where
  -- The part after it; `keep` is false in the `default` case.
  unfoldable pub leave : Bool → Outcome S → Machine S
  unfolding release_active
  leave keep o = record {
    world = release_active o.world o.ctrl.active_data;
    ctrl = o.ctrl;
    state = o.state;
    running = keep;
  }
