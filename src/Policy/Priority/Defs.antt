-- ===== src/Policy/Priority/Defs.antt =====
-- Primary priority, source/WanManager/wanmgr_policy_pp_impl.c. The parameter `standby` says whether
-- the code is compiled with WAN_ENABLE_STANDBY.
use rdk_wanmanager.Common.{
  ℕ, zero, suc, ◌+◌, Bool, true, false, not, ◌&&◌, ◌||◌, Option, none, some, if◌then◌else◌, ℤ,
  minus_one, eqb_ℤ, is_nonneg, to_uint,
}
use rdk_wanmanager.Dml.{
  Iface, is_phy_up, is_phy_down, is_disabled, is_link_down, is_primary, is_secondary,
}
use rdk_wanmanager.Store.Defs.{
  Database, load, get_iface_ctrl_locked, iface_ctrl_release, get_iface_data_locked,
  iface_data_release,
}
use rdk_wanmanager.Select.Defs.{priority_select}
use rdk_wanmanager.Policy.Control.{
  PlatformStatus, platform_status, SmController, start_sm, World, Controller, Outcome, Machine,
  iface_sm_init, policy_ctrl_init, emit, set_active_link, enter, leave,
}

-- `WcPpPolicyState_t`; `failure` is `ANSC_STATUS_FAILURE`, which is none of the enumerators.
pub data PpState : Type 0 where
  interface_down primary_wan_active secondary_wan_active : PpState
  primary_wan_active_secondary_wan_up failure : PpState

abbrev pub stay : World → Controller → PpState → Outcome PpState
stay w c s = record { world = w; ctrl = c; state = s }

-- The loop of `WanMgr_CheckAllIfacesDown`.
unfoldable pub all_down_entry : Bool → Database × Option ℕ → Database × Bool
all_down_entry all_down (db, none) = (db, all_down)
all_down_entry all_down (db, some p) =
    (iface_data_release db, if not (is_disabled (load db p).wan.status) then false else all_down)

unfoldable pub all_down_loop : ℕ → ℕ → Database × Bool → Database × Bool
unfolding all_down_entry
all_down_loop zero i s = s
all_down_loop (suc rounds) i (db, all_down) =
    all_down_loop rounds (i + 1) (all_down_entry all_down (get_iface_data_locked db i))

unfoldable pub check_all_down_of : Database → Option Database → Database × Bool
check_all_down_of db none = (db, false)
check_all_down_of db (some held) = all_down_loop held.total 0 (iface_ctrl_release held, true)

-- `WanMgr_CheckAllIfacesDown`.
unfoldable pub check_all_ifaces_down : Database → Database × Bool
unfolding check_all_down_of
check_all_ifaces_down db = check_all_down_of db (get_iface_ctrl_locked db)

-- `Transition_Start`, on the controller that `WanMgr_Controller_PolicyCtrlInit` has filled.
unfoldable pub pp_start : World → Machine PpState
unfolding policy_ctrl_init
pp_start w = record {
  world = emit w (platform_status PlatformStatus.disconnected);
  ctrl = policy_ctrl_init;
  state = interface_down;
  running = true;
}

-- "Set ActiveLink to FALSE" on the active interface, if there is one.
unfoldable pub clear_active : World → Option ℕ → World
clear_active w none = w
clear_active w (some a) = set_active_link w a false

-- "Select Primary WAN as Active": sets the flag and fills `wanIfCtrl`, which stays unwritten if the
-- interface is not found.
unfoldable pub activated : World → Database × Option ℕ → World × Option SmController
activated w (db, none) = (record w { db = db }, none)
activated w (db, some p) =
    let w' : World = set_active_link (record w { db = db }) p true in
    (record w' { db = iface_data_release w'.db }, some (iface_sm_init (load db p).iface_idx))

unfoldable pub activate : World → ℤ → World × Option SmController
unfolding activated
activate w idx = activated w (get_iface_data_locked w.db (to_uint idx))

-- "Starts an instance of the WAN Interface State Machine", after the platform status.
abbrev pub launch : World × Option SmController → World
launch (w, sm) = emit (emit w (platform_status PlatformStatus.connecting)) (start_sm sm)

-- `Transition_PrimaryInterfaceSelected`.
unfoldable pub pp_primary_selected : Bool → World → Controller → Outcome PpState
pp_primary_selected standby w c =
    stay (launch (activate (clear_active w c.active_data) c.active_idx)) c (
      if standby && is_nonneg c.secondary_idx
      then primary_wan_active_secondary_wan_up
      else primary_wan_active)

-- `Transition_PrimaryInterfaceDeSelected`.
unfoldable pub pp_primary_deselected : World → Controller → Option ℕ → Outcome PpState
pp_primary_deselected w c none = stay w c failure
pp_primary_deselected w c (some a) =
    stay (emit (set_active_link w a false) (platform_status PlatformStatus.disconnected))
      (record c { active_idx = minus_one }) interface_down

-- `Transition_PrimaryInterfaceChanged`, from the selection on.
unfoldable pub primary_changed_to : World → Controller → Database × ℤ × ℤ → Outcome PpState
primary_changed_to w c (db, primary, secondary) =
    let w' : World = record w { db = db } in
    if not (eqb_ℤ primary minus_one)
    then stay (launch (activate w' primary)) (record c { active_idx = primary })
        primary_wan_active_secondary_wan_up
    else stay w' c primary_wan_active_secondary_wan_up

unfoldable pub pp_primary_changed : World → Controller → Option ℕ → Outcome PpState
pp_primary_changed w c none = stay w c failure
pp_primary_changed w c (some a) =
    let w' : World =
      emit (set_active_link w a false) (platform_status PlatformStatus.disconnected) in
    primary_changed_to w' (record c { active_idx = minus_one }) (priority_select c.wan_enable w'.db)

-- `Transition_SecondaryInterfaceSelected`, after the call of `WanMgr_GetIfaceData_locked`.
unfoldable pub secondary_selected_at : Controller → World × Option SmController → Outcome PpState
secondary_selected_at c (w, none) = stay w c interface_down
secondary_selected_at c (w, some sm) = stay (launch (w, some sm)) c secondary_wan_active

unfoldable pub pp_secondary_selected : World → Controller → Outcome PpState
pp_secondary_selected w c =
    secondary_selected_at (record c { active_idx = c.secondary_idx })
      (activate (clear_active w c.active_data) c.secondary_idx)

-- `Transition_SecondaryInterfaceDeSelected`.
unfoldable pub pp_secondary_deselected : World → Controller → Outcome PpState
pp_secondary_deselected w c =
    stay (emit (clear_active w c.active_data) (platform_status PlatformStatus.disconnected))
      (record c { active_idx = minus_one; secondary_idx = minus_one }) interface_down

-- The test of `Transition_SecondaryInterfaceUp`.
abbrev pub secondary_can_connect : Iface → Bool
secondary_can_connect f =
    f.wan.enable
    && is_disabled f.wan.status
    && is_phy_up f.phy.status
    && is_link_down f.wan.link_status
    && is_secondary f.wan.type

-- `wanIfCtrl`, written if `bSecondaryUp` becomes true.
unfoldable pub secondary_sm : World → Database × Option ℕ → World × Option SmController
secondary_sm w (db, none) = (record w { db = db }, none)
secondary_sm w (db, some p) = (
  record w { db = iface_data_release db },
  if secondary_can_connect (load db p) then some (iface_sm_init (load db p).iface_idx) else none,
)

unfoldable pub secondary_up_of : Controller → World × Option SmController → Outcome PpState
secondary_up_of c (w, none) = stay w (record c { secondary_idx = minus_one }) primary_wan_active
secondary_up_of c (w, some sm) = stay (launch (w, some sm)) c primary_wan_active_secondary_wan_up

-- `Transition_SecondaryInterfaceUp`.
unfoldable pub pp_secondary_up : World → Controller → Outcome PpState
pp_secondary_up w c =
    secondary_up_of c (secondary_sm w (get_iface_data_locked w.db (to_uint c.secondary_idx)))

-- `Transition_SecondaryInterfaceDown`.
unfoldable pub pp_secondary_down : World → Controller → Outcome PpState
pp_secondary_down w c = stay w (record c { secondary_idx = minus_one }) primary_wan_active

-- `State_WanDown`, from the selection on.
unfoldable pub wan_down_select : Bool → World → Controller → Database × ℤ × ℤ → Outcome PpState
wan_down_select standby w c (db, primary, secondary) =
    let w' : World = record w { db = db } in
    if not (eqb_ℤ primary minus_one)
    then pp_primary_selected standby w' (record c { active_idx = primary })
    else (if not (eqb_ℤ secondary minus_one)
        then pp_secondary_selected w'
            (record c { active_idx = secondary; secondary_idx = secondary })
        else stay w' c interface_down)

-- `State_WanDown`; without WAN_ENABLE_STANDBY it waits for all interfaces to be down.
unfoldable pub pp_state_down : Bool → World → Controller → Outcome PpState
pp_state_down true w c = wan_down_select true w c (priority_select c.wan_enable w.db)
pp_state_down false w c =
    let (db, all_down) = check_all_ifaces_down w.db in
    let w' : World = record w { db = db } in
    if not all_down
    then stay w' c interface_down
    else wan_down_select false w' c (priority_select c.wan_enable db)

-- `State_PrimaryWanActive`, from the selection on.
unfoldable pub primary_active_select :
    Bool → World → Controller → Database × ℤ × ℤ → Outcome PpState
primary_active_select standby w c (db, primary, secondary) =
    let w' : World = record w { db = db } in
    if not (eqb_ℤ primary c.active_idx)
    then pp_primary_deselected w' c c.active_data
    else (if standby && not (eqb_ℤ secondary c.secondary_idx)
        then pp_secondary_up w' (record c { secondary_idx = secondary })
        else stay w' c primary_wan_active)

-- `State_PrimaryWanActive`.
unfoldable pub pp_state_primary : Bool → World → Controller → Option ℕ → Outcome PpState
pp_state_primary standby w c none = stay w c interface_down
pp_state_primary standby w c (some a) =
    let f : Iface = load w.db a in
    if not c.wan_enable
      || is_phy_down f.phy.status
      || not (is_primary f.wan.type)
      || not f.wan.enable
    then pp_primary_deselected w c c.active_data
    else primary_active_select standby w c (priority_select c.wan_enable w.db)

-- `State_SecondaryWanActive`, from the selection on.
unfoldable pub secondary_active_select :
    Bool → World → Controller → Database × ℤ × ℤ → Outcome PpState
secondary_active_select standby w c (db, primary, secondary) =
    let w' : World = record w { db = db } in
    if not (eqb_ℤ secondary c.active_idx)
    then pp_secondary_deselected w' c
    else (if not (eqb_ℤ primary minus_one)
        then (if standby
            then pp_primary_selected standby w' (record c { active_idx = primary })
            else pp_secondary_deselected w' c)
        else stay w' c secondary_wan_active)

-- `State_SecondaryWanActive`.
unfoldable pub pp_state_secondary : Bool → World → Controller → Option ℕ → Outcome PpState
pp_state_secondary standby w c none = stay w c interface_down
pp_state_secondary standby w c (some a) =
    let f : Iface = load w.db a in
    if not c.wan_enable
      || is_phy_down f.phy.status
      || not (is_secondary f.wan.type)
      || not f.wan.enable
    then pp_secondary_deselected w c
    else secondary_active_select standby w c (priority_select c.wan_enable w.db)

-- `State_PrimaryWanActiveSecondaryWanUp`, from the selection on.
unfoldable pub both_select : World → Controller → Database × ℤ × ℤ → Outcome PpState
both_select w c (db, primary, secondary) =
    let w' : World = record w { db = db } in
    if not (eqb_ℤ primary c.active_idx)
    then pp_primary_changed w' c c.active_data
    else (if eqb_ℤ secondary minus_one
        then pp_secondary_down w' c
        else (if not (eqb_ℤ secondary c.secondary_idx)
            then pp_secondary_up w' (record c { secondary_idx = secondary })
            else stay w' c primary_wan_active_secondary_wan_up))

-- `State_PrimaryWanActiveSecondaryWanUp`.
unfoldable pub pp_state_both : World → Controller → Option ℕ → Outcome PpState
pp_state_both w c none = stay w c interface_down
pp_state_both w c (some a) =
    let f : Iface = load w.db a in
    if not c.wan_enable
      || not f.wan.enable
      || not (is_primary f.wan.type)
      || is_phy_down f.phy.status
    then pp_secondary_selected w c
    else both_select w c (priority_select c.wan_enable w.db)

-- The states, by the `switch` of `WanMgr_Policy_PrimaryPriorityPolicy`.
unfoldable pub pp_outcome : Bool → PpState → World → Controller → Outcome PpState
pp_outcome standby interface_down w c = pp_state_down standby w c
pp_outcome standby primary_wan_active w c = pp_state_primary standby w c c.active_data
pp_outcome standby secondary_wan_active w c = pp_state_secondary standby w c c.active_data
pp_outcome standby primary_wan_active_secondary_wan_up w c = pp_state_both w c c.active_data
pp_outcome standby failure w c = stay w c failure

abbrev pub is_failure : PpState → Bool
is_failure failure = true
is_failure interface_down = false
is_failure primary_wan_active = false
is_failure secondary_wan_active = false
is_failure primary_wan_active_secondary_wan_up = false

-- One pass of the loop of `WanMgr_Policy_PrimaryPriorityPolicy` after a wait that no signal
-- interrupted; an interrupted wait changes nothing.
unfoldable pub pp_pass : Bool → Machine PpState → Machine PpState
pp_pass standby m =
    let (w, c) = enter m.world m.ctrl in
    leave (not (is_failure m.state)) (pp_outcome standby m.state w c)
