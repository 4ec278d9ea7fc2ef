-- ===== src/Policy/PriorityOnBootup/Defs.antt =====
-- Primary priority on bootup, source/WanManager/wanmgr_policy_ppob_impl.c.
use rdk_wanmanager.Common.{
  ℕ, Bool, true, false, not, ◌&&◌, ◌||◌, Option, none, some, if◌then◌else◌, ℤ, minus_one, eqb_ℤ,
  to_uint,
}
use rdk_wanmanager.Dml.{
  Iface, is_phy_up, is_phy_initializing, is_phy_down, is_disabled, is_link_down,
}
use rdk_wanmanager.Store.Defs.{Database, load, get_iface_data_locked, iface_data_release}
use rdk_wanmanager.Select.Defs.{priority_select}
use rdk_wanmanager.Policy.Control.{
  PlatformStatus, platform_status, start_sm, World, Controller, Outcome, Machine, iface_sm_init,
  policy_ctrl_init, emit, set_active_link, enter, leave,
}

-- `WcPpobPolicyState_t`; `failure` is `ANSC_STATUS_FAILURE`, which is none of the enumerators.
pub data SelState : Type 0 where
  selecting selected_down selected_up failure : SelState

-- `WanMgr_Policy_FM_SelectWANActive`, which is the text of the function of primary priority.
abbrev pub ppob_select : Bool → Database → Database × ℤ × ℤ
ppob_select = priority_select

-- `Transition_Start`, on the controller that `WanMgr_Controller_PolicyCtrlInit` has filled.
unfoldable pub ppob_start : World → Machine SelState
unfolding policy_ctrl_init
ppob_start w = record {
  world = emit w (platform_status PlatformStatus.disconnected);
  ctrl = policy_ctrl_init;
  state = selecting;
  running = true;
}

abbrev stay : World → Controller → SelState → Outcome SelState
stay w c s = record { world = w; ctrl = c; state = s }

-- "Starts an instance of the WAN Interface State Machine" on the interface at `p`, which the caller
-- has locked, after it releases the lock.
abbrev launch : World → ℕ → World
launch w p =
    emit
      (emit (record w { db = iface_data_release w.db }) (platform_status PlatformStatus.connecting))
      (start_sm (some (iface_sm_init (load w.db p).iface_idx)))

-- `Transition_WanInterfaceSelected`, after the call of `WanMgr_GetIfaceData_locked`.
wan_interface_selected_at : World → Controller → Database × Option ℕ → Outcome SelState
wan_interface_selected_at w c (db, none) = stay (record w { db = db }) c selected_down
wan_interface_selected_at w c (db, some p) =
    stay (launch (set_active_link (record w { db = db }) p true) p) c selected_up

ppob_wan_interface_selected : World → Controller → Outcome SelState
unfolding wan_interface_selected_at
ppob_wan_interface_selected w c =
    wan_interface_selected_at w c (get_iface_data_locked w.db (to_uint c.active_idx))

-- `Transition_SelectedInterfaceUp`, after the call of `WanMgr_GetIfaceData_locked`.
selected_interface_up_at : World → Controller → Database × Option ℕ → Outcome SelState
selected_interface_up_at w c (db, none) = stay (record w { db = db }) c failure
selected_interface_up_at w c (db, some p) = stay (launch (record w { db = db }) p) c selected_up

ppob_selected_interface_up : World → Controller → Outcome SelState
unfolding selected_interface_up_at
ppob_selected_interface_up w c =
    selected_interface_up_at w c (get_iface_data_locked w.db (to_uint c.active_idx))

-- `Transition_SelectedInterfaceDown`.
ppob_selected_interface_down : World → Controller → Outcome SelState
ppob_selected_interface_down w c =
    stay (emit w (platform_status PlatformStatus.disconnected)) c selected_down

-- The assignments to `activeInterfaceIdx` in `State_SelectingWanInterface`; its first two cases
-- assign the same.
abbrev pub chosen : ℤ → ℤ → ℤ → ℤ
chosen old primary secondary =
    if not (eqb_ℤ primary minus_one)
    then primary
    else (if not (eqb_ℤ secondary minus_one) then secondary else old)

-- `State_SelectingWanInterface`.
ppob_state_selecting : World → Controller → Outcome SelState
unfolding ppob_wan_interface_selected
ppob_state_selecting w c =
    let (db, primary, secondary) = ppob_select c.wan_enable w.db in
    let w' : World = record w { db = db } in
    let c' : Controller = record c { active_idx = chosen c.active_idx primary secondary } in
    if not (eqb_ℤ c'.active_idx minus_one)
    then ppob_wan_interface_selected w' c'
    else stay w' c' selecting

-- `State_SelectedInterfaceUp`.
ppob_state_up : World → Controller → Option ℕ → Outcome SelState
unfolding ppob_selected_interface_down
ppob_state_up w c none = stay w c selected_down
ppob_state_up w c (some p) =
    if not c.wan_enable || is_phy_down (load w.db p).phy.status || not (load w.db p).wan.enable
    then ppob_selected_interface_down w c
    else stay w c selected_up

abbrev ppob_can_connect : Controller → Iface → Bool
ppob_can_connect c f =
    c.wan_enable
    && (is_phy_up f.phy.status || is_phy_initializing f.phy.status)
    && is_link_down f.wan.link_status
    && is_disabled f.wan.status

-- `State_SelectedInterfaceDown`.
ppob_state_down : World → Controller → Option ℕ → Outcome SelState
unfolding ppob_selected_interface_up
ppob_state_down w c none = stay w c selected_down
ppob_state_down w c (some p) =
    if ppob_can_connect c (load w.db p)
    then ppob_selected_interface_up w c
    else stay w c selected_down

-- The `switch` of `WanMgr_Policy_PrimaryPriorityOnBootupPolicy`.
unfoldable pub ppob_process : SelState → World → Controller → Machine SelState
unfolding ppob_state_selecting ppob_state_down ppob_state_up
ppob_process selecting w c = leave true (ppob_state_selecting w c)
ppob_process selected_down w c = leave true (ppob_state_down w c c.active_data)
ppob_process selected_up w c = leave true (ppob_state_up w c c.active_data)
ppob_process failure w c = leave false (stay w c failure)

-- One pass of the loop of `WanMgr_Policy_PrimaryPriorityOnBootupPolicy` after a wait that no signal
-- interrupted; an interrupted wait changes nothing.
unfoldable pub ppob_pass : Machine SelState → Machine SelState
ppob_pass m = let (w, c) = enter m.world m.ctrl in ppob_process m.state w c
