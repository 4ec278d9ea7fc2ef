-- ===== src/Policy/FixedOnBootup/Defs.antt =====
-- Fixed mode on bootup, source/WanManager/wanmgr_policy_fmob_impl.c.
use rdk_wanmanager.Common.{
  ℕ, Bool, true, false, not, ◌&&◌, ◌||◌, Option, none, some, if◌then◌else◌, ℤ, minus_one, eqb_ℤ,
}
use rdk_wanmanager.Dml.{
  Iface, is_phy_up, is_phy_initializing, is_phy_down, is_disabled, is_link_down,
}
use rdk_wanmanager.Store.Defs.{Database, load}
use rdk_wanmanager.Select.Defs.{fixed_select}
use rdk_wanmanager.Policy.Control.{
  PlatformStatus, platform_status, start_sm, World, Controller, Outcome, Machine, iface_sm_init,
  policy_ctrl_init, emit, set_active_link, enter, leave,
}

-- `WcFmobPolicyState_t`; `failure` is `ANSC_STATUS_FAILURE`, which is none of the enumerators.
pub data BootState : Type 0 where
  fixing fixed_down fixed_up failure : BootState

-- `WanMgr_Policy_FM_SelectWANActive`, which is the text of the function of the fixed mode.
abbrev pub boot_select : Database → Database × ℤ
boot_select = fixed_select

-- `Transition_Start`, on the controller that `WanMgr_Controller_PolicyCtrlInit` has filled.
unfoldable pub boot_start : World → Machine BootState
unfolding policy_ctrl_init
boot_start w = record {
  world = emit w (platform_status PlatformStatus.disconnected);
  ctrl = policy_ctrl_init;
  state = fixing;
  running = true;
}

abbrev stay : World → Controller → BootState → Outcome BootState
stay w c s = record { world = w; ctrl = c; state = s }

-- `Transition_WanInterfaceFixed`.
boot_wan_interface_fixed : World → Controller → Option ℕ → Outcome BootState
boot_wan_interface_fixed w c none = stay w c fixing
boot_wan_interface_fixed w c (some p) =
    stay (emit (set_active_link w p true) (platform_status PlatformStatus.link_up)) c fixed_down

-- `Transition_FixedInterfaceDown`.
boot_fixed_interface_down : World → Controller → Outcome BootState
boot_fixed_interface_down w c =
    stay (emit w (platform_status PlatformStatus.disconnected)) c fixed_down

-- `Transition_FixedInterfaceUp`.
boot_fixed_interface_up : World → Controller → Option ℕ → Outcome BootState
boot_fixed_interface_up w c none = stay w c fixing
boot_fixed_interface_up w c (some p) =
    stay
      (emit (emit w (platform_status PlatformStatus.connecting))
        (start_sm (some (iface_sm_init (load w.db p).iface_idx))))
      c fixed_up

-- `State_FixingWanInterface`.
boot_state_fixing : World → Controller → Outcome BootState
unfolding boot_wan_interface_fixed
boot_state_fixing w c =
    let (db, idx) = boot_select w.db in
    let w' : World = record w { db = db } in
    let c' : Controller = record c { active_idx = idx } in
    if not (eqb_ℤ idx minus_one)
    then boot_wan_interface_fixed w' c' c'.active_data
    else stay w' c' fixing

abbrev boot_can_connect : Controller → Iface → Bool
boot_can_connect c f =
    c.wan_enable
    && (is_phy_up f.phy.status || is_phy_initializing f.phy.status)
    && is_disabled f.wan.status
    && is_link_down f.wan.link_status

-- `State_FixedWanInterfaceDown`.
boot_state_down : World → Controller → Option ℕ → Outcome BootState
unfolding boot_fixed_interface_up
boot_state_down w c none = stay w c fixing
boot_state_down w c (some p) =
    if boot_can_connect c (load w.db p)
    then boot_fixed_interface_up w c c.active_data
    else stay w c fixed_down

-- `State_FixedWanInterfaceUp`.
boot_state_up : World → Controller → Option ℕ → Outcome BootState
unfolding boot_fixed_interface_down
boot_state_up w c none = stay w c fixed_down
boot_state_up w c (some p) =
    if not c.wan_enable || is_phy_down (load w.db p).phy.status
    then boot_fixed_interface_down w c
    else stay w c fixed_up

-- The `switch` of `WanMgr_Policy_FixedModeOnBootupPolicy`.
unfoldable pub boot_process : BootState → World → Controller → Machine BootState
unfolding boot_state_fixing boot_state_down boot_state_up
boot_process fixing w c = leave true (boot_state_fixing w c)
boot_process fixed_down w c = leave true (boot_state_down w c c.active_data)
boot_process fixed_up w c = leave true (boot_state_up w c c.active_data)
boot_process failure w c = leave false (stay w c failure)

-- One pass of the loop of `WanMgr_Policy_FixedModeOnBootupPolicy` after a wait that no signal
-- interrupted; an interrupted wait changes nothing.
unfoldable pub boot_pass : Machine BootState → Machine BootState
boot_pass m = let (w, c) = enter m.world m.ctrl in boot_process m.state w c
