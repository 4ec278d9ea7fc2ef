-- ===== src/Policy/Fixed/Defs.antt =====
-- Fixed mode, source/WanManager/wanmgr_policy_fm_impl.c.
use rdk_wanmanager.Common.{
  ℕ, Bool, true, false, not, ◌&&◌, ◌||◌, Option, none, some, if◌then◌else◌, minus_one, eqb_ℤ,
}
use rdk_wanmanager.Dml.{
  Iface, WanStatus, is_primary, is_phy_up, is_phy_initializing, is_phy_down, is_disabled,
  is_link_down,
}
use rdk_wanmanager.Store.Defs.{load}
use rdk_wanmanager.Select.Defs.{fixed_select}
use rdk_wanmanager.Policy.Control.{
  PlatformStatus, platform_status, start_sm, World, Controller, Outcome, Machine, iface_sm_init,
  policy_ctrl_init, emit, set_active_link, set_status, enter, leave,
}

-- `WcFmPolicyState_t`; `failure` is `ANSC_STATUS_FAILURE`, which is none of the enumerators.
pub data State : Type 0 where
  fixing fixed_down fixed_up failure : State

-- `Transition_Start`, on the controller that `WanMgr_Controller_PolicyCtrlInit` has filled.
unfoldable pub start : World → Machine State
unfolding policy_ctrl_init
start w = record {
  world = emit w (platform_status PlatformStatus.disconnected);
  ctrl = policy_ctrl_init;
  state = fixing;
  running = true;
}

abbrev stay : World → Controller → State → Outcome State
stay w c s = record { world = w; ctrl = c; state = s }

-- `Transition_WanInterfaceFixed`.
transition_wan_interface_fixed : World → Controller → Option ℕ → Outcome State
transition_wan_interface_fixed w c none = stay w c fixing
transition_wan_interface_fixed w c (some p) =
    stay (emit (set_active_link w p true) (platform_status PlatformStatus.link_up)) c fixed_down

-- `Transition_FixedInterfaceDown`.
transition_fixed_interface_down : World → Controller → Outcome State
transition_fixed_interface_down w c =
    stay (emit w (platform_status PlatformStatus.disconnected)) c fixed_down

-- `Transition_FixedInterfaceUp`.
transition_fixed_interface_up : World → Controller → Option ℕ → Outcome State
transition_fixed_interface_up w c none = stay w c fixing
transition_fixed_interface_up w c (some p) =
    stay
      (emit (emit w (platform_status PlatformStatus.connecting))
        (start_sm (some (iface_sm_init (load w.db p).iface_idx))))
      c fixed_up

-- `Transition_FixedInterfaceChanged`.
transition_fixed_interface_changed : World → Controller → Option ℕ → Outcome State
transition_fixed_interface_changed w c none = stay w c fixing
transition_fixed_interface_changed w c (some p) =
    stay (set_active_link (set_status w p WanStatus.disabled) p true) c fixing

-- `State_FixingWanInterface`.
state_fixing_wan_interface : World → Controller → Outcome State
unfolding transition_wan_interface_fixed
state_fixing_wan_interface w c =
    let (db, idx) = fixed_select w.db in
    let w' : World = record w { db = db } in
    let c' : Controller = record c { active_idx = idx } in
    if not (eqb_ℤ idx minus_one)
    then transition_wan_interface_fixed w' c' c'.active_data
    else stay w' c' fixing

-- The selection at the end of the two other states, after `keep`, the value if nothing changed.
reselect : World → Controller → State → Outcome State
unfolding transition_fixed_interface_changed
reselect w c keep =
    let (db, idx) = fixed_select w.db in
    let w' : World = record w { db = db } in
    if not (eqb_ℤ idx c.active_idx)
    then transition_fixed_interface_changed w' c c.active_data
    else stay w' c keep

-- The guard of `Transition_FixedInterfaceUp`.
abbrev pub can_connect : Controller → Iface → Bool
can_connect c f =
    (is_phy_up f.phy.status || is_phy_initializing f.phy.status)
    && c.wan_enable
    && is_disabled f.wan.status
    && is_link_down f.wan.link_status

-- `State_FixedWanInterfaceDown`.
state_fixed_wan_interface_down : World → Controller → Option ℕ → Outcome State
unfolding reselect transition_fixed_interface_up
state_fixed_wan_interface_down w c none = stay w c fixing
state_fixed_wan_interface_down w c (some p) =
    let f : Iface = load w.db p in
    if can_connect c f
    then transition_fixed_interface_up w c c.active_data
    else (if not f.wan.enable || not (is_primary f.wan.type)
        then transition_fixed_interface_changed w c c.active_data
        else reselect w c fixed_down)

-- `State_FixedWanInterfaceUp`.
state_fixed_wan_interface_up : World → Controller → Option ℕ → Outcome State
unfolding reselect transition_fixed_interface_down
state_fixed_wan_interface_up w c none = stay w c fixed_down
state_fixed_wan_interface_up w c (some p) =
    let f : Iface = load w.db p in
    if is_phy_down f.phy.status || not c.wan_enable
    then transition_fixed_interface_down w c
    else (if not f.wan.enable || not (is_primary f.wan.type)
        then transition_fixed_interface_changed w c c.active_data
        else reselect w c fixed_up)

-- The `switch` of `WanMgr_Policy_FixedModePolicy`.
unfoldable pub process : State → World → Controller → Machine State
unfolding state_fixing_wan_interface state_fixed_wan_interface_down state_fixed_wan_interface_up
process fixing w c = leave true (state_fixing_wan_interface w c)
process fixed_up w c = leave true (state_fixed_wan_interface_up w c c.active_data)
process fixed_down w c = leave true (state_fixed_wan_interface_down w c c.active_data)
process failure w c = leave false (stay w c failure)

-- One pass of the loop of `WanMgr_Policy_FixedModePolicy` after a wait that no signal interrupted;
-- an interrupted wait changes nothing.
unfoldable pub pass : Machine State → Machine State
pass m = let (w, c) = enter m.world m.ctrl in process m.state w c
