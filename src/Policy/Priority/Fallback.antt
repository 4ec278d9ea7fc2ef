-- ===== src/Policy/Priority/Fallback.antt =====
-- Primary priority: with no primary interface to be had, the secondary one is connected.
use rdk_wanmanager.Common.{ℕ, ◌<◌, ◌≡◌, refl, true, none, some, ◌∷◌, pos, minus_one, arith}
use rdk_wanmanager.Store.Defs.{load}
use rdk_wanmanager.Store.Lock.{IsWellFormed}
use rdk_wanmanager.Select.Defs.{priority_select}
use rdk_wanmanager.Select.Choice.{priority_select_db}
use rdk_wanmanager.Policy.Control.{
  World, Controller, Machine, release_active, leave, set_active_link, platform_status,
  PlatformStatus, start_sm, iface_sm_init,
}
use rdk_wanmanager.Policy.Enter.{enabled, enter_out}
use rdk_wanmanager.Policy.Priority.Defs.{
  PpState, pp_outcome, pp_pass, pp_state_down, wan_down_select, pp_secondary_selected,
  secondary_selected_at, clear_active, interface_down, secondary_wan_active,
}
use rdk_wanmanager.Policy.Priority.Links.{activate_in}

down_secondary_lem :
    (w : World) (c : Controller) (q : ℕ)
    → IsWellFormed w.db
    → c.active_data ≡ none
    → q < w.db.total
    → (priority_select c.wan_enable w.db).1 ≡ minus_one
    → (priority_select c.wan_enable w.db).2 ≡ pos q
    → let o = pp_state_down true w c in
      (o.state ≡ secondary_wan_active)
      × (o.ctrl.active_idx ≡ pos q)
      × (o.ctrl.active_data ≡ none)
      × (o.world.db ≡ (set_active_link w q true).db)
      × (o.world.trace
          ≡ start_sm (some (iface_sm_init (load w.db q).iface_idx))
            ∷ platform_status PlatformStatus.connecting
            ∷ w.trace)
unfolding pp_state_down wan_down_select pp_secondary_selected secondary_selected_at clear_active
down_secondary_lem w c q v a h e e' =
    ground (arith, priority_select_db c.wan_enable w.db v, activate_in w v q h)

-- With no interface active, a pass of the standby build in `STATE_INTERFACE_DOWN` that selects no
-- primary interface but a secondary one, `q`, makes `q` the active one: it sets its flag and nothing
-- else in the table, starts one state machine, on `q`, and reaches `STATE_SECONDARY_WAN_ACTIVE`.
pub pp_pass_falls_back :
    (m : Machine PpState) (q : ℕ)
    → IsWellFormed m.world.db
    → m.state ≡ interface_down
    → m.ctrl.active_idx ≡ minus_one
    → q < m.world.db.total
    → (priority_select (enabled m.world m.ctrl) m.world.db).1 ≡ minus_one
    → (priority_select (enabled m.world m.ctrl) m.world.db).2 ≡ pos q
    → let n = pp_pass true m in
      (n.state ≡ secondary_wan_active)
      × (n.ctrl.active_idx ≡ pos q)
      × (n.world.db ≡ (set_active_link m.world q true).db)
      × (n.world.trace
          ≡ start_sm (some (iface_sm_init (load m.world.db q).iface_idx))
            ∷ platform_status PlatformStatus.connecting
            ∷ m.world.trace)
unfolding pp_pass leave release_active pp_outcome
pp_pass_falls_back m q v s i h e e' =
    rw (enter_out m.world m.ctrl v (rw i (omega (arith, v.small)))) (
      ground (
        arith,
        down_secondary_lem m.world
            (record m.ctrl { wan_enable = enabled m.world m.ctrl; active_data = none }) q v refl h e
            e',
      ))
