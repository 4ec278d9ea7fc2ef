-- ===== src/Policy/Priority/Connect.antt =====
-- Primary priority: when the WAN is connected, and when it is given up.
use rdk_wanmanager.Common.{
  ℕ, ◌<◌, ◌≡◌, refl, subst, sym, ◌⊎◌, inl, inr, Bool, true, false, not, none, some, ◌∷◌, pos,
  minus_one, to_uint, arith,
}
use rdk_wanmanager.Dml.{Iface, is_phy_down, is_primary}
use rdk_wanmanager.Store.Defs.{load, store, iface_data_release}
use rdk_wanmanager.Store.Lock.{IsWellFormed}
use rdk_wanmanager.Select.Defs.{priority_select}
use rdk_wanmanager.Select.Choice.{priority_select_db}
use rdk_wanmanager.Policy.Control.{
  World, Controller, Machine, release_active, leave, emit, set_active_link, platform_status,
  PlatformStatus, start_sm, iface_sm_init,
}
use rdk_wanmanager.Policy.Enter.{enabled, held_world, enter_in, enter_out}
use rdk_wanmanager.Policy.Priority.Defs.{
  PpState, failure, is_failure, pp_outcome, pp_pass, pp_state_down, pp_state_primary,
  wan_down_select, pp_primary_selected, pp_primary_deselected, clear_active, interface_down,
  primary_wan_active, secondary_wan_active, primary_wan_active_secondary_wan_up,
}
use rdk_wanmanager.Policy.Priority.Links.{activate_in}

down_pass_lem :
    (w : World) (c : Controller) (p : ℕ)
    → IsWellFormed w.db
    → c.active_data ≡ none
    → c.secondary_idx ≡ minus_one
    → p < w.db.total
    → (priority_select c.wan_enable w.db).1 ≡ pos p
    → let o = pp_state_down true w c in
      (o.state ≡ primary_wan_active)
      × (o.ctrl.active_idx ≡ pos p)
      × (o.ctrl.active_data ≡ none)
      × (o.world.db ≡ (set_active_link w p true).db)
      × (o.world.trace
          ≡ start_sm (some (iface_sm_init (load w.db p).iface_idx))
            ∷ platform_status PlatformStatus.connecting
            ∷ w.trace)
unfolding pp_state_down wan_down_select pp_primary_selected clear_active
down_pass_lem w c p v a s h e =
    ground (arith, priority_select_db c.wan_enable w.db v, activate_in w v p h)

-- With no interface active, a pass of the standby build in `STATE_INTERFACE_DOWN` that selects primary
-- interface `p` makes it the active one: it sets its flag and nothing else in the table, starts one
-- state machine, on `p`, and reaches `STATE_PRIMARY_WAN_ACTIVE`.
pub pp_pass_connects :
    (m : Machine PpState) (p : ℕ)
    → IsWellFormed m.world.db
    → m.state ≡ interface_down
    → m.ctrl.active_idx ≡ minus_one
    → m.ctrl.secondary_idx ≡ minus_one
    → p < m.world.db.total
    → (priority_select (enabled m.world m.ctrl) m.world.db).1 ≡ pos p
    → let n = pp_pass true m in
      (n.state ≡ primary_wan_active)
      × (n.ctrl.active_idx ≡ pos p)
      × (n.world.db ≡ (set_active_link m.world p true).db)
      × (n.world.trace
          ≡ start_sm (some (iface_sm_init (load m.world.db p).iface_idx))
            ∷ platform_status PlatformStatus.connecting
            ∷ m.world.trace)
unfolding pp_pass leave release_active pp_outcome
pp_pass_connects m p v s i j h e = rw (enter_out m.world m.ctrl v (rw i (omega (arith, v.small)))) (
    ground (
      arith,
      down_pass_lem m.world
          (record m.ctrl { wan_enable = enabled m.world m.ctrl; active_data = none }) p v refl j h
          e,
    ))

IsLost : Bool → Iface → Type 0
IsLost enable f =
    (enable ≡ false)
    ⊎ ((is_phy_down f.phy.status ≡ true)
        ⊎ ((is_primary f.wan.type ≡ false) ⊎ (f.wan.enable ≡ false)))

state_primary_lost :
    (standby : Bool) (w : World) (c : Controller) (a : ℕ)
    → IsLost c.wan_enable (load w.db a)
    → pp_state_primary standby w (record c { active_data = some a }) (some a) ≡ record {
      world = emit (set_active_link w a false) (platform_status PlatformStatus.disconnected);
      ctrl = record c { active_data = some a; active_idx = minus_one };
      state = interface_down;
    }
unfolding pp_state_primary pp_primary_deselected IsLost
state_primary_lost standby w c a (inl e) = ground arith
state_primary_lost standby w c a (inr (inl e)) = ground arith
state_primary_lost standby w c a (inr (inr (inl e))) = ground arith
state_primary_lost standby w c a (inr (inr (inr e))) = ground arith

outcome_lost :
    (standby : Bool) (w : World) (c : Controller) (s : PpState) (p a : ℕ)
    → s ≡ primary_wan_active
    → a ≡ p
    → IsLost c.wan_enable (load w.db p)
    → let n : Machine PpState =
        leave
          (not (is_failure s))
          (pp_outcome standby s (held_world w) (record c { active_data = some a })) in
      (n.state ≡ interface_down)
      × (n.ctrl.active_idx ≡ minus_one)
      × (n.world.db ≡ (set_active_link w p false).db)
      × (n.world.trace ≡ platform_status PlatformStatus.disconnected ∷ w.trace)
unfolding pp_outcome leave release_active load store iface_data_release IsLost
outcome_lost standby w c primary_wan_active p a s e d =
    let l = state_primary_lost standby (held_world w) c p d in
    subst
      (λ x.
        let n : Machine PpState = leave true (
          pp_outcome standby primary_wan_active (held_world w)
            (record c { active_data = some x })) in
        (n.state ≡ interface_down)
        × (n.ctrl.active_idx ≡ minus_one)
        × (n.world.db ≡ (set_active_link w p false).db)
        × (n.world.trace ≡ platform_status PlatformStatus.disconnected ∷ w.trace))
      (sym e) (rw l (refl, refl, refl, refl))
outcome_lost standby w c interface_down p a s e d = ground arith
outcome_lost standby w c secondary_wan_active p a s e d = ground arith
outcome_lost standby w c primary_wan_active_secondary_wan_up p a s e d = ground arith
outcome_lost standby w c failure p a s e d = ground arith

-- In `STATE_PRIMARY_WAN_ACTIVE`, a pass that finds the WAN disabled, or the active interface `p`
-- unplugged, disabled or no longer primary, clears its flag and nothing else in the table, reports
-- the WAN as disconnected, starts nothing, and goes back to `STATE_INTERFACE_DOWN` with no active
-- interface, in either build.
pub pp_pass_gives_up :
    (standby : Bool) (m : Machine PpState) (p : ℕ)
    → IsWellFormed m.world.db
    → m.state ≡ primary_wan_active
    → m.ctrl.active_idx ≡ pos p
    → p < m.world.db.total
    → (enabled m.world m.ctrl ≡ false)
      ⊎ ((is_phy_down (load m.world.db p).phy.status ≡ true)
          ⊎ ((is_primary (load m.world.db p).wan.type ≡ false)
              ⊎ ((load m.world.db p).wan.enable ≡ false)))
    → let n = pp_pass standby m in
      (n.state ≡ interface_down)
      × (n.ctrl.active_idx ≡ minus_one)
      × (n.world.db ≡ (set_active_link m.world p false).db)
      × (n.world.trace ≡ platform_status PlatformStatus.disconnected ∷ m.world.trace)
unfolding pp_pass IsLost
pp_pass_gives_up standby m p v s i h d =
    rw (enter_in m.world m.ctrl v (rw i (omega (arith, v.small, h)))) (
      outcome_lost standby m.world (record m.ctrl { wan_enable = enabled m.world m.ctrl }) m.state p
        (to_uint m.ctrl.active_idx) s (rw i (omega (arith, v.small, h))) d)
