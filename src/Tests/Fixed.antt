-- ===== src/Tests/Fixed.antt =====
-- Fixed mode on the gateway.
use rdk_wanmanager.Common.{ℕ, ◌≡◌, refl, inl, inr, true, none, some, ◌∷◌, pos, minus_one, arith}
use rdk_wanmanager.Store.Defs.{load, store, zero_iface}
use rdk_wanmanager.Store.Lock.{IsWellFormed}
use rdk_wanmanager.Policy.Control.{
  PlatformStatus, platform_status, start_sm, iface_sm_init, Machine, set_active_link,
}
use rdk_wanmanager.Policy.Notions.{Keeps, IsReady}
use rdk_wanmanager.Policy.Fixed.Defs.{State, fixing, fixed_down, fixed_up, start, pass}
use rdk_wanmanager.Policy.Fixed.Sound.{IsSound, pass-IsSound, fixed_db}
use rdk_wanmanager.Policy.Fixed.Change.{
  pass_active_link_kept, pass_fixes_old_interface, three_passes_connect,
}
use rdk_wanmanager.Tests.Gateway.{gateway, gateway-IsWellFormed, home}
use rdk_wanmanager.Tests.Choice.{gateway_fixed}

eth-IsReady : IsReady true (load gateway 1)
unfolding load zero_iface
eth-IsReady = record {
  wan_enabled = refl;
  has_link = inl refl;
  is_disabled = refl;
  link_down = refl;
}

three_passes_connect_example :
    let m = pass (pass (pass (start home))) in
    (m.world.db ≡ fixed_db home 1)
    × (m.world.trace
        ≡ start_sm (some (iface_sm_init (load gateway 1).iface_idx))
          ∷ platform_status PlatformStatus.connecting
          ∷ platform_status PlatformStatus.link_up
          ∷ (start home).world.trace)
    × (m.state ≡ fixed_up)
    × (m.ctrl.active_idx ≡ pos 1)
three_passes_connect_example =
    three_passes_connect home 1 gateway-IsWellFormed refl (omega arith) gateway_fixed eth-IsReady

-- The machine with interface `p` chosen, in state `s`.
abbrev chosen_at : ℕ → State → Machine State
chosen_at p s = record {
  world = home;
  ctrl = record {
    wan_enable = true;
    active_idx = pos p;
    secondary_idx = minus_one;
    active_data = none;
  };
  state = s;
  running = true;
}

pass-IsSound_example :
    IsSound (pass (chosen_at 1 fixed_down)) × Keeps gateway (pass (chosen_at 1 fixed_down)).world.db
pass-IsSound_example = pass-IsSound (chosen_at 1 fixed_down) (record {
  well_formed = gateway-IsWellFormed;
  in_range = inr (1, refl, omega arith);
  alive = ground arith;
  is_running = refl;
})

abbrev connected : Machine State
connected = record (chosen_at 1 fixed_up) { world = set_active_link home 1 true }

connected_active : (load connected.world.db 1).wan.active_link ≡ true
unfolding load store
connected_active = refl

connected-IsWellFormed : IsWellFormed connected.world.db
unfolding store
connected-IsWellFormed = record { backed = refl; small = omega arith; usable = refl }

pass_active_link_kept_example : (load (pass connected).world.db 1).wan.active_link ≡ true
pass_active_link_kept_example =
    pass_active_link_kept connected 1 connected-IsWellFormed (ground arith) connected_active

pass_fixes_old_interface_example :
    let m = pass (chosen_at 0 fixing) in
    ((load m.world.db 0).wan.active_link ≡ true)
    × (load m.world.db 1 ≡ load gateway 1)
    × (m.state ≡ fixed_down)
    × (m.ctrl.active_idx ≡ pos 1)
pass_fixes_old_interface_example =
    pass_fixes_old_interface (chosen_at 0 fixing) 0 1 gateway-IsWellFormed refl refl (omega arith)
      gateway_fixed (omega arith)
