-- ===== src/Tests/Bootup.antt =====
-- Fixed mode on bootup, on the gateway.
use rdk_wanmanager.Common.{ℕ, refl, inl, true, none, pos, minus_one, arith}
use rdk_wanmanager.Store.Defs.{load, zero_iface}
use rdk_wanmanager.Policy.Control.{Machine}
use rdk_wanmanager.Policy.Notions.{IsReady}
use rdk_wanmanager.Policy.FixedOnBootup.Defs.{BootState, fixed_down, boot_pass}
use rdk_wanmanager.Policy.FixedOnBootup.Steps.{IsFixed, Run-IsFixed, here, passed}
use rdk_wanmanager.Tests.Gateway.{gateway, gateway-IsWellFormed, home}

abbrev booted : ℕ → BootState → Machine BootState
booted p s = record {
  world = home;
  ctrl = record {
    wan_enable = true;
    active_idx = pos p;
    secondary_idx = minus_one;
    active_data = none;
  };
  state = s;
  running = true;
}

booted-IsFixed : IsFixed 1 (booted 1 fixed_down)
booted-IsFixed = record {
  well_formed = gateway-IsWellFormed;
  in_range = omega arith;
  is_active = refl;
  in_fixed_state = inl refl;
  is_running = refl;
}

Run-IsFixed_example : IsFixed 1 (boot_pass (boot_pass (booted 1 fixed_down)))
Run-IsFixed_example = Run-IsFixed 1 booted-IsFixed (passed (passed here))

boot-IsReady : IsReady true (load gateway 1)
unfolding load zero_iface
boot-IsReady = record {
  wan_enabled = refl;
  has_link = inl refl;
  is_disabled = refl;
  link_down = refl;
}
