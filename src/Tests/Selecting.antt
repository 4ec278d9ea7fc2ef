-- ===== src/Tests/Selecting.antt =====
-- Primary priority on bootup, on the gateway.
use rdk_wanmanager.Common.{◌≡◌, refl, inl, true, none, pos, minus_one, arith}
use rdk_wanmanager.Select.Defs.{priority_select}
use rdk_wanmanager.Policy.Control.{Machine}
use rdk_wanmanager.Policy.PriorityOnBootup.Defs.{SelState, selected_down, chosen, ppob_pass}
use rdk_wanmanager.Policy.PriorityOnBootup.Steps.{IsSelected, Run-IsSelected, here, passed}
use rdk_wanmanager.Tests.Gateway.{gateway, gateway-IsWellFormed, home}
use rdk_wanmanager.Tests.Choice.{gateway_priority}

abbrev selected : Machine SelState
selected = record {
  world = home;
  ctrl = record {
    wan_enable = true;
    active_idx = pos 1;
    secondary_idx = minus_one;
    active_data = none;
  };
  state = selected_down;
  running = true;
}

selected-IsSelected : IsSelected 1 selected
selected-IsSelected = record {
  well_formed = gateway-IsWellFormed;
  in_range = omega arith;
  is_active = refl;
  in_selected_state = inl refl;
  is_running = refl;
}

Run-IsSelected_example : IsSelected 1 (ppob_pass (ppob_pass selected))
Run-IsSelected_example = Run-IsSelected 1 selected-IsSelected (passed (passed here))

gateway_chosen : (let t = priority_select true gateway in chosen minus_one t.1 t.2 ≡ pos 1)
gateway_chosen = ground (arith, gateway_priority)
