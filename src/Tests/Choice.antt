-- ===== src/Tests/Choice.antt =====
-- What the policies select on the gateway.
use rdk_wanmanager.Common.{◌≡◌, refl, true, pos}
use rdk_wanmanager.Store.Defs.{
  load, zero_iface, get_iface_data_locked, get_iface_ctrl_locked, iface_ctrl_release,
  iface_data_release,
}
use rdk_wanmanager.Select.Defs.{
  fixed_select, priority_select, fixed_candidate, primary_candidate, secondary_candidate,
  fixed_loop, fixed_entry, total_ifaces, consider, consider_pair, pair_loop, pair_entry,
}
use rdk_wanmanager.Select.Scan.{Selected}
use rdk_wanmanager.Select.Choice.{fixed_select-Selected, priority_select-Selected}
use rdk_wanmanager.Tests.Gateway.{gateway, gateway-IsWellFormed}

pub gateway_fixed : (fixed_select gateway).1 ≡ pos 1
unfolding fixed_select fixed_loop fixed_entry total_ifaces consider load zero_iface
    get_iface_data_locked iface_data_release get_iface_ctrl_locked iface_ctrl_release
gateway_fixed = refl

pub gateway_priority :
    ((priority_select true gateway).1 ≡ pos 1) × ((priority_select true gateway).2 ≡ pos 2)
unfolding priority_select pair_loop pair_entry total_ifaces consider consider_pair load zero_iface
    get_iface_data_locked iface_data_release get_iface_ctrl_locked iface_ctrl_release
gateway_priority = (refl, refl)

fixed_select-Selected_example :
    ((fixed_select gateway).0 ≡ gateway)
    × Selected fixed_candidate (load gateway) 3 (fixed_select gateway).1
fixed_select-Selected_example = fixed_select-Selected gateway gateway-IsWellFormed

priority_select-Selected_example :
    ((priority_select true gateway).0 ≡ gateway)
    × Selected primary_candidate (load gateway) 3 (priority_select true gateway).1
    × Selected secondary_candidate (load gateway) 3 (priority_select true gateway).2
priority_select-Selected_example = priority_select-Selected gateway gateway-IsWellFormed
