-- ===== src/Tests/Fallback.antt =====
-- Primary priority on the gateway: `eth` is connected and unplugged, `dsl` too, and `lte` takes over.
use rdk_wanmanager.Common.{◌≡◌, refl, true, some, [], ◌∷◌, pos, minus_one, arith, inl, false}
use rdk_wanmanager.Dml.{Iface, PhyStatus}
use rdk_wanmanager.Store.Defs.{
  Database, load, zero_iface, get_iface_data_locked, get_iface_ctrl_locked, iface_ctrl_release,
  iface_data_release,
}
use rdk_wanmanager.Select.Defs.{
  priority_select, total_ifaces, consider, consider_pair, pair_loop, pair_entry,
}
use rdk_wanmanager.Policy.Control.{
  PlatformStatus, platform_status, start_sm, iface_sm_init, set_active_link, policy_ctrl_init,
}
use rdk_wanmanager.Policy.Priority.Defs.{secondary_wan_active, pp_start}
use rdk_wanmanager.Policy.Priority.Failover.{changed, first_pass, second_pass, third_pass, failover}
use rdk_wanmanager.Tests.Gateway.{gateway, gateway-IsWellFormed, home, dsl, eth, lte}
use rdk_wanmanager.Tests.Choice.{gateway_priority}

abbrev unplugged : Iface → Iface
unplugged f = record f { phy = record f.phy { status = PhyStatus.down } }

-- After the first pass `eth`, which has the flag, is unplugged; after the second one `dsl` is too.
abbrev eth_lost : Database
eth_lost = record gateway {
  ifaces =
      some
        (dsl ∷ unplugged (record eth { wan = record eth.wan { active_link = true } }) ∷ lte ∷ []);
}

abbrev all_lost : Database
all_lost = record gateway { ifaces = some (unplugged dsl ∷ unplugged eth ∷ lte ∷ []) }

lost_priority :
    ((priority_select true all_lost).1 ≡ minus_one) × ((priority_select true all_lost).2 ≡ pos 2)
unfolding priority_select pair_loop pair_entry total_ifaces consider consider_pair load zero_iface
    get_iface_data_locked iface_data_release get_iface_ctrl_locked iface_ctrl_release
lost_priority = (refl, refl)

failover_example :
    let m = pp_start home in
    let n1 = first_pass m eth_lost all_lost in
    let n2 = second_pass m eth_lost all_lost in
    let n3 = third_pass m eth_lost all_lost in
    (n1.world.db ≡ (set_active_link m.world 1 true).db)
    × (n2.world.db ≡ (set_active_link (changed n1 eth_lost).world 1 false).db)
    × (n3.world.db ≡ (set_active_link (changed n2 all_lost).world 2 true).db)
    × (n3.world.trace
        ≡ start_sm (some (iface_sm_init (load all_lost 2).iface_idx))
          ∷ platform_status PlatformStatus.connecting
          ∷ platform_status PlatformStatus.disconnected
          ∷ start_sm (some (iface_sm_init (load gateway 1).iface_idx))
          ∷ platform_status PlatformStatus.connecting
          ∷ m.world.trace)
    × (n3.state ≡ secondary_wan_active)
    × (n3.ctrl.active_idx ≡ pos 2)
unfolding pp_start policy_ctrl_init load
failover_example =
    failover (pp_start home) eth_lost all_lost 1 2 gateway-IsWellFormed refl refl refl (omega arith)
      gateway_priority.0 (record { backed = refl; small = omega arith; usable = refl })
      (omega arith) (inl refl) (record { backed = refl; small = omega arith; usable = refl })
      (omega arith) lost_priority.0 lost_priority.1
