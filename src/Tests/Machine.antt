-- ===== src/Tests/Machine.antt =====
-- The interface state machine on the gateway.
use rdk_wanmanager.Common.{ℕ, ◌<◌, ◌≡◌, ◌≢◌, refl, ap, ◌∙◌, ◌+◌, ◌*◌, true, [], ◌∷◌, arith, false}
use rdk_wanmanager.Dml.{LinkStatus, IpState, Iface, is_link_down, CString, is_ip_down}
use rdk_wanmanager.Store.Defs.{load, zero_iface}
use rdk_wanmanager.Store.Lock.{IsWellFormed}
use rdk_wanmanager.Policy.Control.{PlatformStatus, Machine}
use rdk_wanmanager.Policy.Priority.Defs.{PpState, pp_start, pp_pass}
use rdk_wanmanager.Policy.Priority.Steps.{pp_start-IsSound, pp_pass-IsSound, IsDisturbance}
use rdk_wanmanager.Policy.Priority.Disturb.{FlagWrite-IsDisturbance}
use rdk_wanmanager.Interface.Outside.{Env, update_platform_status}
use rdk_wanmanager.Interface.Address.{bridge_name, one_suffix}
use rdk_wanmanager.Interface.Transitions.{
  exit, configuring_wan, ipv4_leased, ipv6_leased, dual_stack_active, ipv4_over_ipv6_active,
  deconfiguring_wan, Outcome, go, wan_transition_exit, wan_transition_ipv4_up,
}
use rdk_wanmanager.Interface.States.{
  wan_process, wan_state_deconfiguring_wan, wan_state_ipv6_leased,
}
use rdk_wanmanager.Interface.Thread.{Thread, thread_start, thread_pass}
use rdk_wanmanager.Interface.Graph.{Edge, wan_process-Edge}
use rdk_wanmanager.Interface.Leases.{wan_process-Leases, IsReleased, wan_process_exit}
use rdk_wanmanager.Interface.Passes.{
  OwnWrite, thread_pass-OwnWrite, OwnWrite-load, OwnWrite-FlagWrite,
}
use rdk_wanmanager.Interface.System.{
  SystemRun, on_table, begins, policy_passes, thread_passes, one_active_link,
}
use rdk_wanmanager.Interface.Lost.{passes}
use rdk_wanmanager.Interface.Tunnel.{tunnel_flaps, started, passed, never_in_tunnel}
use rdk_wanmanager.Tests.Gateway.{gateway, home, gateway-IsWellFormed}
use rdk_wanmanager.Tests.Priority.{nothing_active, active_after_pass, total_after_pass}
use rdk_wanmanager.Tests.Home.{
  quiet, eth_linked, controller, eth_thread, eth_machine, with_eth-IsWellFormed,
}

wan_process-Edge_example :
    Edge configuring_wan (wan_process quiet true configuring_wan (eth_machine eth_linked)).state
wan_process-Edge_example = wan_process-Edge quiet true configuring_wan (eth_machine eth_linked)

-- IPv6 is up, and IPv4 has come up.
abbrev eth_dual : Iface
eth_dual = record eth_linked {
  ip = record eth_linked.ip { ipv4_status = IpState.up; ipv6_status = IpState.up };
}

dual_reached : (wan_process quiet true ipv6_leased (eth_machine eth_dual)).state ≡ dual_stack_active
unfolding wan_process wan_state_ipv6_leased wan_transition_ipv4_up zero_iface
dual_reached = refl

wan_process-Leases_example :
    let o : Outcome = wan_process quiet true ipv6_leased (eth_machine eth_dual) in
    (is_ip_down o.sm.iface.ip.ipv4_status ≡ false) × (is_ip_down o.sm.iface.ip.ipv6_status ≡ false)
unfolding wan_process wan_state_ipv6_leased wan_transition_ipv4_up zero_iface
wan_process-Leases_example =
    wan_process-Leases quiet true ipv6_leased (eth_machine eth_dual) (λ e. ground arith)

abbrev eth_unlinked : Iface
eth_unlinked = record eth_linked { wan = record eth_linked.wan { link_status = LinkStatus.down } }

unlinked_exits : (wan_process quiet true deconfiguring_wan (eth_machine eth_unlinked)).state ≡ exit
unfolding wan_process wan_state_deconfiguring_wan wan_transition_exit
unlinked_exits = refl

wan_process_exit_example :
    let o : Outcome = wan_process quiet true deconfiguring_wan (eth_machine eth_unlinked) in
    (deconfiguring_wan ≡ deconfiguring_wan)
    × (is_link_down eth_unlinked.wan.link_status ≡ true)
    × IsReleased o.sm.iface
    × (o.sm.log ≡ update_platform_status PlatformStatus.disconnected ∷ [])
wan_process_exit_example =
    wan_process_exit quiet true deconfiguring_wan (eth_machine eth_unlinked) (λ e. ground arith)
      (λ e. ground arith) unlinked_exits

thread_pass-OwnWrite_example :
    let t : Thread = eth_thread ipv6_leased eth_linked in
    OwnWrite t.db 1 (thread_pass quiet true t).db
thread_pass-OwnWrite_example =
    thread_pass-OwnWrite quiet true (eth_thread ipv6_leased eth_linked)
      (with_eth-IsWellFormed eth_linked)

-- Both addresses are up, and the link is lost.
abbrev eth_losing : Iface
eth_losing = record eth_unlinked {
  ip = record eth_unlinked.ip { ipv4_status = IpState.up; ipv6_status = IpState.up };
}

-- IPv6 and DS-Lite are up.
abbrev eth_tunnelled : Iface
eth_tunnelled = record eth_linked {
  ip = record eth_linked.ip { ipv6_status = IpState.up };
  wan = record eth_linked.wan { enable_dslite = true };
  ds_lite = record eth_linked.ds_lite { status = IpState.up };
}

tunnel_flaps_example :
    ((passes quiet true (2 * 4) (go (eth_machine eth_tunnelled) ipv6_leased)).state ≡ ipv6_leased)
    × ((passes quiet true (2 * 4 + 1) (go (eth_machine eth_tunnelled) ipv6_leased)).state
        ≡ ipv4_leased)
unfolding zero_iface
tunnel_flaps_example =
    tunnel_flaps quiet true (λ log. refl) 4 (eth_machine eth_tunnelled)
      (record { wanted = refl; ipv6_up = refl; unchanged = refl; ipv4_down = refl; tunnel = refl })

never_in_tunnel_example :
    (thread_pass quiet true
      (record (thread_start (controller 1) [] gateway) { db = gateway })).state
    ≢ ipv4_over_ipv6_active
never_in_tunnel_example =
    never_in_tunnel {health_check = true} (passed quiet gateway (started (controller 1) [] gateway))

-- The bridge has its address.
abbrev bridged : Env
bridged = record quiet {
  addresses = λ log. record { name = bridge_name; is_inet6 = true; host = b'2' ∷ one_suffix } ∷ [];
}

-- "2001:db8::/56".
abbrev site : CString
site = b'2' ∷ b'0' ∷ b'0' ∷ b'1' ∷ b':' ∷ b'd' ∷ b'b' ∷ b'8' ∷ b':' ∷ b':' ∷ b'/' ∷ b'5' ∷ b'6' ∷ []

abbrev eth_delegated : Iface
eth_delegated = record eth_linked {
  ip = record eth_linked.ip { ipv6_data = record eth_linked.ip.ipv6_data { site_prefix = site } };
}

-- After the policy has made `eth` the active link, the thread of `dsl` makes a pass.
abbrev chosen : Machine PpState
chosen = pp_pass true (pp_start home)

abbrev dsl_thread : Thread
dsl_thread = record (eth_thread ipv4_leased eth_linked) {
  ctrl = controller 0;
  db = chosen.world.db;
}

chosen-IsWellFormed : IsWellFormed chosen.world.db
chosen-IsWellFormed =
    (pp_pass-IsSound true (pp_start home)
      (pp_start-IsSound home gateway-IsWellFormed nothing_active)).0.well_formed

dsl_writes : OwnWrite chosen.world.db 0 (thread_pass quiet true dsl_thread).db
dsl_writes = thread_pass-OwnWrite quiet true dsl_thread chosen-IsWellFormed

still_active : (load (thread_pass quiet true dsl_thread).db 1).wan.active_link ≡ true
still_active =
    ap (λ f. f.wan.active_link)
      (OwnWrite-load chosen.world.db 0 (thread_pass quiet true dsl_thread).db 1 dsl_writes
        (λ e. omega (arith, e)))
    ∙ active_after_pass

dsl_disturbs : IsDisturbance chosen.world.db (thread_pass quiet true dsl_thread).db
dsl_disturbs =
    FlagWrite-IsDisturbance chosen.world.db chosen-IsWellFormed
      (thread_pass quiet true dsl_thread).db
      (OwnWrite-FlagWrite chosen.world.db 0 (thread_pass quiet true dsl_thread).db dsl_writes)

still_there : 1 < (thread_pass quiet true dsl_thread).db.total
still_there = omega (arith, total_after_pass, dsl_disturbs.total)

dsl_run :
    SystemRun true true (pp_start home) (on_table chosen (thread_pass quiet true dsl_thread).db)
dsl_run = thread_passes quiet dsl_thread (policy_passes begins)

one_active_link_example : let i : ℕ = 1 in i ≡ i
one_active_link_example =
    one_active_link home 1 1 gateway-IsWellFormed nothing_active dsl_run still_there still_there
      still_active still_active
