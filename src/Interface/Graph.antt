-- ===== src/Interface/Graph.antt =====
-- The state machine of an interface as a graph: which state follows which.
use rdk_wanmanager.Common.{Bool, true, false, ◌||◌, if◌then◌else◌}
use rdk_wanmanager.Dml.{is_link_up, is_link_down, is_link_configuring, is_ip_up, is_ip_down}
use rdk_wanmanager.Interface.Address.{ipv6_address_assigned}
use rdk_wanmanager.Interface.Outside.{Env}
use rdk_wanmanager.Interface.Transitions.{
  WanState, exit, configuring_wan, validating_wan, obtaining_ip_addresses, ipv4_leased, ipv6_leased,
  dual_stack_active, ipv4_over_ipv6_active, refreshing_wan, deconfiguring_wan, failure, Sm, Outcome,
  wan_transition_physical_interface_down, wan_transition_wan_up, wan_transition_wan_validated,
  wan_transition_refreshing_wan, wan_transition_wan_refreshed, wan_transition_ipv4_up,
  wan_transition_ipv4_down, wan_transition_ipv6_up, wan_transition_ipv6_down,
  wan_transition_dual_stack_down, wan_transition_ipv4_over_ipv6_up,
  wan_transition_ipv4_over_ipv6_down, wan_transition_exit,
}
use rdk_wanmanager.Interface.States.{
  has_tunnel, leaves_tunnel, wan_process, wan_state_configuring_wan, wan_state_validating_wan,
  wan_state_refreshing_wan, ipv6_arrives, wan_state_obtaining_ip_addresses, wan_state_ipv4_leased,
  wan_state_ipv6_leased, wan_state_dual_stack_active, wan_state_ipv4_over_ipv6_active,
  wan_state_deconfiguring_wan, wan_state_exit, is_lost,
}

-- The moves of the machine; a state may also stay as it is.
pub data Edge : WanState → WanState → Type 0 where
  stays : (s : WanState) → Edge s s
  link_comes : Edge configuring_wan validating_wan
  link_goes : Edge validating_wan configuring_wan
  validated : Edge validating_wan obtaining_ip_addresses
  refresh : Edge obtaining_ip_addresses refreshing_wan
  refreshed : Edge refreshing_wan obtaining_ip_addresses
  refreshed_at_once : Edge obtaining_ip_addresses obtaining_ip_addresses
  ipv4_comes : Edge obtaining_ip_addresses ipv4_leased
  ipv6_comes : Edge obtaining_ip_addresses ipv6_leased
  both_come : Edge obtaining_ip_addresses dual_stack_active
  ipv6_follows : Edge ipv4_leased dual_stack_active
  ipv6_alone : Edge ipv4_leased ipv6_leased
  ipv4_goes : Edge ipv4_leased obtaining_ip_addresses
  ipv4_follows : Edge ipv6_leased dual_stack_active
  ipv4_alone : Edge ipv6_leased ipv4_leased
  ipv6_goes : Edge ipv6_leased obtaining_ip_addresses
  dual_to_ipv4 : Edge dual_stack_active ipv4_leased
  dual_to_ipv6 : Edge dual_stack_active ipv6_leased
  dual_goes : Edge dual_stack_active obtaining_ip_addresses
  tunnel_goes : Edge ipv4_over_ipv6_active ipv4_leased
  configuring_fails : Edge configuring_wan deconfiguring_wan
  validating_fails : Edge validating_wan deconfiguring_wan
  obtaining_fails : Edge obtaining_ip_addresses deconfiguring_wan
  refreshing_fails : Edge refreshing_wan deconfiguring_wan
  exits : Edge deconfiguring_wan exit
  failure_exits : Edge failure exit

-- An outcome along an edge from `s`.
pub record Along (s : WanState) (o : Outcome) : Type 0 where
  pub edge : Edge s o.state

by : {s : WanState} {o : Outcome} → Edge s o.state → Along s o
by e = record { edge = e }

Along-if :
    {s : WanState} (b : Bool) {x y : Outcome} → Along s x → Along s y → Along s (if b then x else y)
Along-if true p q = p
Along-if false p q = q

Edge-either :
    (s : WanState) (b : Bool) {x y : WanState} → Edge s x → Edge s y → Edge s (if b then x else y)
Edge-either s true p q = p
Edge-either s false p q = q

module _ (env : Env) (health_check : Bool) (s : Sm) where
  down-Along :
      (t : WanState)
      → Edge t deconfiguring_wan
      → Along t (wan_transition_physical_interface_down env health_check s)
  unfolding wan_transition_physical_interface_down
  down-Along t p = by p

  ipv4_up-Along :
      (t : WanState)
      → Edge t dual_stack_active
      → Edge t ipv4_leased
      → Along t (wan_transition_ipv4_up env health_check s)
  unfolding wan_transition_ipv4_up
  ipv4_up-Along t p q = by (Edge-either t _ p q)

  ipv6_up-Along :
      (t : WanState)
      → Edge t dual_stack_active
      → Edge t ipv6_leased
      → Along t (wan_transition_ipv6_up env health_check s)
  unfolding wan_transition_ipv6_up
  ipv6_up-Along t p q = by (Edge-either t _ p q)

  ipv4_down-Along :
      (t : WanState)
      → Edge t ipv6_leased
      → Edge t obtaining_ip_addresses
      → Along t (wan_transition_ipv4_down env health_check s)
  unfolding wan_transition_ipv4_down
  ipv4_down-Along t p q = by (Edge-either t _ p q)

  ipv6_down-Along :
      (t : WanState)
      → Edge t ipv4_leased
      → Edge t obtaining_ip_addresses
      → Along t (wan_transition_ipv6_down env health_check s)
  unfolding wan_transition_ipv6_down
  ipv6_down-Along t p q = by (Edge-either t _ p q)

module _ (env : Env) (health_check : Bool) (s : Sm) where
  refreshing-Along :
      (t : WanState)
      → Edge t deconfiguring_wan
      → Edge t refreshing_wan
      → Edge t obtaining_ip_addresses
      → Along t (wan_state_refreshing_wan env health_check s)
  unfolding wan_state_refreshing_wan wan_transition_refreshing_wan wan_transition_wan_refreshed
  refreshing-Along t d r o = Along-if (is_lost s) (down-Along env health_check s t d) (
      Along-if (is_link_up s.iface.wan.link_status) (Along-if (s.iface.wan.refresh) (by r) (by o))
        (by r))

  arrives-Along :
      (t : WanState)
      → Edge t dual_stack_active
      → Edge t ipv6_leased
      → Along t (ipv6_arrives env health_check t s)
  unfolding ipv6_arrives
  arrives-Along t d l = Along-if (s.iface.ip.ipv6_changed) (by (stays t)) (
      Along-if ((ipv6_address_assigned env s.log).1) (ipv6_up-Along env health_check _ t d l)
        (by (stays t)))

  obtaining-Along :
      Along obtaining_ip_addresses (wan_state_obtaining_ip_addresses env health_check s)
  unfolding wan_state_obtaining_ip_addresses
  obtaining-Along = Along-if (is_lost s) (down-Along env health_check s _ obtaining_fails) (
      Along-if (is_link_configuring s.iface.wan.link_status || s.iface.wan.refresh)
        (refreshing-Along _ obtaining_fails refresh refreshed_at_once)
        (Along-if (is_ip_up s.iface.ip.ipv4_status)
          (ipv4_up-Along env health_check s _ both_come ipv4_comes)
          (Along-if (is_ip_up s.iface.ip.ipv6_status) (arrives-Along _ both_come ipv6_comes)
            (by (stays _)))))

  ipv4_leased-Along : Along ipv4_leased (wan_state_ipv4_leased env health_check s)
  unfolding wan_state_ipv4_leased
  ipv4_leased-Along =
      Along-if (is_lost s || is_ip_down s.iface.ip.ipv4_status || s.iface.ip.ipv4_changed)
        (ipv4_down-Along env health_check s _ ipv6_alone ipv4_goes)
        (Along-if (is_ip_up s.iface.ip.ipv6_status) (arrives-Along _ ipv6_follows ipv6_alone)
          (by (stays _)))

  ipv6_leased-Along : Along ipv6_leased (wan_state_ipv6_leased env health_check s)
  unfolding wan_state_ipv6_leased wan_transition_ipv4_over_ipv6_up
  ipv6_leased-Along =
      Along-if (is_lost s || is_ip_down s.iface.ip.ipv6_status || s.iface.ip.ipv6_changed)
        (ipv6_down-Along env health_check s _ ipv4_alone ipv6_goes)
        (Along-if (is_ip_up s.iface.ip.ipv4_status)
          (ipv4_up-Along env health_check s _ ipv4_follows ipv4_alone)
          (Along-if (has_tunnel s.iface) (by ipv4_alone) (by (stays _))))

  dual-Along : Along dual_stack_active (wan_state_dual_stack_active env health_check s)
  unfolding wan_state_dual_stack_active wan_transition_ipv4_over_ipv6_up
      wan_transition_dual_stack_down
  dual-Along = Along-if (is_lost s) (by dual_goes) (
      Along-if (is_ip_down s.iface.ip.ipv4_status)
        (ipv4_down-Along env health_check s _ dual_to_ipv6 dual_goes)
        (Along-if (is_ip_down s.iface.ip.ipv6_status)
          (ipv6_down-Along env health_check s _ dual_to_ipv4 dual_goes)
          (Along-if (has_tunnel s.iface) (by dual_to_ipv4) (by (stays _)))))

wan_process-Along :
    (env : Env) (health_check : Bool) (t : WanState) (s : Sm)
    → Along t (wan_process env health_check t s)
unfolding wan_process wan_state_configuring_wan wan_state_validating_wan
    wan_state_ipv4_over_ipv6_active wan_state_deconfiguring_wan wan_state_exit wan_transition_wan_up
    wan_transition_wan_validated wan_transition_ipv4_over_ipv6_down wan_transition_exit
wan_process-Along env b configuring_wan s =
    Along-if (is_lost s) (down-Along env b s _ configuring_fails)
      (Along-if (is_link_up s.iface.wan.link_status) (by link_comes) (by (stays _)))
wan_process-Along env b validating_wan s =
    Along-if (is_lost s) (down-Along env b s _ validating_fails)
      (Along-if (is_link_configuring s.iface.wan.link_status) (by link_goes) (by validated))
wan_process-Along env b obtaining_ip_addresses s = obtaining-Along env b s
wan_process-Along env b ipv4_leased s = ipv4_leased-Along env b s
wan_process-Along env b ipv6_leased s = ipv6_leased-Along env b s
wan_process-Along env b dual_stack_active s = dual-Along env b s
wan_process-Along env b ipv4_over_ipv6_active s =
    Along-if (leaves_tunnel s) (by tunnel_goes) (by (stays _))
wan_process-Along env b refreshing_wan s =
    refreshing-Along env b s _ refreshing_fails (stays _) refreshed
wan_process-Along env b deconfiguring_wan s =
    Along-if (is_link_down s.iface.wan.link_status) (by exits) (by (stays _))
wan_process-Along env b exit s = by (stays _)
wan_process-Along env b failure s = by failure_exits

-- A pass of the `switch` moves the machine along an edge of the graph above, for any interface, any
-- answers of the system, and in both builds.
pub wan_process-Edge :
    (env : Env) (health_check : Bool) (t : WanState) (s : Sm)
    → Edge t (wan_process env health_check t s).state
wan_process-Edge env b t s = (wan_process-Along env b t s).edge
