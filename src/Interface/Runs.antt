-- ===== src/Interface/Runs.antt =====
-- What one pass of the `switch` does, as a relation: which transition runs, and under which guard.
-- The theorems on the state machine go by cases on it.
use rdk_wanmanager.Common.{◌≡◌, refl, ◌⊎◌, inl, inr, Bool, true, false, ◌||◌, if◌then◌else◌, arith}
use rdk_wanmanager.Dml.{is_link_up, is_link_down, is_link_configuring, is_ip_up, is_ip_down}
use rdk_wanmanager.Interface.Outside.{Log, Env}
use rdk_wanmanager.Interface.Address.{ipv6_address_assigned, set_up_lan_prefix_ipv6}
use rdk_wanmanager.Interface.Transitions.{
  WanState, exit, configuring_wan, validating_wan, obtaining_ip_addresses, ipv4_leased, ipv6_leased,
  dual_stack_active, ipv4_over_ipv6_active, refreshing_wan, deconfiguring_wan, failure, Sm, Outcome,
  go, wan_transition_physical_interface_down, wan_transition_wan_up, wan_transition_wan_validated,
  wan_transition_refreshing_wan, wan_transition_wan_refreshed, wan_transition_ipv4_up,
  wan_transition_ipv4_down, wan_transition_ipv6_up, wan_transition_ipv6_down,
  wan_transition_dual_stack_down, wan_transition_ipv4_over_ipv6_up,
  wan_transition_ipv4_over_ipv6_down, wan_transition_exit,
}
use rdk_wanmanager.Interface.States.{
  wan_process, wan_state_configuring_wan, wan_state_validating_wan, wan_state_refreshing_wan,
  ipv6_arrives, wan_state_obtaining_ip_addresses, wan_state_ipv4_leased, wan_state_ipv6_leased,
  wan_state_dual_stack_active, wan_state_ipv4_over_ipv6_active, wan_state_deconfiguring_wan,
  wan_state_exit, is_lost, has_tunnel, leaves_tunnel,
}

-- The states in which the LAN prefix is set up, and what they know of IPv4.
pub data Prepares (s : Sm) : WanState → Type 0 where
  without_ipv4 : Prepares s obtaining_ip_addresses
  with_ipv4 : is_ip_down s.iface.ip.ipv4_status ≡ false → Prepares s ipv4_leased

module _ (env : Env) (health_check : Bool) where
  pub data Runs (t : WanState) (s : Sm) (o : Outcome) : Type 0 where
    idle_configuring : o ≡ go s configuring_wan → Runs t s o
    idle_obtaining : t ≡ obtaining_ip_addresses → o ≡ go s obtaining_ip_addresses → Runs t s o
    idle_ipv4 : is_ip_down s.iface.ip.ipv4_status ≡ false → o ≡ go s ipv4_leased → Runs t s o
    idle_ipv6 : is_ip_down s.iface.ip.ipv6_status ≡ false → o ≡ go s ipv6_leased → Runs t s o
    idle_dual :
        is_ip_down s.iface.ip.ipv4_status ≡ false
        → is_ip_down s.iface.ip.ipv6_status ≡ false
        → o ≡ go s dual_stack_active
        → Runs t s o
    idle_tunnel : t ≡ ipv4_over_ipv6_active → o ≡ go s ipv4_over_ipv6_active → Runs t s o
    idle_refreshing : o ≡ go s refreshing_wan → Runs t s o
    idle_deconfiguring :
        is_link_down s.iface.wan.link_status ≡ false → o ≡ go s deconfiguring_wan → Runs t s o
    enters_tunnel :
        has_tunnel s.iface ≡ true
        → o ≡ wan_transition_ipv4_over_ipv6_up env health_check s
        → Runs t s o
    leaves :
        t ≡ ipv4_over_ipv6_active
        → o ≡ wan_transition_ipv4_over_ipv6_down env health_check s
        → Runs t s o
    sets_prefix :
        Prepares s t
        → o
          ≡ go
              (record s {
                iface = record s.iface { ip = record s.iface.ip { ipv6_changed = false } };
                log = set_up_lan_prefix_ipv6 env s.iface s.log;
              })
              t
        → Runs t s o
    waits_for_bridge : (log : Log) → Prepares s t → o ≡ go (record s { log = log }) t → Runs t s o
    loses :
        is_lost s ≡ true
        → o ≡ wan_transition_physical_interface_down env health_check s
        → Runs t s o
    comes_up : o ≡ wan_transition_wan_up env health_check s → Runs t s o
    validates : o ≡ wan_transition_wan_validated env health_check s → Runs t s o
    refreshes : o ≡ wan_transition_refreshing_wan env health_check s → Runs t s o
    is_refreshed : o ≡ wan_transition_wan_refreshed env health_check s → Runs t s o
    ipv4_comes : o ≡ wan_transition_ipv4_up env health_check s → Runs t s o
    ipv4_goes : o ≡ wan_transition_ipv4_down env health_check s → Runs t s o
    ipv6_comes :
        (log : Log)
        → o ≡ wan_transition_ipv6_up env health_check (record s { log = log })
        → Runs t s o
    ipv6_goes : o ≡ wan_transition_ipv6_down env health_check s → Runs t s o
    both_go : o ≡ wan_transition_dual_stack_down env health_check s → Runs t s o
    exits :
        t ≡ deconfiguring_wan
        → is_link_down s.iface.wan.link_status ≡ true
        → o ≡ wan_transition_exit env health_check s
        → Runs t s o
    ends : (t ≡ exit) ⊎ (t ≡ failure) → o ≡ wan_state_exit env health_check s → Runs t s o

  Runs-if :
      {t : WanState} {s : Sm} (b : Bool) {x y : Outcome}
      → (b ≡ true → Runs t s x)
      → (b ≡ false → Runs t s y)
      → Runs t s (if b then x else y)
  Runs-if true p q = p refl
  Runs-if false p q = q refl

  module _ (s : Sm) where
    refreshing-Runs : (t : WanState) → Runs t s (wan_state_refreshing_wan env health_check s)
    unfolding wan_state_refreshing_wan
    refreshing-Runs t =
        Runs-if (is_lost s) (λ e. loses e refl)
          (λ _.
            Runs-if (is_link_up s.iface.wan.link_status)
              (λ _. Runs-if s.iface.wan.refresh (λ _. refreshes refl) (λ _. is_refreshed refl))
              (λ _. idle_refreshing refl))

    arrives-Runs : (t : WanState) → Prepares s t → Runs t s (ipv6_arrives env health_check t s)
    unfolding ipv6_arrives
    arrives-Runs t p =
        Runs-if s.iface.ip.ipv6_changed (λ _. sets_prefix p refl)
          (λ _.
            Runs-if (ipv6_address_assigned env s.log).1 (λ _. ipv6_comes _ refl)
              (λ _. waits_for_bridge _ p refl))

    obtaining-Runs :
        Runs obtaining_ip_addresses s (wan_state_obtaining_ip_addresses env health_check s)
    unfolding wan_state_obtaining_ip_addresses
    obtaining-Runs =
        Runs-if (is_lost s) (λ e. loses e refl)
          (λ _.
            Runs-if (is_link_configuring s.iface.wan.link_status || s.iface.wan.refresh)
              (λ _. refreshing-Runs obtaining_ip_addresses)
              (λ _.
                Runs-if (is_ip_up s.iface.ip.ipv4_status) (λ _. ipv4_comes refl)
                  (λ _.
                    Runs-if (is_ip_up s.iface.ip.ipv6_status)
                      (λ _. arrives-Runs obtaining_ip_addresses without_ipv4)
                      (λ _. idle_obtaining refl refl))))

    or_false : (a b c : Bool) → (a || b || c) ≡ false → b ≡ false
    or_false a b c e = ground arith

    ipv4_leased-Runs : Runs ipv4_leased s (wan_state_ipv4_leased env health_check s)
    unfolding wan_state_ipv4_leased
    ipv4_leased-Runs =
        Runs-if (is_lost s || is_ip_down s.iface.ip.ipv4_status || s.iface.ip.ipv4_changed)
          (λ _. ipv4_goes refl)
          (λ e.
            let up = or_false (is_lost s) _ _ e in
            Runs-if (is_ip_up s.iface.ip.ipv6_status) (λ _. arrives-Runs ipv4_leased (with_ipv4 up))
              (λ _. idle_ipv4 up refl))

    ipv6_leased-Runs : Runs ipv6_leased s (wan_state_ipv6_leased env health_check s)
    unfolding wan_state_ipv6_leased
    ipv6_leased-Runs =
        Runs-if (is_lost s || is_ip_down s.iface.ip.ipv6_status || s.iface.ip.ipv6_changed)
          (λ _. ipv6_goes refl)
          (λ e.
            let up = or_false (is_lost s) _ _ e in
            Runs-if (is_ip_up s.iface.ip.ipv4_status) (λ _. ipv4_comes refl)
              (λ _.
                Runs-if (has_tunnel s.iface) (λ h. enters_tunnel h refl) (λ _. idle_ipv6 up refl)))

    dual-Runs : Runs dual_stack_active s (wan_state_dual_stack_active env health_check s)
    unfolding wan_state_dual_stack_active
    dual-Runs =
        Runs-if (is_lost s) (λ _. both_go refl)
          (λ _.
            Runs-if (is_ip_down s.iface.ip.ipv4_status) (λ _. ipv4_goes refl)
              (λ p.
                Runs-if (is_ip_down s.iface.ip.ipv6_status) (λ _. ipv6_goes refl)
                  (λ q.
                    Runs-if (has_tunnel s.iface) (λ h. enters_tunnel h refl)
                      (λ _. idle_dual p q refl))))

  pub wan_process-Runs : (t : WanState) (s : Sm) → Runs t s (wan_process env health_check t s)
  unfolding wan_process wan_state_configuring_wan wan_state_validating_wan
      wan_state_ipv4_over_ipv6_active wan_state_deconfiguring_wan
  wan_process-Runs configuring_wan s =
      Runs-if (is_lost s) (λ e. loses e refl)
        (λ _.
          Runs-if (is_link_up s.iface.wan.link_status) (λ _. comes_up refl)
            (λ _. idle_configuring refl))
  wan_process-Runs validating_wan s =
      Runs-if (is_lost s) (λ e. loses e refl)
        (λ _.
          Runs-if (is_link_configuring s.iface.wan.link_status) (λ _. idle_configuring refl)
            (λ _. validates refl))
  wan_process-Runs obtaining_ip_addresses s = obtaining-Runs s
  wan_process-Runs ipv4_leased s = ipv4_leased-Runs s
  wan_process-Runs ipv6_leased s = ipv6_leased-Runs s
  wan_process-Runs dual_stack_active s = dual-Runs s
  wan_process-Runs ipv4_over_ipv6_active s =
      Runs-if (leaves_tunnel s) (λ _. leaves refl refl) (λ _. idle_tunnel refl refl)
  wan_process-Runs refreshing_wan s = refreshing-Runs s refreshing_wan
  wan_process-Runs deconfiguring_wan s =
      Runs-if (is_link_down s.iface.wan.link_status) (λ e. exits refl e refl)
        (λ e. idle_deconfiguring e refl)
  wan_process-Runs exit s = ends (inl refl) refl
  wan_process-Runs failure s = ends (inr refl) refl
