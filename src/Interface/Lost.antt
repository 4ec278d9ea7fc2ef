-- ===== src/Interface/Lost.antt =====
-- The `switch` of the interface state machine on an interface that is lost: the WAN or its link is
-- disabled, or it is not the active link.
use rdk_wanmanager.Common.{ℕ, zero, suc, ◌≡◌, Bool, true, false, ◌⊎◌}
use rdk_wanmanager.Dml.{is_ip_up}
use rdk_wanmanager.Interface.Outside.{Env}
use rdk_wanmanager.Interface.Transitions.{
  WanState, configuring_wan, validating_wan, obtaining_ip_addresses, ipv4_leased, ipv6_leased,
  dual_stack_active, ipv4_over_ipv6_active, refreshing_wan, Sm, Outcome,
  wan_transition_physical_interface_down,
}
use rdk_wanmanager.Interface.States.{is_lost, wan_process}

module _ (env : Env) (health_check : Bool) where
  -- Passes of the `switch` without a DHCP event or a change by another thread between them.
  abbrev pub switch_pass : Outcome → Outcome
  switch_pass o = wan_process env health_check o.state o.sm

  unfoldable pub passes : ℕ → Outcome → Outcome
  passes zero o = o
  passes (suc n) o = passes n (switch_pass o)

module _ (health_check : Bool) where
  -- The pass is `wan_transition_physical_interface_down`, whatever the system answers.
  abbrev pub Stops : WanState → Sm → Type 0
  Stops t s =
      (env : Env)
      → wan_process env health_check t s ≡ wan_transition_physical_interface_down env health_check s

  -- What may come between a pass that leaves `s` and the next one: any change after which the
  -- interface is still lost, and no address has come up.
  pub record Between (s s' : Sm) : Type 0 where
    pub lost : is_lost s' ≡ true
    pub ipv4_not_up :
        is_ip_up s.iface.ip.ipv4_status ≡ false → is_ip_up s'.iface.ip.ipv4_status ≡ false
    pub ipv6_not_up :
        is_ip_up s.iface.ip.ipv6_status ≡ false → is_ip_up s'.iface.ip.ipv6_status ≡ false

  -- However the passes go, this one stops the interface, or one of the `n` that follow it does.
  abbrev pub StopsWithin : ℕ → WanState → Sm → Type 0
  StopsWithin zero t s = Stops t s
  StopsWithin (suc n) t s =
      Stops t s
      ⊎ ((env : Env) (s' : Sm)
          → Between (wan_process env health_check t s).sm s'
          → StopsWithin n (wan_process env health_check t s).state s')

  -- Any state that is not itself on the way out.
  pub data IsWorking : WanState → Type 0 where
    configures : IsWorking configuring_wan
    validates : IsWorking validating_wan
    obtains : IsWorking obtaining_ip_addresses
    has_ipv4 : IsWorking ipv4_leased
    has_ipv6 : IsWorking ipv6_leased
    has_both : IsWorking dual_stack_active
    tunnels : IsWorking ipv4_over_ipv6_active
    refreshes : IsWorking refreshing_wan
