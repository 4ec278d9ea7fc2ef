-- ===== src/Interface/Leases.antt =====
-- The state of the interface state machine against the statuses of its interface, and the exit.
use rdk_wanmanager.Common.{
  ◌≡◌, ◌≢◌, refl, ap, ◌⊎◌, inl, inr, Bool, true, false, ◌&&◌, if◌then◌else◌, arith, ◌∷◌,
}
use rdk_wanmanager.Dml.{Iface, WanStatus, is_link_down, is_ip_up, is_ip_down, IpState}
use rdk_wanmanager.Policy.Control.{PlatformStatus}
use rdk_wanmanager.Interface.Outside.{Env, update_platform_status}
use rdk_wanmanager.Interface.Transitions.{
  WanState, exit, configuring_wan, validating_wan, obtaining_ip_addresses, ipv4_leased, ipv6_leased,
  dual_stack_active, ipv4_over_ipv6_active, refreshing_wan, deconfiguring_wan, failure, Sm, Outcome,
  wan_transition_physical_interface_down, wan_transition_wan_up, wan_transition_wan_validated,
  wan_transition_refreshing_wan, wan_transition_wan_refreshed, wan_transition_ipv4_up,
  wan_transition_ipv4_down, wan_transition_ipv6_up, wan_transition_ipv6_down,
  wan_transition_dual_stack_down, wan_transition_ipv4_over_ipv6_up,
  wan_transition_ipv4_over_ipv6_down, wan_transition_exit,
}
use rdk_wanmanager.Interface.States.{wan_process, has_tunnel, wan_state_exit}
use rdk_wanmanager.Interface.Runs.{
  Prepares, without_ipv4, with_ipv4, Runs, idle_configuring, idle_obtaining, idle_ipv4, idle_ipv6,
  idle_dual, idle_tunnel, idle_refreshing, idle_deconfiguring, enters_tunnel, leaves, sets_prefix,
  waits_for_bridge, loses, comes_up, validates, refreshes, is_refreshed, ipv4_comes, ipv4_goes,
  ipv6_comes, ipv6_goes, both_go, exits, ends, wan_process-Runs,
}

-- What a state promises of the interface.
abbrev pub Leases : WanState → Iface → Type 0
Leases dual_stack_active f =
    (is_ip_down f.ip.ipv4_status ≡ false) × (is_ip_down f.ip.ipv6_status ≡ false)
Leases ipv6_leased f = is_ip_down f.ip.ipv6_status ≡ false
Leases ipv4_leased f = (is_ip_down f.ip.ipv4_status ≡ false) ⊎ (has_tunnel f ≡ true)
Leases exit f = Unit {0}
Leases configuring_wan f = Unit {0}
Leases validating_wan f = Unit {0}
Leases obtaining_ip_addresses f = Unit {0}
Leases ipv4_over_ipv6_active f = Unit {0}
Leases refreshing_wan f = Unit {0}
Leases deconfiguring_wan f = Unit {0}
Leases failure f = Unit {0}

Leases-either :
    (b : Bool) (x y : WanState) (f : Iface)
    → (b ≡ true → Leases x f)
    → Leases y f
    → Leases (if b then x else y) f
Leases-either true x y f p q = p refl
Leases-either false x y f p q = q

up_of_and : (s : IpState) (b : Bool) → (is_ip_up s && b) ≡ true → is_ip_down s ≡ false
up_of_and IpState.up b e = refl
up_of_and IpState.down b e = ground arith

module _ (env : Env) (health_check : Bool) (s : Sm) where
  ipv4_up-Leases :
      let o : Outcome = wan_transition_ipv4_up env health_check s in Leases o.state o.sm.iface
  unfolding wan_transition_ipv4_up
  ipv4_up-Leases =
      Leases-either _ dual_stack_active ipv4_leased _
        (λ e. (refl, up_of_and s.iface.ip.ipv6_status _ e)) (inl refl)

  ipv6_up-Leases :
      let o : Outcome = wan_transition_ipv6_up env health_check s in Leases o.state o.sm.iface
  unfolding wan_transition_ipv6_up
  ipv6_up-Leases =
      Leases-either _ dual_stack_active ipv6_leased _
        (λ e. (up_of_and s.iface.ip.ipv4_status _ e, refl)) refl

  ipv4_down-Leases :
      let o : Outcome = wan_transition_ipv4_down env health_check s in Leases o.state o.sm.iface
  unfolding wan_transition_ipv4_down
  ipv4_down-Leases =
      Leases-either _ ipv6_leased obtaining_ip_addresses _
        (λ e. up_of_and s.iface.ip.ipv6_status _ e) tt

  ipv6_down-Leases :
      let o : Outcome = wan_transition_ipv6_down env health_check s in Leases o.state o.sm.iface
  unfolding wan_transition_ipv6_down
  ipv6_down-Leases =
      Leases-either _ ipv4_leased obtaining_ip_addresses _
        (λ e. inl (up_of_and s.iface.ip.ipv4_status _ e)) tt

Prepares-Leases :
    (s : Sm) {t : WanState} (f : Iface)
    → f.ip.ipv4_status ≡ s.iface.ip.ipv4_status
    → Prepares s t
    → Leases t f
Prepares-Leases s f e without_ipv4 = tt
Prepares-Leases s f e (with_ipv4 p) = inl (rw e p)

module _ (env : Env) (health_check : Bool) (t : WanState) (s : Sm)
    (n : t ≢ ipv4_over_ipv6_active) where
  Runs-Leases : (o : Outcome) → Runs env health_check t s o → Leases o.state o.sm.iface
  unfolding wan_transition_physical_interface_down wan_transition_wan_up
      wan_transition_wan_validated wan_transition_refreshing_wan wan_transition_wan_refreshed
      wan_transition_dual_stack_down wan_transition_ipv4_over_ipv6_up wan_transition_exit
      wan_state_exit
  Runs-Leases o (idle_configuring e) = rw e tt
  Runs-Leases o (idle_obtaining _ e) = rw e tt
  Runs-Leases o (idle_ipv4 p e) = rw e (inl p)
  Runs-Leases o (idle_ipv6 p e) = rw e p
  Runs-Leases o (idle_dual p q e) = rw e (p, q)
  Runs-Leases o (idle_tunnel p e) = rw e tt
  Runs-Leases o (idle_refreshing e) = rw e tt
  Runs-Leases o (idle_deconfiguring p e) = rw e tt
  Runs-Leases o (enters_tunnel h e) = rw e (inr h)
  Runs-Leases o (leaves p e) = absurd (n p)
  Runs-Leases o (sets_prefix p e) = rw e (Prepares-Leases s _ refl p)
  Runs-Leases o (waits_for_bridge log p e) = rw e (Prepares-Leases s _ refl p)
  Runs-Leases o (loses h e) = rw e tt
  Runs-Leases o (comes_up e) = rw e tt
  Runs-Leases o (validates e) = rw e tt
  Runs-Leases o (refreshes e) = rw e tt
  Runs-Leases o (is_refreshed e) = rw e tt
  Runs-Leases o (ipv4_comes e) = rw e (ipv4_up-Leases env health_check s)
  Runs-Leases o (ipv4_goes e) = rw e (ipv4_down-Leases env health_check s)
  Runs-Leases o (ipv6_comes log e) = rw e (ipv6_up-Leases env health_check (record s { log = log }))
  Runs-Leases o (ipv6_goes e) = rw e (ipv6_down-Leases env health_check s)
  Runs-Leases o (both_go e) = rw e tt
  Runs-Leases o (exits p h e) = rw e tt
  Runs-Leases o (ends p e) = rw e tt

  -- After a pass of the `switch`, from any state but `WAN_STATE_IPV4_OVER_IPV6_ACTIVE`, the state and
  -- the interface agree: in DUAL_STACK_ACTIVE both addresses are up, in IPV6_LEASED the IPv6 address
  -- is, and in IPV4_LEASED the IPv4 address is up or the interface has an IPv4 over IPv6 tunnel.
  pub wan_process-Leases :
      let o : Outcome = wan_process env health_check t s in Leases o.state o.sm.iface
  wan_process-Leases =
      Runs-Leases (wan_process env health_check t s) (wan_process-Runs env health_check t s)

-- The interface is given back: no longer active, disabled, with nothing left to refresh.
pub record IsReleased (f : Iface) : Type 0 where
  pub disabled : f.wan.status ≡ WanStatus.disabled
  pub inactive : f.wan.active_link ≡ false
  pub no_refresh : f.wan.refresh ≡ false

-- `WAN_STATE_EXIT`, told from the others by a test.
is_exit : WanState → Bool
is_exit exit = true
is_exit configuring_wan = false
is_exit validating_wan = false
is_exit obtaining_ip_addresses = false
is_exit ipv4_leased = false
is_exit ipv6_leased = false
is_exit dual_stack_active = false
is_exit ipv4_over_ipv6_active = false
is_exit refreshing_wan = false
is_exit deconfiguring_wan = false
is_exit failure = false

is_exit-either :
    (b : Bool) (x y : WanState)
    → is_exit x ≡ false
    → is_exit y ≡ false
    → is_exit (if b then x else y) ≡ false
is_exit-either true x y p q = p
is_exit-either false x y p q = q

exit_ne : {a b : Bool} → a ≡ b → b ≡ false → a ≡ true → ⊥
exit_ne p q r = ground arith

module _ (env : Env) (health_check : Bool) (s : Sm) where
  ipv4_up_stays : is_exit (wan_transition_ipv4_up env health_check s).state ≡ false
  unfolding wan_transition_ipv4_up is_exit
  ipv4_up_stays = is_exit-either _ dual_stack_active ipv4_leased refl refl

  ipv4_down_stays : is_exit (wan_transition_ipv4_down env health_check s).state ≡ false
  unfolding wan_transition_ipv4_down is_exit
  ipv4_down_stays = is_exit-either _ ipv6_leased obtaining_ip_addresses refl refl

  ipv6_up_stays : is_exit (wan_transition_ipv6_up env health_check s).state ≡ false
  unfolding wan_transition_ipv6_up is_exit
  ipv6_up_stays = is_exit-either _ dual_stack_active ipv6_leased refl refl

  ipv6_down_stays : is_exit (wan_transition_ipv6_down env health_check s).state ≡ false
  unfolding wan_transition_ipv6_down is_exit
  ipv6_down_stays = is_exit-either _ ipv4_leased obtaining_ip_addresses refl refl

is_exit-Prepares : (s : Sm) {t : WanState} → Prepares s t → is_exit t ≡ false
unfolding is_exit
is_exit-Prepares s without_ipv4 = refl
is_exit-Prepares s (with_ipv4 p) = refl

abbrev Exited : WanState → Sm → Outcome → Type 0
Exited t s o =
    (t ≡ deconfiguring_wan)
    × (is_link_down s.iface.wan.link_status ≡ true)
    × IsReleased o.sm.iface
    × (o.sm.log ≡ update_platform_status PlatformStatus.disconnected ∷ s.log)

module _ (env : Env) (health_check : Bool) (t : WanState) (s : Sm) where
  stays_in : (o u : Outcome) → o ≡ u → is_exit u.state ≡ false → o.state ≡ exit → Exited t s o
  unfolding is_exit
  stays_in o u e h x = absurd (exit_ne (ap (λ o. is_exit o.state) e) h (ap is_exit x))

  released :
      (o : Outcome)
      → t ≡ deconfiguring_wan
      → is_link_down s.iface.wan.link_status ≡ true
      → o ≡ wan_transition_exit env health_check s
      → Exited t s o
  unfolding wan_transition_exit
  released o p h e =
      rw e (p, h, record { disabled = refl; inactive = refl; no_refresh = refl }, refl)

  module _ (n : t ≢ exit) (m : t ≢ failure) where
    Runs_exit : (o : Outcome) → Runs env health_check t s o → o.state ≡ exit → Exited t s o
    unfolding wan_transition_physical_interface_down wan_transition_wan_up
        wan_transition_wan_validated wan_transition_refreshing_wan wan_transition_wan_refreshed
        wan_transition_dual_stack_down wan_transition_ipv4_over_ipv6_up
        wan_transition_ipv4_over_ipv6_down wan_transition_ipv4_up wan_transition_ipv4_down
        wan_transition_ipv6_up wan_transition_ipv6_down is_exit
    Runs_exit o (idle_configuring e) = stays_in o _ e refl
    Runs_exit o (idle_obtaining _ e) = stays_in o _ e refl
    Runs_exit o (idle_ipv4 p e) = stays_in o _ e refl
    Runs_exit o (idle_ipv6 p e) = stays_in o _ e refl
    Runs_exit o (idle_dual p q e) = stays_in o _ e refl
    Runs_exit o (idle_tunnel p e) = stays_in o _ e refl
    Runs_exit o (idle_refreshing e) = stays_in o _ e refl
    Runs_exit o (idle_deconfiguring p e) = stays_in o _ e refl
    Runs_exit o (enters_tunnel h e) = stays_in o _ e refl
    Runs_exit o (leaves p e) = stays_in o _ e refl
    Runs_exit o (sets_prefix p e) = stays_in o _ e (is_exit-Prepares s p)
    Runs_exit o (waits_for_bridge log p e) = stays_in o _ e (is_exit-Prepares s p)
    Runs_exit o (loses h e) = stays_in o _ e refl
    Runs_exit o (comes_up e) = stays_in o _ e refl
    Runs_exit o (validates e) = stays_in o _ e refl
    Runs_exit o (refreshes e) = stays_in o _ e refl
    Runs_exit o (is_refreshed e) = stays_in o _ e refl
    Runs_exit o (ipv4_comes e) = stays_in o _ e (ipv4_up_stays env health_check s)
    Runs_exit o (ipv4_goes e) = stays_in o _ e (ipv4_down_stays env health_check s)
    Runs_exit o (ipv6_comes log e) =
        stays_in o _ e (ipv6_up_stays env health_check (record s { log = log }))
    Runs_exit o (ipv6_goes e) = stays_in o _ e (ipv6_down_stays env health_check s)
    Runs_exit o (both_go e) = stays_in o _ e refl
    Runs_exit o (exits p h e) = λ _. released o p h e
    Runs_exit o (ends p e) = λ _. elim p [ inl a ↦ absurd (n a) | inr b ↦ absurd (m b) ]

-- A machine that is running reaches `WAN_STATE_EXIT` only from DECONFIGURING_WAN, once the link is
-- down; and then it has disabled the interface, cleared its `Wan.ActiveLink` and its refresh
-- request, and reported the WAN as disconnected.
pub wan_process_exit :
    (env : Env) (health_check : Bool) (t : WanState) (s : Sm)
    → t ≢ exit
    → t ≢ failure
    → (wan_process env health_check t s).state ≡ exit
    → (t ≡ deconfiguring_wan)
      × (is_link_down s.iface.wan.link_status ≡ true)
      × IsReleased (wan_process env health_check t s).sm.iface
      × ((wan_process env health_check t s).sm.log
          ≡ update_platform_status PlatformStatus.disconnected ∷ s.log)
wan_process_exit env b t s n m =
    Runs_exit env b t s n m (wan_process env b t s) (wan_process-Runs env b t s)
