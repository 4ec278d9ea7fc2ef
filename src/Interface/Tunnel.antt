-- ===== src/Interface/Tunnel.antt =====
-- `WAN_STATE_IPV4_OVER_IPV6_ACTIVE`, and an interface with a DS-Lite or MAP-T tunnel.
use rdk_wanmanager.Common.{
  ℕ, zero, suc, ◌+◌, ◌*◌, ◌≡◌, ◌≢◌, refl, ◌∙◌, ap, sym, Bool, true, false, arith, to_uint, Option,
  none, some,
}
use rdk_wanmanager.Dml.{IpState}
use rdk_wanmanager.Store.Defs.{Database}
use rdk_wanmanager.Policy.Control.{SmController}
use rdk_wanmanager.Interface.Outside.{Key, Log, Env}
use rdk_wanmanager.Interface.Address.{status_up}
use rdk_wanmanager.Interface.Status.{update_interface_status, with_ipv4_down}
use rdk_wanmanager.Interface.Transitions.{
  WanState, ipv4_leased, ipv6_leased, ipv4_over_ipv6_active, Sm, Outcome, go, wan_transition_start,
  wan_transition_ipv4_down, wan_transition_ipv4_over_ipv6_up, is_connected,
}
use rdk_wanmanager.Interface.States.{
  is_lost, has_tunnel, wan_process, wan_state_ipv4_leased, wan_state_ipv6_leased,
}
use rdk_wanmanager.Interface.Graph.{
  Edge, stays, link_comes, link_goes, validated, refresh, refreshed, refreshed_at_once, ipv4_comes,
  ipv6_comes, both_come, ipv6_follows, ipv6_alone, ipv4_goes, ipv4_follows, ipv4_alone, ipv6_goes,
  dual_to_ipv4, dual_to_ipv6, dual_goes, tunnel_goes, configuring_fails, validating_fails,
  obtaining_fails, refreshing_fails, exits, failure_exits, wan_process-Edge,
}
use rdk_wanmanager.Interface.Thread.{
  Thread, thread_start, start_at, thread_pass, process_at, read_wan_enable,
}
use rdk_wanmanager.Store.Defs.{get_iface_data_locked, get_config_data_locked}
use rdk_wanmanager.Interface.Lost.{switch_pass, passes}

-- The interface has IPv6 and a tunnel, and no IPv4.
pub record IsTunnelled (s : Sm) : Type 0 where
  pub wanted : is_lost s ≡ false
  pub ipv6_up : s.iface.ip.ipv6_status ≡ IpState.up
  pub unchanged : s.iface.ip.ipv6_changed ≡ false
  pub ipv4_down : s.iface.ip.ipv4_status ≡ IpState.down
  pub tunnel : has_tunnel s.iface ≡ true

module _ (env : Env) (health_check : Bool)
    (v : (log : Log) → env.value log Key.ipv6_connection_state ≡ status_up) where
  there :
      (s : Sm) → IsTunnelled s → switch_pass env health_check (go s ipv6_leased) ≡ go s ipv4_leased
  unfolding wan_process wan_state_ipv6_leased wan_transition_ipv4_over_ipv6_up
  there s h = rw h.wanted (rw h.ipv6_up (rw h.unchanged (rw h.ipv4_down (rw h.tunnel refl))))

  torn_down :
      (s : Sm)
      → IsTunnelled s
      → switch_pass env health_check (go s ipv4_leased)
        ≡ wan_transition_ipv4_down env health_check s
  unfolding wan_process wan_state_ipv4_leased
  torn_down s h = rw h.wanted (rw h.ipv4_down refl)

  back_state :
      (s : Sm) → IsTunnelled s → (wan_transition_ipv4_down env health_check s).state ≡ ipv6_leased
  unfolding wan_transition_ipv4_down is_connected update_interface_status with_ipv4_down
  back_state s h = rw h.ipv6_up (rw (v _) refl)

  back-IsTunnelled :
      (s : Sm) → IsTunnelled s → IsTunnelled (wan_transition_ipv4_down env health_check s).sm
  unfolding wan_transition_ipv4_down update_interface_status with_ipv4_down
  back-IsTunnelled s h = record {
    wanted = h.wanted;
    ipv6_up = h.ipv6_up;
    unchanged = h.unchanged;
    ipv4_down = refl;
    tunnel = h.tunnel;
  }

  double : ℕ → ℕ
  double zero = zero
  double (suc n) = suc (suc (double n))

  double_lem : (n : ℕ) → double n ≡ 2 * n
  unfolding double
  double_lem zero = refl
  double_lem (suc n) = ground (arith, double_lem n)

  -- After an even number of passes the machine is in IPV6_LEASED, with the same tunnel.
  comes_back :
      (n : ℕ) (s : Sm)
      → IsTunnelled s
      → (s' : Sm) × IsTunnelled s'
        × (passes env health_check (double n) (go s ipv6_leased) ≡ go s' ipv6_leased)
  unfolding double passes
  comes_back zero s h = (s, h, refl)
  comes_back (suc n) s h =
      let o : Outcome = wan_transition_ipv4_down env health_check s in
      let (s', h', e) = comes_back n o.sm (back-IsTunnelled s h) in
      let two : switch_pass env health_check (switch_pass env health_check (go s ipv6_leased))
          ≡ go o.sm ipv6_leased =
        ap (switch_pass env health_check) (there s h)
        ∙ torn_down s h
        ∙ ap (λ t. go o.sm t) (back_state s h) in
      (s', h', ap (passes env health_check (double n)) two ∙ e)

  passes_then :
      (n : ℕ) (o : Outcome)
      → passes env health_check (suc n) o
        ≡ switch_pass env health_check (passes env health_check n o)
  unfolding passes
  passes_then zero o = refl
  passes_then (suc n) o = passes_then n (switch_pass env health_check o)

  -- An interface that is not lost, with IPv6 up and `Ipv6Changed` clear, IPv4 down, and a DS-Lite or
  -- MAP-T tunnel that is up, never settles: from IPV6_LEASED, with the IPv6 tuple `up` whenever it is
  -- read and with nothing else that changes the interface, the machine is in IPV6_LEASED after every
  -- even number of passes of the `switch` and in IPV4_LEASED after every odd one.
  pub tunnel_flaps :
      (n : ℕ) (s : Sm)
      → IsTunnelled s
      → ((passes env health_check (2 * n) (go s ipv6_leased)).state ≡ ipv6_leased)
        × ((passes env health_check (2 * n + 1) (go s ipv6_leased)).state ≡ ipv4_leased)
  tunnel_flaps n s h =
      let (s', h', e) = comes_back n s h in
      let odd : 2 * n + 1 ≡ suc (2 * n) = omega arith in
      rw odd (
        rw (passes_then (2 * n) (go s ipv6_leased))
          (rw (sym (double_lem n)) (rw e (refl, ap (λ o. o.state) (there s' h')))))

-- A run of an interface thread; between the passes the other threads may do anything to the table.
pub data ThreadRun (health_check : Bool) : Thread → Type 0 where
  started :
      (c : SmController) (log : Log) (db : Database)
      → ThreadRun health_check (thread_start c log db)
  passed :
      {t : Thread} (env : Env) (db : Database)
      → ThreadRun health_check t
      → ThreadRun health_check (thread_pass env health_check (record t { db = db }))

into_tunnel : {t u : WanState} → Edge t u → u ≡ ipv4_over_ipv6_active → t ≡ ipv4_over_ipv6_active
into_tunnel (stays t) e = e
into_tunnel link_comes e = ground arith
into_tunnel link_goes e = ground arith
into_tunnel validated e = ground arith
into_tunnel refresh e = ground arith
into_tunnel refreshed e = ground arith
into_tunnel refreshed_at_once e = ground arith
into_tunnel ipv4_comes e = ground arith
into_tunnel ipv6_comes e = ground arith
into_tunnel both_come e = ground arith
into_tunnel ipv6_follows e = ground arith
into_tunnel ipv6_alone e = ground arith
into_tunnel ipv4_goes e = ground arith
into_tunnel ipv4_follows e = ground arith
into_tunnel ipv4_alone e = ground arith
into_tunnel ipv6_goes e = ground arith
into_tunnel dual_to_ipv4 e = ground arith
into_tunnel dual_to_ipv6 e = ground arith
into_tunnel dual_goes e = ground arith
into_tunnel tunnel_goes e = ground arith
into_tunnel configuring_fails e = ground arith
into_tunnel validating_fails e = ground arith
into_tunnel obtaining_fails e = ground arith
into_tunnel refreshing_fails e = ground arith
into_tunnel exits e = ground arith
into_tunnel failure_exits e = ground arith

module _ (env : Env) (health_check : Bool) where
  process_out_of_tunnel :
      (c : SmController) (log : Log) (s : WanState) (found : Database × Option ℕ)
      → s ≢ ipv4_over_ipv6_active
      → (process_at env health_check c log s found).state ≢ ipv4_over_ipv6_active
  unfolding process_at
  process_out_of_tunnel c log s (db, none) n = λ e. ground arith
  process_out_of_tunnel c log s (db, some p) n =
      λ e. n (into_tunnel (wan_process-Edge env health_check s _) e)

start_out_of_tunnel :
    (c : SmController) (log : Log) (found : Database × Option ℕ)
    → (start_at c log found).state ≢ ipv4_over_ipv6_active
unfolding start_at wan_transition_start
start_out_of_tunnel c log (db, none) = λ e. ground arith
start_out_of_tunnel c log (db, some p) = λ e. ground arith

-- No run of an interface thread, in either build, is ever in `WAN_STATE_IPV4_OVER_IPV6_ACTIVE`,
-- whatever the system answers and the other threads do to the table.
pub never_in_tunnel :
    {health_check : Bool} {t : Thread} → ThreadRun health_check t → t.state ≢ ipv4_over_ipv6_active
unfolding thread_start thread_pass
never_in_tunnel (started c log db) = start_out_of_tunnel c log _
never_in_tunnel (passed {t = t} env db r) =
    let (db', c) = read_wan_enable t.ctrl db (get_config_data_locked db) in
    process_out_of_tunnel env _ c t.log t.state
      (get_iface_data_locked db' (to_uint c.interface_idx)) (never_in_tunnel r)
