-- ===== src/Dhcp/Connect.antt =====
-- From a DHCPv4 message to the state of the interface, in one pass of its thread.
use rdk_wanmanager.Common.{
  ◌<◌, ◌≡◌, refl, ap, sym, subst, ◌∙◌, ◌⊎◌, inl, inr, Bool, true, false, ◌||◌, none, some, [],
  if◌then◌else◌, to_uint, arith,
}
use rdk_wanmanager.Dml.{IpState, Iface, Dhcpv4Msg, is_link_configuring, is_ip_up, is_ip_down}
use rdk_wanmanager.Store.Defs.{load}
use rdk_wanmanager.Store.Lock.{IsWellFormed}
use rdk_wanmanager.Interface.Outside.{Env}
use rdk_wanmanager.Interface.Status.{Held, update_interface_status, with_ipv4_down}
use rdk_wanmanager.Interface.Transitions.{
  WanState, obtaining_ip_addresses, ipv4_leased, ipv6_leased, dual_stack_active, Sm, Outcome,
  wan_transition_ipv4_up, wan_transition_ipv4_down, with_ipv4_up,
}
use rdk_wanmanager.Interface.States.{
  is_lost, wan_process, wan_state_obtaining_ip_addresses, wan_state_ipv4_leased,
}
use rdk_wanmanager.Interface.Thread.{Thread, view, handle_ipc_msg, thread_pass}
use rdk_wanmanager.Interface.Passes.{enabled, received, switched, thread_pass_switch}
use rdk_wanmanager.Dhcp.Event4.{ipv4_msg_info, handle_dhcpv4_event_data}
use rdk_wanmanager.Dhcp.Event6.{handle_dhcpv6_event_data, handle_ipv6_of}
use rdk_wanmanager.Dhcp.Renewal.{leased, released, assigned_leased, expired_released}

either_state : (b : Bool) (x y : WanState) → let z = (if b then x else y) in (z ≡ x) ⊎ (z ≡ y)
either_state true x y = inl refl
either_state false x y = inr refl

module _ (env : Env) (health_check : Bool) (s : Sm) where
  ipv4_up_state :
      let o : Outcome = wan_transition_ipv4_up env health_check s in
      (o.state ≡ dual_stack_active) ⊎ (o.state ≡ ipv4_leased)
  unfolding wan_transition_ipv4_up
  ipv4_up_state = either_state _ dual_stack_active ipv4_leased

  ipv4_down_state :
      let o : Outcome = wan_transition_ipv4_down env health_check s in
      (o.state ≡ ipv6_leased) ⊎ (o.state ≡ obtaining_ip_addresses)
  unfolding wan_transition_ipv4_down
  ipv4_down_state = either_state _ ipv6_leased obtaining_ip_addresses

  ipv4_up_iface :
      (wan_transition_ipv4_up env health_check s).sm.iface ≡ with_ipv4_up env health_check s.iface
  unfolding wan_transition_ipv4_up
  ipv4_up_iface = refl

  ipv4_down_iface : (wan_transition_ipv4_down env health_check s).sm.iface ≡ with_ipv4_down s.iface
  unfolding wan_transition_ipv4_down update_interface_status
  ipv4_down_iface = refl

  runs_ipv4_up :
      is_lost s ≡ false
      → (is_link_configuring s.iface.wan.link_status || s.iface.wan.refresh) ≡ false
      → is_ip_up s.iface.ip.ipv4_status ≡ true
      → wan_process env health_check obtaining_ip_addresses s
        ≡ wan_transition_ipv4_up env health_check s
  unfolding wan_process wan_state_obtaining_ip_addresses
  runs_ipv4_up l r u = rw l (rw r (rw u refl))

  down_or : (a b c : Bool) → b ≡ true → (a || b || c) ≡ true
  down_or a b c e = ground arith

  runs_ipv4_down :
      is_ip_down s.iface.ip.ipv4_status ≡ true
      → wan_process env health_check ipv4_leased s ≡ wan_transition_ipv4_down env health_check s
  unfolding wan_process wan_state_ipv4_leased
  runs_ipv4_down d =
      rw (down_or (is_lost s) (is_ip_down s.iface.ip.ipv4_status) s.iface.ip.ipv4_changed d) refl

no_ipv6_msg :
    (env : Env) (h : Held) → h.iface.ip.ipc_ipv6_data ≡ none → handle_dhcpv6_event_data env h ≡ h
unfolding handle_dhcpv6_event_data handle_ipv6_of
no_ipv6_msg env h m = rw m refl

-- The interface of a thread.
abbrev pub own : Thread → Iface
own t = load t.db (to_uint t.ctrl.interface_idx)

module _ (env : Env) (health_check : Bool) (t : Thread) (msg : Dhcpv4Msg)
    (m : (own t).ip.ipc_ipv4_data ≡ some msg) (m6 : (own t).ip.ipc_ipv6_data ≡ none) where
  received-leased :
      msg.address_assigned ≡ true → (received env health_check t).iface ≡ leased msg (own t)
  unfolding handle_ipc_msg
  received-leased a =
      let h : Held = record { iface = own t; log = t.log } in
      let e : (handle_dhcpv4_event_data env h).iface ≡ leased msg (own t) =
        assigned_leased env msg h m a in
      ap (λ h. h.iface)
        (no_ipv6_msg env (handle_dhcpv4_event_data env h) (ap (λ f. f.ip.ipc_ipv6_data) e ∙ m6))
      ∙ e

  received-released :
      msg.address_assigned ≡ false
      → msg.is_expired ≡ true
      → (received env health_check t).iface ≡ released msg (own t)
  unfolding handle_ipc_msg
  received-released a x =
      let h : Held = record { iface = own t; log = t.log } in
      let e : (handle_dhcpv4_event_data env h).iface ≡ released msg (own t) =
        expired_released env msg h m a x in
      ap (λ h. h.iface)
        (no_ipv6_msg env (handle_dhcpv4_event_data env h) (ap (λ f. f.ip.ipc_ipv6_data) e ∙ m6))
      ∙ e

-- A `switch` that runs a transition to `u` leaves its interface and its state.
switch_to :
    (env : Env) (health_check : Bool) (t : Thread) (u : Outcome) (f : Iface)
    → IsWellFormed t.db
    → to_uint t.ctrl.interface_idx < t.db.total
    → switched env health_check t ≡ u
    → u.sm.iface ≡ f
    → let n = thread_pass env health_check t in
      (n.state ≡ u.state) × (load n.db (to_uint t.ctrl.interface_idx) ≡ f)
switch_to env b t u f v h e i =
    let (p, q) = thread_pass_switch env b t v h in
    (p ∙ ap (λ o. o.state) e, q ∙ ap (λ o. o.sm.iface) e ∙ i)

module _ (env : Env) (health_check : Bool) (t : Thread) (msg : Dhcpv4Msg) (v : IsWellFormed t.db)
    (h : to_uint t.ctrl.interface_idx < t.db.total) (m : (own t).ip.ipc_ipv4_data ≡ some msg)
    (m6 : (own t).ip.ipc_ipv6_data ≡ none) where
  -- The machine, with what the message left of the interface.
  machine : Sm
  machine = view (record t.ctrl { wan_enable = enabled t.ctrl t.db }) (received env health_check t)

  -- A lease connects in one pass: a thread that obtains addresses, whose interface is wanted and
  -- settled and has a DHCPv4 message with an address, and no DHCPv6 message, is in IPV4_LEASED or
  -- DUAL_STACK_ACTIVE after the pass; its IPv4 address is up with the data of the message, the change
  -- is acknowledged, and the message is gone.
  pub lease_connects :
      t.state ≡ obtaining_ip_addresses
      → msg.address_assigned ≡ true
      → is_lost (
          view
            (record t.ctrl { wan_enable = enabled t.ctrl t.db })
            (record { iface = own t; log = t.log }))
        ≡ false
      → (is_link_configuring (own t).wan.link_status || (own t).wan.refresh) ≡ false
      → let n = thread_pass env health_check t in
        let f = load n.db (to_uint t.ctrl.interface_idx) in
        ((n.state ≡ dual_stack_active) ⊎ (n.state ≡ ipv4_leased))
        × (f.ip.ipv4_status ≡ IpState.up)
        × (f.ip.ipv4_data ≡ ipv4_msg_info msg)
        × (f.ip.ipv4_changed ≡ false)
        × (f.ip.ipc_ipv4_data ≡ none)
  unfolding machine with_ipv4_up
  lease_connects o a l r =
      let e = received-leased env health_check t msg m m6 a in
      let up : Outcome = wan_transition_ipv4_up env health_check machine in
      let run : switched env health_check t ≡ up =
        ap (λ s. wan_process env health_check s machine) o
        ∙ runs_ipv4_up env health_check machine (rw e l) (rw e r) (rw e refl) in
      let (p, q) =
        switch_to env health_check t up _ v h run
          (ipv4_up_iface env health_check machine ∙ ap (with_ipv4_up env health_check) e) in
      (
        subst (λ z. (z ≡ dual_stack_active) ⊎ (z ≡ ipv4_leased)) (sym p)
            (ipv4_up_state env health_check machine),
        ap (λ f. f.ip.ipv4_status) q,
        ap (λ f. f.ip.ipv4_data) q,
        ap (λ f. f.ip.ipv4_changed) q,
        ap (λ f. f.ip.ipc_ipv4_data) q,
      )

  -- An expired lease takes IPv4 down in one pass: a thread in IPV4_LEASED, whose interface has a
  -- DHCPv4 message that the lease expired, and no DHCPv6 message, is in IPV6_LEASED or obtains
  -- addresses after the pass; its IPv4 address is down and erased, and the message is gone.
  pub expiry_disconnects :
      t.state ≡ ipv4_leased
      → msg.address_assigned ≡ false
      → msg.is_expired ≡ true
      → let n = thread_pass env health_check t in
        let f = load n.db (to_uint t.ctrl.interface_idx) in
        ((n.state ≡ ipv6_leased) ⊎ (n.state ≡ obtaining_ip_addresses))
        × (f.ip.ipv4_status ≡ IpState.down)
        × (f.ip.ipv4_data.ip ≡ [])
        × (f.ip.ipv4_changed ≡ false)
        × (f.ip.ipc_ipv4_data ≡ none)
  unfolding machine with_ipv4_down
  expiry_disconnects o a x =
      let e = received-released env health_check t msg m m6 a x in
      let down : Outcome = wan_transition_ipv4_down env health_check machine in
      let run : switched env health_check t ≡ down =
        ap (λ s. wan_process env health_check s machine) o
        ∙ runs_ipv4_down env health_check machine (rw e refl) in
      let (p, q) =
        switch_to env health_check t down _ v h run
          (ipv4_down_iface env health_check machine ∙ ap with_ipv4_down e) in
      (
        subst (λ z. (z ≡ ipv6_leased) ⊎ (z ≡ obtaining_ip_addresses)) (sym p)
            (ipv4_down_state env health_check machine),
        ap (λ f. f.ip.ipv4_status) q,
        ap (λ f. f.ip.ipv4_data.ip) q,
        ap (λ f. f.ip.ipv4_changed) q,
        ap (λ f. f.ip.ipc_ipv4_data) q,
      )
