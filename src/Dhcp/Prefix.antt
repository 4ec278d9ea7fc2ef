-- ===== src/Dhcp/Prefix.antt =====
-- What a DHCPv6 message does to the IPv6 status and to the prefix of the interface.
use rdk_wanmanager.Common.{
  ◌≡◌, refl, ap, sym, subst, ◌∙◌, Bool, true, false, not, ◌&&◌, ◌||◌, Option, some, [],
  if◌then◌else◌, arith,
}
use rdk_wanmanager.Dml.{CString, str_eq, str_eq_sound, is_add, IpState, Iface, Dhcpv6Msg}
use rdk_wanmanager.Interface.Outside.{Env}
use rdk_wanmanager.Interface.Status.{Held}
use rdk_wanmanager.Dhcp.Frame.{take_address-Apart, take_prefix-Apart}
use rdk_wanmanager.Dhcp.Event6.{
  Progress, take_address, take_prefix, take_names, find_address, connect_ipv6, handle_ipv6_msg,
  handle_ipv6_of, handle_dhcpv6_event_data,
}
use rdk_wanmanager.Dhcp.Core.{
  is_valid_prefix, has_prefix, brings, removes, is_found, Core, core, first, second, third,
  status_of, site_of, core-take_address, core-take_prefix, take_address_msg, take_address_iface,
  Answers, core-find_address, connect_ipv6_status, connect_ipv6_site, status_steps, site_steps,
}

module _ (env : Env) (msg : Dhcpv6Msg) (h : Held) (a : Option CString)
    (v : Answers env h.iface.wan.name a) where
  p0 : Progress
  p0 = record { held = h; msg = msg; connected = false }

  prefix_steps :
      core (take_prefix (take_address p0))
      ≡ second
          (has_prefix msg)
          (is_valid_prefix msg)
          (str_eq h.iface.ip.ipv6_data.site_prefix msg.site_prefix)
          (first msg.addr_assigned (is_add msg.addr_cmd) (core p0))
  unfolding p0
  prefix_steps = rw (sym (core-take_address p0)) (
      core-take_prefix (take_address p0)
      ∙ ap
          (λ m.
            second (has_prefix m) (is_valid_prefix m)
              (str_eq (take_address p0).held.iface.ip.ipv6_data.site_prefix m.site_prefix)
              (core (take_address p0)))
          (take_address_msg p0)
      ∙ ap
          (λ f.
            second (has_prefix msg) (is_valid_prefix msg)
              (str_eq f.ip.ipv6_data.site_prefix msg.site_prefix) (core (take_address p0)))
          (take_address_iface p0))

  name_kept : (take_names (take_prefix (take_address p0))).held.iface.wan.name ≡ h.iface.wan.name
  unfolding p0 take_names
  name_kept =
      ap (λ f. f.wan.name) (take_prefix-Apart (take_address p0))
      ∙ ap (λ f. f.wan.name) (take_address-Apart p0)

  core_steps :
      core (find_address env (take_names (take_prefix (take_address p0))))
      ≡ third (is_found a) (
          second
            (has_prefix msg)
            (is_valid_prefix msg)
            (str_eq h.iface.ip.ipv6_data.site_prefix msg.site_prefix)
            (first msg.addr_assigned (is_add msg.addr_cmd) (core p0)))
  unfolding take_names
  core_steps =
      core-find_address env (take_names (take_prefix (take_address p0))) a
        (subst (λ n. Answers env n a) (sym name_kept) v)
      ∙ ap (third (is_found a)) prefix_steps

otherwise : (b : Bool) (x y : Held) → b ≡ false → (if b then x else y) ≡ y
otherwise true x y e = ground arith
otherwise false x y e = refl

-- The message and the steps, up to the end.
module _ (env : Env) (msg : Dhcpv6Msg) (h : Held) (a : Option CString)
    (v : Answers env h.iface.wan.name a) where
  last_step : Progress
  last_step = find_address env (take_names (take_prefix (take_address (p0 env msg h a v))))

  handled :
      {A : Type 0} (g : CString → IpState → A)
      → h.iface.ip.ipc_ipv6_data ≡ some msg
      → msg.is_expired ≡ false
      → let f : Iface = (handle_dhcpv6_event_data env h).iface in
        let f' : Iface = (connect_ipv6 last_step).iface in
        g f.ip.ipv6_data.site_prefix f.ip.ipv6_status
        ≡ g f'.ip.ipv6_data.site_prefix f'.ip.ipv6_status
  unfolding handle_dhcpv6_event_data handle_ipv6_of handle_ipv6_msg p0 last_step
  handled g m x =
      ap
        (λ o.
          let f : Iface = (handle_ipv6_of env o h).iface in
          g f.ip.ipv6_data.site_prefix f.ip.ipv6_status)
        m
      ∙ ap (λ h. g h.iface.ip.ipv6_data.site_prefix h.iface.ip.ipv6_status)
          (otherwise msg.is_expired _ _ x)

module _ (env : Env) (msg : Dhcpv6Msg) (h : Held) (a : Option CString)
    (v : Answers env h.iface.wan.name a) (m : h.iface.ip.ipc_ipv6_data ≡ some msg)
    (x : msg.is_expired ≡ false) where
  -- A DHCPv6 message that is not about the end of the lease decides on IPv6 in this way: the status
  -- is UP if the message brings an address or a valid prefix, or has no address and the interface
  -- has one already; otherwise it is DOWN if the message removes the stored prefix (an addition with
  -- a lifetime of 0 counts as a removal), and otherwise as it was. The stored prefix follows: the
  -- one of the message, none, or the old one.
  pub ipv6_decided :
      let f : Iface = (handle_dhcpv6_event_data env h).iface in
      (f.ip.ipv6_status ≡ (
        if brings msg (is_found a)
        then IpState.up
        else (if removes msg h.iface then IpState.down else h.iface.ip.ipv6_status)))
      × (f.ip.ipv6_data.site_prefix ≡ (
          if brings msg (is_found a)
          then msg.site_prefix
          else (if removes msg h.iface then [] else h.iface.ip.ipv6_data.site_prefix)))
  unfolding p0 last_step
  ipv6_decided =
      let q = core_steps env msg h a v in
      let p : Progress = last_step env msg h a v in
      let c : Core = core (p0 env msg h a v) in
      (
        handled env msg h a v (λ x s. s) m x
            ∙ connect_ipv6_status p
            ∙ ap status_of q
            ∙ status_steps msg.addr_assigned (is_add msg.addr_cmd) (has_prefix msg)
                (is_valid_prefix msg) (str_eq h.iface.ip.ipv6_data.site_prefix msg.site_prefix)
                (is_found a) c refl refl,
        handled env msg h a v (λ x s. x) m x
            ∙ connect_ipv6_site p
            ∙ ap site_of q
            ∙ site_steps msg.addr_assigned (is_add msg.addr_cmd) (has_prefix msg)
                (is_valid_prefix msg) (str_eq h.iface.ip.ipv6_data.site_prefix msg.site_prefix)
                (is_found a) c refl refl,
      )

or_first : (a b c : Bool) → a ≡ true → (a || b || c) ≡ true
or_first a b c e = ground arith

chosen : {A : Type 0} (b : Bool) (x y : A) → b ≡ true → (if b then x else y) ≡ x
chosen true x y e = refl
chosen false x y e = ground arith

last_of : (a b c : Bool) → (a && b && c) ≡ true → c ≡ true
last_of a b c e = ground arith

stored_of :
    (msg : Dhcpv6Msg) (f : Iface)
    → removes msg f ≡ true
    → f.ip.ipv6_data.site_prefix ≡ msg.site_prefix
stored_of msg f r = str_eq_sound _ _ (
    last_of (has_prefix msg) (not (is_valid_prefix msg))
      (str_eq f.ip.ipv6_data.site_prefix msg.site_prefix) r)

-- A prefix that is taken away comes back: if one DHCPv6 message brings an address and removes the
-- stored prefix, then the status is UP and the removed prefix is still the stored one.
pub removed_prefix_returns :
    (env : Env) (msg : Dhcpv6Msg) (h : Held) (a : Option CString)
    → Answers env h.iface.wan.name a
    → h.iface.ip.ipc_ipv6_data ≡ some msg
    → msg.is_expired ≡ false
    → (msg.addr_assigned && is_add msg.addr_cmd) ≡ true
    → removes msg h.iface ≡ true
    → let f : Iface = (handle_dhcpv6_event_data env h).iface in
      (f.ip.ipv6_status ≡ IpState.up)
      × (f.ip.ipv6_data.site_prefix ≡ h.iface.ip.ipv6_data.site_prefix)
removed_prefix_returns env msg h a v m x b r =
    let (p, q) = ipv6_decided env msg h a v m x in
    let e : brings msg (is_found a) ≡ true = or_first _ _ _ b in
    (p ∙ chosen _ _ _ e, q ∙ chosen _ _ _ e ∙ sym (stored_of msg h.iface r))
