-- ===== src/Dhcp/Renewal.antt =====
-- What a DHCPv4 message does to the interface that it arrives at.
use rdk_wanmanager.Common.{
  ◌≡◌, refl, ap, sym, ◌∙◌, ◌↔◌, Bool, true, false, not, ◌||◌, none, some, [], if◌then◌else◌, arith,
}
use rdk_wanmanager.Dml.{
  CString, str_eq, str_eq_refl, str_eq_sound, IpState, Iface, Ipv4Data, Dhcpv4Msg,
}
use rdk_wanmanager.Interface.Outside.{Env}
use rdk_wanmanager.Interface.Status.{Held, update_interface_status, with_ipv4_down}
use rdk_wanmanager.Dhcp.Event4.{
  ipv4_msg_info, ipv4_config_changed, with_ipv4_data, ipv4_assigned, handle_ipv4_msg,
  handle_ipv4_of, handle_dhcpv4_event_data,
}

-- The interface with the lease of a message.
abbrev pub leased : Dhcpv4Msg → Iface → Iface
leased msg f = record f {
  ip = record f.ip {
    ipv4_status = IpState.up;
    ipv4_changed = ipv4_config_changed f.ip.ipv4_data msg || f.ip.ipv4_changed;
    ipv4_data = ipv4_msg_info msg;
    ipc_ipv4_data = none;
  };
}

-- The interface without the lease of a message.
abbrev pub released : Dhcpv4Msg → Iface → Iface
released msg f = record f {
  ip = record f.ip {
    ipv4_status = IpState.down;
    ipv4_changed = false;
    ipv4_data = record (ipv4_msg_info msg) { ip = [] };
    ipc_ipv4_data = none;
  };
}

or_if : (b c : Bool) → (if b then true else c) ≡ (b || c)
or_if b c = ground arith

module _ (env : Env) (msg : Dhcpv4Msg) (h : Held) (m : h.iface.ip.ipc_ipv4_data ≡ some msg) where
  pub assigned_leased :
      msg.address_assigned ≡ true → (handle_dhcpv4_event_data env h).iface ≡ leased msg h.iface
  unfolding handle_dhcpv4_event_data handle_ipv4_of handle_ipv4_msg ipv4_assigned with_ipv4_data
      update_interface_status
  assigned_leased a = rw m (
      rw a (rw (or_if (ipv4_config_changed h.iface.ip.ipv4_data msg) h.iface.ip.ipv4_changed) refl))

  pub expired_released :
      msg.address_assigned ≡ false
      → msg.is_expired ≡ true
      → (handle_dhcpv4_event_data env h).iface ≡ released msg h.iface
  unfolding handle_dhcpv4_event_data handle_ipv4_of handle_ipv4_msg with_ipv4_data
      update_interface_status with_ipv4_down
  expired_released a e = rw m (rw a (rw e refl))

-- A message compared with its own data.
unchanged_self : (msg : Dhcpv4Msg) → ipv4_config_changed (ipv4_msg_info msg) msg ≡ false
unfolding ipv4_config_changed ipv4_msg_info
unchanged_self msg = rw (str_eq_refl msg.ip) (
    rw (str_eq_refl msg.mask) (
      rw (str_eq_refl msg.gateway)
        (rw (str_eq_refl msg.dns_server) (rw (str_eq_refl msg.dns_server1) refl))))

-- The message arrives at the interface.
abbrev pub delivered : Dhcpv4Msg → Held → Held
delivered msg h = record h {
  iface = record h.iface { ip = record h.iface.ip { ipc_ipv4_data = some msg } };
}

-- The interface with the flag `Ipv4Changed` set or cleared.
abbrev pub flagged : Bool → Iface → Iface
flagged b f = record f { ip = record f.ip { ipv4_changed = b } }

leased_twice :
    (msg : Dhcpv4Msg) (b : Bool) (f : Iface)
    → leased msg (record (flagged b (leased msg f)) {
      ip = record (flagged b (leased msg f)).ip { ipc_ipv4_data = some msg };
    })
      ≡ flagged b (leased msg f)
leased_twice msg b f = rw (unchanged_self msg) refl

-- A renewal is quiet: if the DHCPv4 client sends a message with an address twice, and `Ipv4Changed` is
-- cleared or set in between, the second one leaves the whole interface as it was before it came; so
-- a flag that was cleared is not set again.
pub renewal_quiet :
    (env : Env) (msg : Dhcpv4Msg) (h : Held) (b : Bool)
    → msg.address_assigned ≡ true
    → let h' : Held = handle_dhcpv4_event_data env (delivered msg h) in
      let k : Held = record h' { iface = flagged b h'.iface } in
      (handle_dhcpv4_event_data env (delivered msg k)).iface ≡ k.iface
renewal_quiet env msg h b a =
    let h' : Held = handle_dhcpv4_event_data env (delivered msg h) in
    let k : Held = record h' { iface = flagged b h'.iface } in
    let p : k.iface ≡ flagged b (leased msg (delivered msg h).iface) =
      ap (flagged b) (assigned_leased env msg (delivered msg h) refl a) in
    assigned_leased env msg (delivered msg k) refl a
    ∙ ap (λ f. leased msg (record f { ip = record f.ip { ipc_ipv4_data = some msg } })) p
    ∙ leased_twice msg b (delivered msg h).iface
    ∙ sym p

-- The five texts that make a change.
pub record SameConfig (d : Ipv4Data) (msg : Dhcpv4Msg) : Type 0 where
  pub ip : d.ip ≡ msg.ip
  pub mask : d.mask ≡ msg.mask
  pub gateway : d.gateway ≡ msg.gateway
  pub dns_server : d.dns_server ≡ msg.dns_server
  pub dns_server1 : d.dns_server1 ≡ msg.dns_server1

same_of : (a b : CString) → not (str_eq a b) ≡ false → a ≡ b
same_of a b e = str_eq_sound a b (ground arith)

none_of :
    (a b c d e : Bool)
    → (a || b || c || d || e) ≡ false
    → (a ≡ false) × (b ≡ false) × (c ≡ false) × (d ≡ false) × (e ≡ false)
none_of a b c d e p = ground arith

config_same :
    (d : Ipv4Data) (msg : Dhcpv4Msg) → ipv4_config_changed d msg ≡ false → SameConfig d msg
unfolding ipv4_config_changed
config_same d msg e =
    let (e1, e2, e3, e4, e5) =
      none_of (not (str_eq d.ip msg.ip)) (not (str_eq d.mask msg.mask))
        (not (str_eq d.gateway msg.gateway)) (not (str_eq d.dns_server msg.dns_server))
        (not (str_eq d.dns_server1 msg.dns_server1)) e in
    record {
      ip = same_of _ _ e1;
      mask = same_of _ _ e2;
      gateway = same_of _ _ e3;
      dns_server = same_of _ _ e4;
      dns_server1 = same_of _ _ e5;
    }

same_config :
    (d : Ipv4Data) (msg : Dhcpv4Msg) → SameConfig d msg → ipv4_config_changed d msg ≡ false
unfolding ipv4_config_changed
same_config d msg c = rw c.ip (
    rw c.mask (
      rw c.gateway (
        rw c.dns_server (
          rw c.dns_server1 (
            rw (str_eq_refl msg.ip) (
              rw (str_eq_refl msg.mask) (
                rw (str_eq_refl msg.gateway)
                  (rw (str_eq_refl msg.dns_server) (rw (str_eq_refl msg.dns_server1) refl)))))))))

-- `IPv4ConfigChanged` is exact: it is FALSE if and only if the address, the mask, the gateway and
-- both name servers of the message are the stored ones.
pub ipv4_config_changed_lem :
    (d : Ipv4Data) (msg : Dhcpv4Msg) → (ipv4_config_changed d msg ≡ false) ↔ SameConfig d msg
ipv4_config_changed_lem d msg = (config_same d msg, same_config d msg)
