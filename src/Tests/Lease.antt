-- ===== src/Tests/Lease.antt =====
-- DHCP messages on the gateway.
use rdk_wanmanager.Common.{
  ℕ, zero, suc, ◌≡◌, refl, ◌⊎◌, true, false, none, some, [], ◌∷◌, arith, pos, if◌then◌else◌,
}
use rdk_wanmanager.Dml.{CString, IpState, Iface, Dhcpv4Msg, Dhcpv6Msg, AddrCommand}
use rdk_wanmanager.Store.Defs.{load, zero_iface}
use rdk_wanmanager.Interface.Transitions.{
  obtaining_ip_addresses, ipv4_leased, ipv6_leased, dual_stack_active,
}
use rdk_wanmanager.Interface.Status.{Held}
use rdk_wanmanager.Interface.Thread.{thread_pass}
use rdk_wanmanager.Dhcp.Event4.{ipv4_msg_info, handle_dhcpv4_event_data}
use rdk_wanmanager.Dhcp.Event6.{handle_dhcpv6_event_data}
use rdk_wanmanager.Dhcp.Renewal.{delivered, flagged, renewal_quiet}
use rdk_wanmanager.Dhcp.Connect.{lease_connects, expiry_disconnects}
use rdk_wanmanager.Dhcp.Core.{brings, removes}
use rdk_wanmanager.Dhcp.Prefix.{ipv6_decided, removed_prefix_returns}
use rdk_wanmanager.Store.Lock.{IsWellFormed}
use rdk_wanmanager.Ipc.Slot.{
  has_room4, has_room6, with_msg4, with_msg6, ipc_new_ipv4_msg, ipc_new_ipv6_msg,
}
use rdk_wanmanager.Ipc.Delivery.{table_at, Delivered, ipc_new_msg-Delivered}
use rdk_wanmanager.Tests.Gateway.{eth_name, gateway, gateway-IsWellFormed}
use rdk_wanmanager.Tests.Home.{quiet, eth_linked, eth_thread, with_eth-IsWellFormed}

-- A lease of 10.0.0.2.
abbrev lease : Dhcpv4Msg
lease = record {
  interface = eth_name;
  ip = b'1' ∷ b'0' ∷ b'.' ∷ b'0' ∷ b'.' ∷ b'0' ∷ b'.' ∷ b'2' ∷ [];
  mask = b'2' ∷ b'5' ∷ b'5' ∷ [];
  gateway = b'1' ∷ b'0' ∷ b'.' ∷ b'0' ∷ b'.' ∷ b'0' ∷ b'.' ∷ b'1' ∷ [];
  dns_server = b'8' ∷ [];
  dns_server1 = b'9' ∷ [];
  address_assigned = true;
  is_expired = false;
  dhcp_state = [];
  dhcp_server_id = [];
  lease_time = 3600;
  downstream_rate = pos 0;
  upstream_rate = pos 0;
  is_time_offset_assigned = false;
  time_offset = pos 0;
  time_zone = [];
}

abbrev expiry : Dhcpv4Msg
expiry = record lease { address_assigned = false; is_expired = true }

renewal_quiet_example :
    let h : Held =
      handle_dhcpv4_event_data quiet (delivered lease (record { iface = eth_linked; log = [] })) in
    let k : Held = record h { iface = flagged false h.iface } in
    (handle_dhcpv4_event_data quiet (delivered lease k)).iface ≡ k.iface
renewal_quiet_example =
    renewal_quiet quiet lease (record { iface = eth_linked; log = [] }) false refl

abbrev told : Dhcpv4Msg → Iface
told msg = record eth_linked { ip = record eth_linked.ip { ipc_ipv4_data = some msg } }

lease_connects_example :
    let n = thread_pass quiet true (eth_thread obtaining_ip_addresses (told lease)) in
    let f = load n.db 1 in
    ((n.state ≡ dual_stack_active) ⊎ (n.state ≡ ipv4_leased))
    × (f.ip.ipv4_status ≡ IpState.up)
    × (f.ip.ipv4_data ≡ ipv4_msg_info lease)
    × (f.ip.ipv4_changed ≡ false)
    × (f.ip.ipc_ipv4_data ≡ none)
unfolding load zero_iface
lease_connects_example =
    lease_connects quiet true (eth_thread obtaining_ip_addresses (told lease)) lease
      (with_eth-IsWellFormed (told lease)) (omega arith) refl refl refl refl refl refl

expiry_disconnects_example :
    let n = thread_pass quiet true (eth_thread ipv4_leased (told expiry)) in
    let f = load n.db 1 in
    ((n.state ≡ ipv6_leased) ⊎ (n.state ≡ obtaining_ip_addresses))
    × (f.ip.ipv4_status ≡ IpState.down)
    × (f.ip.ipv4_data.ip ≡ [])
    × (f.ip.ipv4_changed ≡ false)
    × (f.ip.ipc_ipv4_data ≡ none)
unfolding load zero_iface
expiry_disconnects_example =
    expiry_disconnects quiet true (eth_thread ipv4_leased (told expiry)) expiry
      (with_eth-IsWellFormed (told expiry)) (omega arith) refl refl refl refl refl

-- "2001::/56".
abbrev site : CString
site = b'2' ∷ b'0' ∷ b'0' ∷ b'1' ∷ b':' ∷ b':' ∷ b'/' ∷ b'5' ∷ b'6' ∷ []

-- An address, and the removal of a prefix.
abbrev address_only : Dhcpv6Msg
address_only = record {
  ifname = eth_name;
  address = b'2' ∷ b'0' ∷ b'0' ∷ b'1' ∷ b':' ∷ b':' ∷ b'2' ∷ [];
  pd_if_address = [];
  nameserver = [];
  nameserver1 = [];
  domain_name = [];
  site_prefix = site;
  site_prefix_old = [];
  prefix_pltime = 0;
  prefix_vltime = 0;
  is_expired = false;
  addr_assigned = true;
  addr_cmd = AddrCommand.add;
  prefix_assigned = true;
  prefix_cmd = AddrCommand.remove;
  dns_assigned = false;
  domain_name_assigned = false;
}

abbrev delegated : Held
delegated = record {
  iface = record eth_linked {
    ip = record eth_linked.ip {
      ipv6_status = IpState.up;
      ipv6_data = record eth_linked.ip.ipv6_data { site_prefix = site };
      ipc_ipv6_data = some address_only;
    };
  };
  log = [];
}

ipv6_decided_example :
    let f : Iface = (handle_dhcpv6_event_data quiet delegated).iface in
    (f.ip.ipv6_status ≡ (
      if brings address_only false
      then IpState.up
      else (if removes address_only delegated.iface then IpState.down else IpState.up)))
    × (f.ip.ipv6_data.site_prefix ≡ (
        if brings address_only false
        then site
        else (if removes address_only delegated.iface then [] else site)))
ipv6_decided_example = ipv6_decided quiet address_only delegated none (λ log. refl) refl refl

removed_prefix_returns_example :
    let f : Iface = (handle_dhcpv6_event_data quiet delegated).iface in
    (f.ip.ipv6_status ≡ IpState.up) × (f.ip.ipv6_data.site_prefix ≡ site)
removed_prefix_returns_example =
    removed_prefix_returns quiet address_only delegated none (λ log. refl) refl refl refl refl

home_at-IsWellFormed : (j : ℕ) → IsWellFormed (table_at (λ i db. db) (λ i. true) gateway j)
unfolding table_at
home_at-IsWellFormed zero = gateway-IsWellFormed
home_at-IsWellFormed (suc j) = home_at-IsWellFormed j

ipc_new_msg-Delivered_example :
    Delivered
      (λ i db. db)
      (λ i. true)
      gateway
      has_room4
      (with_msg4 lease)
      eth_name
      0
      5
      (ipc_new_ipv4_msg (λ i db. db) (λ i. true) lease gateway)
    × Delivered
        (λ i db. db)
        (λ i. true)
        gateway
        has_room6
        (with_msg6 address_only)
        eth_name
        0
        5
        (ipc_new_ipv6_msg (λ i db. db) (λ i. true) address_only gateway)
ipc_new_msg-Delivered_example =
    ipc_new_msg-Delivered (λ i db. db) (λ i. true) gateway lease address_only home_at-IsWellFormed
