-- ===== src/Interface/Status.antt =====
-- The writes to an interface that the state machine and the DHCP events share:
-- `WanManager_UpdateInterfaceStatus` and `WanManager_ClearDHCPData` of
-- source/WanManager/wanmgr_interface_sm.c, and the sysevent helpers of
-- source/WanManager/wanmgr_sysevents.c under them.
use rdk_wanmanager.Common.{false, none, [], ◌∷◌, if◌then◌else◌, pos}
use rdk_wanmanager.Dml.{CString, Dhcpv4Msg, IpState, Iface}
use rdk_wanmanager.Store.Defs.{zero_ipv4_data, zero_ipv6_data}
use rdk_wanmanager.Interface.Outside.{Key, text, number, offset, Field, syscfg_set, Log, put}
use rdk_wanmanager.Interface.Address.{any_address, digit_zero}

-- `wanmgr_iface_status_t`, without the values under FEATURE_MAPT.
pub data IfaceEvent : Type 0 where
  link_up link_down connection_up connection_down : IfaceEvent
  connection_ipv6_up connection_ipv6_down status_error : IfaceEvent

-- "set" and "unset".
abbrev pub set_text : CString
set_text = b's' ∷ b'e' ∷ b't' ∷ []

abbrev pub unset_text : CString
unset_text = b'u' ∷ b'n' ∷ b's' ∷ b'e' ∷ b't' ∷ []

-- The time offset, written in the same way by `wanmgr_sysevents_ipv4Info_set` and by the event.
abbrev pub put_time_offset : Dhcpv4Msg → Log → Log
put_time_offset msg log =
    if msg.is_time_offset_assigned
    then put Key.dhcpv4_time_offset (text set_text)
        (put Key.ipv4_time_offset (offset msg.time_offset) log)
    else put Key.dhcpv4_time_offset (text unset_text) log

abbrev put_addresses : Dhcpv4Msg → CString → Log → Log
put_addresses msg name log = put (Key.ipv4_gw_number name) (text (b'1' ∷ [])) (
    put Key.ipv4_wan_subnet (text msg.mask) (
      put (Key.ipv4_subnet name) (text msg.mask) (
        put Key.ipv4_wan_address (text msg.ip) (
          put (Key.ipv4_ip_address name) (text msg.ip)
            (put Key.current_wan_ifname (text msg.interface) log)))))

abbrev put_servers : Dhcpv4Msg → CString → Log → Log
put_servers msg name log = put (Key.ipv4_dns_secondary name) (text msg.dns_server1) (
    put (Key.ipv4_dns_primary name) (text msg.dns_server) (
      put (Key.ipv4_dns_number name) (text (b'2' ∷ [])) (
        put Key.ipv4_default_router (text msg.gateway)
          (put (Key.ipv4_gw_address name) (text msg.gateway) log))))

abbrev pub put_rates : Dhcpv4Msg → CString → Log → Log
put_rates msg name log =
    put (Key.ipv4_us_current_rate name) (number msg.upstream_rate)
      (put (Key.ipv4_ds_current_rate name) (number msg.downstream_rate) log)

-- `wanmgr_sysevents_ipv4Info_set`.
unfoldable pub ipv4_info_set : Dhcpv4Msg → CString → Log → Log
ipv4_info_set msg name log =
    let log1 : Log = put_rates msg name (put_servers msg name (put_addresses msg name log)) in
    let log2 : Log = put Key.ipv4_time_zone (text msg.time_zone) (put_time_offset msg log1) in
    put (Key.ipv4_lease_time msg.interface) (number (pos msg.lease_time)) (
      put (Key.ipv4_dhcp_state msg.interface) (text msg.dhcp_state)
        (put (Key.ipv4_dhcp_server msg.interface) (text msg.dhcp_server_id) log2))

-- The message that `wanmgr_sysevents_ipv4Info_init` builds.
abbrev reset_msg : Dhcpv4Msg
reset_msg = record {
  interface = [];
  ip = any_address;
  mask = any_address;
  gateway = any_address;
  dns_server = any_address;
  dns_server1 = any_address;
  address_assigned = false;
  is_expired = false;
  dhcp_state = [];
  dhcp_server_id = [];
  lease_time = 0;
  downstream_rate = pos 0;
  upstream_rate = pos 0;
  is_time_offset_assigned = false;
  time_offset = pos 0;
  time_zone = [];
}

-- `wanmgr_sysevents_ipv4Info_init`.
unfoldable pub ipv4_info_init : CString → Log → Log
unfolding ipv4_info_set
ipv4_info_init name log = ipv4_info_set reset_msg name (
    put (Key.ipv4_start_time name) (text digit_zero)
      (put Key.current_wan_ipaddr (text any_address) log))

-- `wanmgr_sysevents_ipv6Info_init`.
unfoldable pub ipv6_info_init : Log → Log
ipv6_info_init log =
    syscfg_set Field.ipv6_prefix_address []
    ∷ put Key.ipv6_domain (text [])
        (put Key.ipv6_dns_secondary (text []) (put Key.ipv6_dns_primary (text []) log))

-- An interface and the calls so far.
pub record Held : Type 0 where
  pub iface : Iface
  pub log : Log

unfoldable pub with_ipv4_down : Iface → Iface
with_ipv4_down f = record f {
  ip = record f.ip {
    ipv4_status = IpState.down;
    ipv4_changed = false;
    ipv4_data = record f.ip.ipv4_data { ip = [] };
  };
}

unfoldable pub with_ipv6_down : Iface → Iface
with_ipv6_down f = record f {
  ip = record f.ip {
    ipv6_status = IpState.down;
    ipv6_changed = false;
    ipv6_data = record f.ip.ipv6_data {
      address = [];
      pd_if_address = [];
      site_prefix = [];
      nameserver = [];
      nameserver1 = [];
    };
  };
  map = record f.map { status = IpState.down; changed = false };
}

-- `WanManager_UpdateInterfaceStatus`, whose pointer is never NULL in what is modelled.
unfoldable pub update_interface_status : IfaceEvent → Held → Held
unfolding with_ipv4_down with_ipv6_down
update_interface_status link_up h = h
update_interface_status link_down h = h
update_interface_status connection_up h = record h {
  iface = record h.iface { ip = record h.iface.ip { ipv4_status = IpState.up } };
}
update_interface_status connection_down h = record {
  iface = with_ipv4_down h.iface;
  log = ipv4_info_init h.iface.wan.name h.log;
}
update_interface_status connection_ipv6_up h = record h {
  iface = record h.iface { ip = record h.iface.ip { ipv6_status = IpState.up } };
}
update_interface_status connection_ipv6_down h = record {
  iface = with_ipv6_down h.iface;
  log = ipv6_info_init h.log;
}
update_interface_status status_error h = h

-- `WanManager_ClearDHCPData`.
unfoldable pub clear_dhcp_data : Iface → Iface
clear_dhcp_data f = record f {
  ip = record {
    path = [];
    ipv4_status = IpState.down;
    ipv6_status = IpState.down;
    ipv4_changed = false;
    ipv6_changed = false;
    ipv4_data = zero_ipv4_data;
    ipv6_data = zero_ipv6_data;
    dhcp4c_pid = 0;
    dhcp6c_pid = 0;
    ipc_ipv4_data = none;
    ipc_ipv6_data = none;
  };
}
