-- ===== src/Dhcp/Event4.antt =====
-- `wanmgr_handle_dchpv4_event_data` of source/WanManager/wanmgr_dhcpv4_apis.c. The sysevent calls use
-- names and values that fit their buffers.
use rdk_wanmanager.Common.{Bool, true, not, ◌||◌, Option, none, some, if◌then◌else◌, pos, to_int}
use rdk_wanmanager.Dml.{str_eq, Dhcpv4Msg, Ipv4Data, Iface}
use rdk_wanmanager.Interface.Outside.{Key, text, number, Log, Env, put}
use rdk_wanmanager.Interface.Status.{
  connection_up, connection_down, Held, update_interface_status, ipv4_info_set, put_rates,
  put_time_offset,
}

-- `wanmgr_dchpv4_get_ipc_msg_info`.
unfoldable pub ipv4_msg_info : Dhcpv4Msg → Ipv4Data
ipv4_msg_info msg = record {
  ifname = msg.interface;
  ip = msg.ip;
  mask = msg.mask;
  gateway = msg.gateway;
  dns_server = msg.dns_server;
  dns_server1 = msg.dns_server1;
}

-- `IPv4ConfigChanged`.
unfoldable pub ipv4_config_changed : Ipv4Data → Dhcpv4Msg → Bool
ipv4_config_changed d msg =
    not (str_eq d.ip msg.ip)
    || not (str_eq d.mask msg.mask)
    || not (str_eq d.gateway msg.gateway)
    || not (str_eq d.dns_server msg.dns_server)
    || not (str_eq d.dns_server1 msg.dns_server1)

-- "IPV4 optional configuration received".
abbrev optional_config : Dhcpv4Msg → Log → Log
optional_config msg log = put Key.ipv4_time_zone (text msg.time_zone) (
    put_time_offset msg (
      put (Key.ipv4_lease_time msg.interface) (number (to_int msg.lease_time))
        (put_rates msg msg.interface log)))

unfoldable pub with_ipv4_data : Dhcpv4Msg → Iface → Iface
with_ipv4_data msg f = record f { ip = record f.ip { ipv4_data = ipv4_msg_info msg } }

-- The address is assigned.
unfoldable pub ipv4_assigned : Dhcpv4Msg → Held → Held
unfolding with_ipv4_data ipv4_msg_info ipv4_config_changed update_interface_status
ipv4_assigned msg h =
    let changed : Bool = ipv4_config_changed h.iface.ip.ipv4_data msg in
    let f : Iface = record h.iface {
      ip = record h.iface.ip { ipv4_changed = if changed then true else h.iface.ip.ipv4_changed };
    } in
    let log : Log =
      if changed then ipv4_info_set msg msg.interface h.log else optional_config msg h.log in
    update_interface_status connection_up (record { iface = with_ipv4_data msg f; log = log })

-- The message is freed.
abbrev free_ipv4_msg : Held → Held
free_ipv4_msg h = record h {
  iface = record h.iface { ip = record h.iface.ip { ipc_ipv4_data = none } };
}

unfoldable pub handle_ipv4_msg : Env → Dhcpv4Msg → Held → Held
unfolding ipv4_assigned with_ipv4_data ipv4_msg_info update_interface_status
handle_ipv4_msg env msg h =
    let h' : Held = record h {
      log = put (Key.ipv4_start_time msg.interface) (number (pos (env.uptime h.log))) h.log;
    } in
    free_ipv4_msg (
      if msg.address_assigned
      then ipv4_assigned msg h'
      else (if msg.is_expired
          then update_interface_status connection_down
              (record h' { iface = with_ipv4_data msg h'.iface })
          else h'))

unfoldable pub handle_ipv4_of : Env → Option Dhcpv4Msg → Held → Held
unfolding handle_ipv4_msg
handle_ipv4_of env none h = h
handle_ipv4_of env (some msg) h = handle_ipv4_msg env msg h

-- `wanmgr_handle_dchpv4_event_data`; without a message it does nothing.
unfoldable pub handle_dhcpv4_event_data : Env → Held → Held
unfolding handle_ipv4_of
handle_dhcpv4_event_data env h = handle_ipv4_of env h.iface.ip.ipc_ipv4_data h
