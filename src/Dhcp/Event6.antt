-- ===== src/Dhcp/Event6.antt =====
-- `wanmgr_handle_dchpv6_event_data` of source/WanManager/wanmgr_dhcpv6_apis.c, without FEATURE_MAPT.
-- A part of the function is a function of its own; it takes the interface's data as they are when it
-- starts to work, since `pDhcp6cInfoCur` points into the interface.
use rdk_wanmanager.Common.{
  Bool, true, false, not, ◌&&◌, ◌||◌, Option, none, some, [], ◌∷◌, ◌++◌, if◌then◌else◌, to_int,
  take, ◌==◌,
}
use rdk_wanmanager.Dml.{
  CString, str_eq, is_empty, before, has_byte, Dhcpv6Msg, is_add, IpState, Ipv6Data, Iface,
}
use rdk_wanmanager.Interface.Outside.{
  Key, text, number, null, Field, syscfg_set, ipv6_addr_lifetime, find_global_address, Log, Env,
  put,
}
use rdk_wanmanager.Interface.Address.{slash, slash_64}
use rdk_wanmanager.Interface.Status.{connection_ipv6_down, Held, update_interface_status}

-- `wanmgr_dchpv6_get_ipc_msg_info`.
unfoldable pub ipv6_msg_info : Dhcpv6Msg → Ipv6Data
ipv6_msg_info msg = record {
  ifname = msg.ifname;
  address = msg.address;
  pd_if_address = msg.pd_if_address;
  nameserver = msg.nameserver;
  nameserver1 = msg.nameserver1;
  domain_name = msg.domain_name;
  site_prefix = msg.site_prefix;
  prefix_pltime = msg.prefix_pltime;
  prefix_vltime = msg.prefix_vltime;
  site_prefix_old = msg.site_prefix_old;
}

-- The interface, the message, which the code writes to, and `connected`.
pub record Progress : Type 0 where
  pub held : Held
  pub msg : Dhcpv6Msg
  pub connected : Bool

abbrev say : Progress → (Log → Log) → Progress
say p f = record p { held = record p.held { log = f p.held.log } }

abbrev current : Progress → Ipv6Data
current p = p.held.iface.ip.ipv6_data

-- A value is stored if it is new.
abbrev store_new : Field → CString → CString → Log → Log
store_new k old new log = if not (str_eq old new) then syscfg_set k new ∷ log else log

abbrev put_new : Key → CString → CString → Log → Log
put_new k old new log = if not (str_eq old new) then put k (text new) log else log

-- "dhcp6c receives an IPv6 address for WAN interface".
unfoldable pub take_address : Progress → Progress
take_address p =
    if p.msg.addr_assigned
    then (if is_add p.msg.addr_cmd
        then record (say p (store_new Field.ipv6_address (current p).address p.msg.address)) {
          connected = true;
        }
        else say p (λ log. syscfg_set Field.ipv6_address [] ∷ log))
    else p

-- `set_value` and the message's `pdIfAddress`, BUFLEN_64 and BUFLEN_48.
abbrev prefix_address : CString → CString
prefix_address site = take 63 (before slash site ++ (b'1' ∷ []))

abbrev pd_if_address : CString → CString
pd_if_address site = take 47 (prefix_address site ++ slash_64)

-- "create global IPv6 address (<prefix>::1)".
unfoldable pub make_global_address : Progress → Progress
make_global_address p =
    let site : CString = p.msg.site_prefix in
    let pd : CString = pd_if_address site in
    let log1 : Log =
      if not (str_eq (current p).pd_if_address pd)
      then put Key.tr_brlan0_dhcpv6_server_address (text (prefix_address site))
          (syscfg_set Field.ipv6_prefix_address pd ∷ p.held.log)
      else p.held.log in
    let log2 : Log =
      if not (str_eq (current p).site_prefix site)
      then put Key.ipv6_prefix (text (before slash site ++ slash_64)) log1
      else log1 in
    record p { held = record p.held { log = log2 }; msg = record p.msg { pd_if_address = pd } }

abbrev store_lifetimes : Ipv6Data → Dhcpv6Msg → Log → Log
store_lifetimes d msg log =
    let log1 : Log =
      if not (d.prefix_vltime == msg.prefix_vltime)
      then put Key.ipv6_prefix_vltime (number (to_int msg.prefix_vltime)) log
      else log in
    if not (d.prefix_pltime == msg.prefix_pltime)
    then put Key.ipv6_prefix_pltime (number (to_int msg.prefix_pltime)) log1
    else log1

-- "assigned prefix".
unfoldable pub add_prefix : Progress → Progress
unfolding make_global_address
add_prefix p =
    let d : Ipv6Data = current p in
    let p' : Progress =
      say (record p { connected = true })
        (λ log. store_new Field.ipv6_prefix d.site_prefix p.msg.site_prefix (
          store_new Field.previous_ipv6_prefix d.site_prefix_old p.msg.site_prefix_old
            (store_lifetimes d p.msg log))) in
    if has_byte slash p.msg.site_prefix then make_global_address p' else p'

-- "prefix remove": only if it is the stored prefix.
unfoldable pub remove_prefix : Progress → Progress
unfolding update_interface_status
remove_prefix p =
    if str_eq (current p).site_prefix p.msg.site_prefix
    then record p {
      held = update_interface_status connection_ipv6_down (record p.held {
        log =
            syscfg_set Field.ipv6_prefix_address []
            ∷ syscfg_set Field.previous_ipv6_prefix []
            ∷ syscfg_set Field.ipv6_prefix []
            ∷ p.held.log;
      });
    }
    else p

-- "dhcp6c receives prefix delegation for LAN".
unfoldable pub take_prefix : Progress → Progress
unfolding add_prefix remove_prefix
take_prefix p =
    if p.msg.prefix_assigned && not (is_empty p.msg.site_prefix)
    then (if is_add p.msg.prefix_cmd
          && not (p.msg.prefix_pltime == 0)
          && not (p.msg.prefix_vltime == 0)
        then add_prefix p
        else remove_prefix p)
    else p

abbrev put_given : Key → CString → CString → Log → Log
put_given k old new log = if is_empty new then log else put_new k old new log

-- "dhcp6c receives dns information" and "dhcp6c receives domain name information".
unfoldable pub take_names : Progress → Progress
take_names p =
    let d : Ipv6Data = current p in
    say p (λ log.
      let log1 : Log =
        if p.msg.dns_assigned
        then put_given Key.ipv6_dns_secondary d.nameserver1 p.msg.nameserver1
            (put_given Key.ipv6_dns_primary d.nameserver p.msg.nameserver log)
        else log in
      if p.msg.domain_name_assigned
      then put_given Key.ipv6_domain d.domain_name p.msg.domain_name log1
      else log1)

unfoldable pub found_address : Progress → Option CString → Progress
found_address p none = p
found_address p (some a) = record (say p (store_new Field.ipv6_address (current p).address a)) {
  connected = true;
}

-- "Maybe we've been assigned an address by SLAAC."
unfoldable pub find_address : Env → Progress → Progress
unfolding found_address
find_address env p =
    let name : CString = p.held.iface.wan.name in
    let p' : Progress = say p (λ log. find_global_address name ∷ log) in
    if p.msg.addr_assigned then p else found_address p' (env.global_address p.held.log name)

-- Whether the data that the LAN depends on differ.
unfoldable pub ipv6_config_changed : Ipv6Data → Ipv6Data → Bool
ipv6_config_changed new d =
    not (str_eq new.address d.address)
    || not (str_eq new.pd_if_address d.pd_if_address)
    || not (str_eq new.nameserver d.nameserver)
    || not (str_eq new.nameserver1 d.nameserver1)
    || not (str_eq new.site_prefix d.site_prefix)

-- The end: the new data, if the interface is connected.
unfoldable pub connect_ipv6 : Progress → Held
unfolding ipv6_msg_info ipv6_config_changed
connect_ipv6 p =
    let f : Iface = p.held.iface in
    let changed : Bool = ipv6_config_changed (ipv6_msg_info p.msg) (current p) in
    let log : Log =
      if changed
      then p.held.log
      else put Key.radvd_restart null
          (ipv6_addr_lifetime p.msg.prefix_pltime p.msg.prefix_vltime ∷ p.held.log) in
    if p.connected
    then record {
      iface = record f {
        ip = record f.ip {
          ipv6_changed = if changed then true else f.ip.ipv6_changed;
          ipv6_data = ipv6_msg_info p.msg;
          ipv6_status = IpState.up;
        };
      };
      log = log;
    }
    else p.held

-- "DHCP6LeaseExpired".
unfoldable pub ipv6_expired : Dhcpv6Msg → Held → Held
unfolding update_interface_status ipv6_msg_info
ipv6_expired msg h = update_interface_status connection_ipv6_down (record h {
  iface = record h.iface { ip = record h.iface.ip { ipv6_data = ipv6_msg_info msg } };
})

-- The message is freed.
abbrev free_ipv6_msg : Held → Held
free_ipv6_msg h = record h {
  iface = record h.iface { ip = record h.iface.ip { ipc_ipv6_data = none } };
}

unfoldable pub handle_ipv6_msg : Env → Dhcpv6Msg → Held → Held
unfolding take_address take_prefix take_names find_address connect_ipv6 ipv6_expired
handle_ipv6_msg env msg h = free_ipv6_msg (
    if msg.is_expired
    then ipv6_expired msg h
    else connect_ipv6 (
        find_address env (
          take_names
            (take_prefix (take_address (record { held = h; msg = msg; connected = false }))))))

unfoldable pub handle_ipv6_of : Env → Option Dhcpv6Msg → Held → Held
unfolding handle_ipv6_msg
handle_ipv6_of env none h = h
handle_ipv6_of env (some msg) h = handle_ipv6_msg env msg h

-- `wanmgr_handle_dchpv6_event_data`; without a message it does nothing.
unfoldable pub handle_dhcpv6_event_data : Env → Held → Held
unfolding handle_ipv6_of
handle_dhcpv6_event_data env h = handle_ipv6_of env h.iface.ip.ipc_ipv6_data h
