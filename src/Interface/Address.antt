-- ===== src/Interface/Address.antt =====
-- How an interface gets and loses its addresses: the helpers of
-- source/WanManager/wanmgr_interface_sm.c that write no field of the interface.
use rdk_wanmanager.Common.{
  ℕ, zero, suc, ◌+◌, Bool, true, false, not, ◌&&◌, ◌||◌, Option, none, some, List, [], ◌∷◌, ◌++◌,
  if◌then◌else◌, ltb, length,
}
use rdk_wanmanager.Dml.{
  CString, str_eq, is_prefix, is_empty, contains, before, has_byte, Iface, is_ip_up, is_ip_down,
}
use rdk_wanmanager.Interface.Outside.{
  Key, text, null, create_resolv_cfg, if_config, if_config_clear, send_arp, print_uptime,
  read_uptime, add_gateway_route, add_default_gateway_route, ipv6_addr_delete, check_gateway,
  DnsData, Address, Log, Env, put, get, call,
}

-- "up", "down", "started", "stopped".
abbrev pub status_up : CString
status_up = b'u' ∷ b'p' ∷ []

abbrev pub status_down : CString
status_down = b'd' ∷ b'o' ∷ b'w' ∷ b'n' ∷ []

abbrev pub status_started : CString
status_started = b's' ∷ b't' ∷ b'a' ∷ b'r' ∷ b't' ∷ b'e' ∷ b'd' ∷ []

abbrev pub status_stopped : CString
status_stopped = b's' ∷ b't' ∷ b'o' ∷ b'p' ∷ b'p' ∷ b'e' ∷ b'd' ∷ []

abbrev pub digit_zero : CString
digit_zero = b'0' ∷ []

abbrev digit_one : CString
digit_one = b'1' ∷ []

-- "0.0.0.0" and "255.255.255.0".
abbrev pub any_address : CString
any_address = b'0' ∷ b'.' ∷ b'0' ∷ b'.' ∷ b'0' ∷ b'.' ∷ b'0' ∷ []

abbrev class_c_mask : CString
class_c_mask =
    b'2' ∷ b'5' ∷ b'5' ∷ b'.' ∷ b'2' ∷ b'5' ∷ b'5' ∷ b'.' ∷ b'2' ∷ b'5' ∷ b'5' ∷ b'.' ∷ b'0' ∷ []

-- "Ethernet", ETH_BRIDGE_NAME, "::1".
abbrev ethernet : CString
ethernet = b'E' ∷ b't' ∷ b'h' ∷ b'e' ∷ b'r' ∷ b'n' ∷ b'e' ∷ b't' ∷ []

abbrev pub bridge_name : CString
bridge_name = b'b' ∷ b'r' ∷ b'l' ∷ b'a' ∷ b'n' ∷ b'0' ∷ []

abbrev pub one_suffix : CString
one_suffix = b':' ∷ b':' ∷ b'1' ∷ []

-- "/" and "/64".
abbrev pub slash : ℕ
slash = b'/'

abbrev pub slash_64 : CString
slash_64 = b'/' ∷ b'6' ∷ b'4' ∷ []

-- `wan_updateDNS`.
abbrev dns_data : Iface → Bool → Bool → DnsData
dns_data f add_ipv4 add_ipv6 = record {
  ipv4_1 = if add_ipv4 then f.ip.ipv4_data.dns_server else [];
  ipv4_2 = if add_ipv4 then f.ip.ipv4_data.dns_server1 else [];
  ipv6_1 = if add_ipv6 then f.ip.ipv6_data.nameserver else [];
  ipv6_2 = if add_ipv6 then f.ip.ipv6_data.nameserver1 else [];
}

unfoldable pub wan_update_dns : Env → Iface → Bool → Bool → Log → Log × Bool
wan_update_dns env f add_ipv4 add_ipv6 log =
    let (log', ok) = call env (create_resolv_cfg (dns_data f add_ipv4 add_ipv6)) log in
    ((if ok then put Key.dhcp_server_restart null log' else log'), ok)

-- The head of the four functions below: "DHCP restart triggered" if the DNS could be set.
unfoldable update_dns_and_restart : Env → Iface → Bool → Bool → Log → Log × Bool
unfolding wan_update_dns
update_dns_and_restart env f add_ipv4 add_ipv6 log =
    let (log', ok) = wan_update_dns env f add_ipv4 add_ipv6 log in
    ((if ok then put Key.dhcp_server_restart null log' else log'), ok)

-- The end of `wan_setUpIPv4`, after /proc/uptime has been opened.
finish_ipv4 : Env → Iface → Option CString → Log → Log
finish_ipv4 env f line log =
    let log1 : Log = elim line [ none ↦ log | some s ↦ put Key.wan_start_time (text s) log ] in
    let log2 : Log =
      if contains ethernet f.phy.path
      then put Key.ethwan_initialized (text digit_one) log1
      else log1 in
    let log3 : Log =
      if is_ip_down f.ip.ipv6_status
      then print_uptime ∷ read_uptime ∷ put Key.wan_status (text status_started) log2
      else log2 in
    put Key.firewall_restart null log3

abbrev gateways : Iface → Log → Log
gateways f log =
    add_default_gateway_route f.ip.ipv4_data
    ∷ (if f.ppp.enable then add_gateway_route f.ip.ipv4_data ∷ log else log)

abbrev ipv4_tuples : Iface → Log → Log
ipv4_tuples f log = put Key.current_wan_state (text status_up) (
    put Key.current_wan_subnet (text f.ip.ipv4_data.mask) (
      put Key.current_wan_ipaddr (text f.ip.ipv4_data.ip) (
        put Key.current_ipv4_link_state (text status_up)
          (put Key.ipv4_connection_state (text status_up) log))))

configure_ipv4 : Env → Iface → CString → Log → Log × Bool
unfolding finish_ipv4
configure_ipv4 env f bcast log =
    let log1 : Log =
      send_arp
      ∷ if_config f.ip.ipv4_data.ifname f.ip.ipv4_data.ip f.ip.ipv4_data.mask bcast
      ∷ log in
    let log2 : Log = ipv4_tuples f (gateways f log1) in
    elim (env.uptime_file log2) [
      | none ↦ (log2, false)
      | some line ↦ (finish_ipv4 env f line log2, true)
    ]

-- `wan_setUpIPv4`.
unfoldable pub wan_set_up_ipv4 : Env → Iface → Log → Log × Bool
unfolding configure_ipv4 update_dns_and_restart
wan_set_up_ipv4 env f log =
    let log1 : Log = (update_dns_and_restart env f true (is_ip_up f.ip.ipv6_status) log).0 in
    elim (env.broadcast f.ip.ipv4_data.ip f.ip.ipv4_data.mask) [
      | none ↦ (log1, false)
      | some bcast ↦ configure_ipv4 env f bcast log1
    ]

abbrev ipv4_tuples_down : Log → Log
ipv4_tuples_down log = put Key.firewall_restart null (
    put Key.current_wan_subnet (text class_c_mask) (
      put Key.current_wan_ipaddr (text any_address) (
        put Key.wan_start_time (text digit_zero) (
          put Key.current_wan_state (text status_down) (
            put Key.current_ipv4_link_state (text status_down)
              (put Key.ipv4_connection_state (text status_down) log))))))

-- `wan_tearDownIPv4`.
unfoldable pub wan_tear_down_ipv4 : Env → Iface → Log → Log × Bool
unfolding update_dns_and_restart
wan_tear_down_ipv4 env f log =
    let (log1, dns) = update_dns_and_restart env f false (is_ip_up f.ip.ipv6_status) log in
    let (log2, cleared) = call env (if_config_clear f.wan.name) log1 in
    let log3 : Log = ipv4_tuples_down log2 in
    let log4 : Log =
      if contains ethernet f.phy.path
      then put Key.ethwan_initialized (text digit_zero) log3
      else log3 in
    (
      if is_ip_down f.ip.ipv6_status then put Key.wan_status (text status_stopped) log4 else log4,
      dns && cleared,
    )

-- `wan_setUpIPv6`.
unfoldable pub wan_set_up_ipv6 : Env → Iface → Log → Log × Bool
unfolding update_dns_and_restart
wan_set_up_ipv6 env f log =
    let (log1, dns) = update_dns_and_restart env f (is_ip_up f.ip.ipv4_status) true log in
    let log2 : Log = put Key.firewall_restart null (
      put Key.dhcp_server_restart null
        (put Key.radvd_restart null (put Key.ipv6_connection_state (text status_up) log1))) in
    (
      if is_ip_down f.ip.ipv4_status then put Key.wan_status (text status_started) log2 else log2,
      dns,
    )

-- The previous prefix and its lifetimes are read into buffers of BUFLEN_48.
abbrev pub prefix_size : ℕ
prefix_size = 48

-- The three values read are kept as the previous ones.
abbrev keep_previous : CString → CString → CString → Log → Log
keep_previous prefix vltime pltime log = put Key.previous_ipv6_prefix_pltime (text pltime) (
    put Key.previous_ipv6_prefix_vltime (text vltime)
      (put Key.previous_ipv6_prefix (text prefix) log))

-- `wan_tearDownIPv6`, which returns RETURN_OK on every path.
unfoldable pub wan_tear_down_ipv6 : Env → Iface → Log → Log × Bool
unfolding update_dns_and_restart
wan_tear_down_ipv6 env f log =
    let log1 : Log = (update_dns_and_restart env f (is_ip_up f.ip.ipv4_status) false log).0 in
    let (log2, prefix) = get env Key.ipv6_prefix prefix_size (ipv6_addr_delete ∷ log1) in
    let (log3, vltime) = get env Key.ipv6_prefix_vltime prefix_size log2 in
    let (log4, pltime) = get env Key.ipv6_prefix_pltime prefix_size log3 in
    let log5 : Log =
      if not (is_empty prefix) then keep_previous prefix vltime pltime log4 else log4 in
    let log6 : Log = put Key.firewall_restart null (
      put Key.ipv6_connection_state (text status_down)
        (put Key.tr_erouter_dhcpv6_client_prefix (text []) (put Key.ipv6_prefix (text []) log5))) in
    (
      if is_ip_down f.ip.ipv4_status then put Key.wan_status (text status_stopped) log6 else log6,
      true,
    )

-- `lanPrefix` in `setUpLanPrefixIPv6`.
abbrev pub lan_prefix : CString → CString
lan_prefix site_prefix = before slash site_prefix ++ slash_64

unfoldable pub write_lan_prefix : Env → CString → Log → Log
write_lan_prefix env lan log =
    let (log1, prefix) = get env Key.ipv6_prefix prefix_size log in
    let (log2, vltime) = get env Key.ipv6_prefix_vltime prefix_size log1 in
    let (log3, pltime) = get env Key.ipv6_prefix_pltime prefix_size log2 in
    let log4 : Log =
      if str_eq prefix lan
      then keep_previous [] digit_zero digit_zero log3
      else (if not (is_empty prefix) then keep_previous prefix vltime pltime log3 else log3) in
    put Key.tr_erouter_dhcpv6_client_prefix (text lan) (put Key.ipv6_prefix (text lan) log4)

-- `setUpLanPrefixIPv6`. `sizeof(lanPrefix) - index > 3` is a comparison of `size_t`.
unfoldable pub set_up_lan_prefix_ipv6 : Env → Iface → Log → Log
unfolding write_lan_prefix
set_up_lan_prefix_ipv6 env f log =
    let site : CString = f.ip.ipv6_data.site_prefix in
    if has_byte slash site && ltb (length (before slash site) + 3) prefix_size
    then write_lan_prefix env (lan_prefix site) log
    else log

-- Whether a text of at least three bytes ends in "::1".
abbrev ends_in_one : CString → Bool
ends_in_one [] = false
ends_in_one (x ∷ xs) = str_eq (x ∷ xs) one_suffix || ends_in_one xs

-- The search for `address_flag` in `checkIpv6LanAddressIsReadyToUse`.
unfoldable pub has_lan_address : List Address → Bool
has_lan_address [] = false
has_lan_address (a ∷ rest) =
    is_prefix bridge_name a.name && a.is_inet6 && ends_in_one a.host || has_lan_address rest

-- Its 15 rounds, from round `i` on: whether both flags are set at the end. A flag that is set is not
-- looked for again, and the loop is left when both are.
unfoldable pub ready_loop : (ℕ → Bool) → (ℕ → Bool) → ℕ → ℕ → Bool → Bool → Bool
ready_loop dad route zero i d r = d && r
ready_loop dad route (suc rounds) i d r =
    let d' : Bool = d || dad i in
    let r' : Bool = r || route i in
    let rest = ready_loop dad route rounds (i + 1) d' r' in if not d' || not r' then rest else true

-- `checkIpv6LanAddressIsReadyToUse() == 0`.
unfoldable pub lan_address_ready : Env → Log → Bool
lan_address_ready env log =
    has_lan_address (env.addresses log)
    && ready_loop (env.dad_done log) (env.has_route log) 15 0 false false

-- `checkIpv6AddressAssignedToBridge() == RETURN_OK`.
unfoldable pub ipv6_address_assigned : Env → Log → Log × Bool
ipv6_address_assigned env log =
    let (log1, prefix) = get env Key.global_ipv6_prefix_set 128 log in
    let (log2, gateway) = call env check_gateway log1 in
    if is_empty prefix then (log1, false) else (log2, gateway && lan_address_ready env log2)
