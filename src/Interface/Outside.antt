-- ===== src/Interface/Outside.antt =====
-- What the state machine of an interface calls: sysevent, syscfg, the shell, the DHCP and PPP
-- clients, the message bus. A call is an entry of a log; the answers are functions of the log so far,
-- so that they may differ from call to call in any way.
use rdk_wanmanager.Common.{ℕ, Bool, Option, List, ◌∷◌, ℤ, ◌-◌, take}
use rdk_wanmanager.Dml.{CString, Iface, Ipv4Data}
use rdk_wanmanager.Policy.Control.{PlatformStatus}

-- The sysevent tuples, SYSEVENT_*; the ones whose name holds the interface have it as argument.
pub data Key : Type 0 where
  ipv4_connection_state ipv6_connection_state current_ipv4_link_state : Key
  current_wan_ipaddr current_wan_subnet current_wan_state current_wan_ifname : Key
  wan_start_time ethwan_initialized wan_status wan_service_status : Key
  firewall_restart dhcp_server_restart radvd_restart : Key
  ipv6_prefix ipv6_prefix_vltime ipv6_prefix_pltime : Key
  previous_ipv6_prefix previous_ipv6_prefix_vltime previous_ipv6_prefix_pltime : Key
  tr_erouter_dhcpv6_client_prefix tr_brlan0_dhcpv6_server_address global_ipv6_prefix_set : Key
  ipv6_dns_primary ipv6_dns_secondary ipv6_domain : Key
  ipv4_wan_address ipv4_wan_subnet ipv4_default_router : Key
  ipv4_time_offset dhcpv4_time_offset ipv4_time_zone : Key
  ipv4_start_time ipv4_ip_address ipv4_subnet ipv4_gw_number ipv4_gw_address : CString → Key
  ipv4_dns_number ipv4_dns_primary ipv4_dns_secondary : CString → Key
  ipv4_ds_current_rate ipv4_us_current_rate ipv4_lease_time : CString → Key
  ipv4_dhcp_server ipv4_dhcp_state : CString → Key

-- A value: a text, a number printed by `%d` or `%u`, a number printed by `@%d`, or NULL.
pub data Value : Type 0 where
  text : CString → Value
  number : ℤ → Value
  offset : ℤ → Value
  null : Value

-- SYSCFG_FIELD_*.
pub data Field : Type 0 where
  ipv6_address ipv6_prefix previous_ipv6_prefix ipv6_prefix_address : Field

-- `DnsData_t`.
pub record DnsData : Type 0 where
  pub ipv4_1 : CString
  pub ipv4_2 : CString
  pub ipv6_1 : CString
  pub ipv6_2 : CString

-- The messages to the IPoE health check.
pub data HealthMessage : Type 0 where
  connection_up connection_down connection_ipv6_up connection_ipv6_down : HealthMessage

-- The shell commands are kept as the arguments of their format.
pub data Action : Type 0 where
  sysevent_set : Key → Value → Action
  sysevent_get : Key → Action
  syscfg_set : Field → CString → Action
  create_resolv_cfg : DnsData → Action
  if_config : CString → CString → CString → CString → Action
  if_config_clear : CString → Action
  send_arp print_uptime read_uptime : Action
  add_gateway_route add_default_gateway_route : Ipv4Data → Action
  ipv6_addr_delete : Action
  ipv6_addr_lifetime : ℕ → ℕ → Action
  check_gateway : Action
  stop_dhcpv4_client stop_dhcpv6_client : Bool → Action
  start_dhcpv4_client start_dhcpv6_client : CString → Action
  create_ppp_session delete_ppp_session : Action
  start_health_check : CString → Action
  stop_health_check : ℕ → Action
  send_health_check : HealthMessage → CString → Action
  start_refresh_thread : Iface → Action
  update_upstream_flag : CString → Bool → Action
  update_platform_status : PlatformStatus → Action
  find_global_address : CString → Action

-- An entry of `getifaddrs`: the interface, whether the family is AF_INET6, and the numeric host.
pub record Address : Type 0 where
  pub name : CString
  pub is_inet6 : Bool
  pub host : CString

-- The calls so far, the newest first.
abbrev pub Log : Type 0
Log = List Action

pub record Env : Type 0 where
  -- The value that `sysevent_get` writes.
  pub value : Log → Key → CString
  -- Whether a call is a success: RETURN_OK, 0, or a pointer that is not NULL.
  pub succeeds : Log → Action → Bool
  -- The broadcast address of an address and a mask, if both can be read.
  pub broadcast : CString → CString → Option CString
  -- /proc/uptime, if it can be opened; and its first line up to a comma, if it can be read.
  pub uptime_file : Log → Option (Option CString)
  -- The answer of `getifaddrs`, empty if it fails.
  pub addresses : Log → List Address
  -- Whether the command of a round prints nothing tentative, and whether that of a round prints a
  -- default route.
  pub dad_done : Log → ℕ → Bool
  pub has_route : Log → ℕ → Bool
  -- `WanManager_getUpTime()`.
  pub uptime : Log → ℕ
  -- The process id of a health check that is started, 0 if it cannot be.
  pub health_check_pid : Log → CString → ℕ
  -- The globally unique address of an interface, as `address/length`, if it has one.
  pub global_address : Log → CString → Option CString

abbrev pub put : Key → Value → Log → Log
put k v log = sysevent_set k v ∷ log

-- `sysevent_get` into a buffer of `size` bytes, which is cleared before.
abbrev pub get : Env → Key → ℕ → Log → Log × CString
get env k size log = (sysevent_get k ∷ log, take (size - 1) (env.value log k))

-- A call whose answer counts.
abbrev pub call : Env → Action → Log → Log × Bool
call env a log = (a ∷ log, env.succeeds log a)
