-- ===== src/Interface/Transitions.antt =====
-- The transitions of source/WanManager/wanmgr_interface_sm.c, wan_transition_*. The build parameter
-- `health_check` is FEATURE_IPOE_HEALTH_CHECK; FEATURE_MAPT is off, since the code under it names a
-- constant and a variable that nothing declares. The pointers that the transitions test are not NULL
-- here: the states, which call them, have tested them.
use rdk_wanmanager.Common.{ℕ, Bool, true, false, not, ◌&&◌, [], ◌∷◌, if◌then◌else◌, ltb}
use rdk_wanmanager.Dml.{
  CString, str_eq, is_prefix, WanStatus, LinkStatus, IpState, Iface, is_link_up, is_ip_up,
}
use rdk_wanmanager.Policy.Control.{PlatformStatus}
use rdk_wanmanager.Interface.Outside.{
  Key, text, null, HealthMessage, stop_dhcpv4_client, stop_dhcpv6_client, start_dhcpv4_client,
  start_dhcpv6_client, create_ppp_session, delete_ppp_session, start_health_check,
  stop_health_check, send_health_check, start_refresh_thread, update_upstream_flag,
  update_platform_status, Log, Env, put, get,
}
use rdk_wanmanager.Interface.Address.{
  status_up, status_started, wan_set_up_ipv4, wan_tear_down_ipv4, wan_set_up_ipv6,
  wan_tear_down_ipv6,
}
use rdk_wanmanager.Interface.Status.{
  connection_down, connection_ipv6_down, Held, update_interface_status, clear_dhcp_data,
}

-- `eWanState_t`; `failure` is `ANSC_STATUS_FAILURE`, which is none of the enumerators.
pub data WanState : Type 0 where
  exit configuring_wan validating_wan obtaining_ip_addresses ipv4_leased ipv6_leased : WanState
  dual_stack_active ipv4_over_ipv6_active refreshing_wan deconfiguring_wan failure : WanState

-- `WanMgr_IfaceSM_Controller_t` with the interface that `pIfaceData` points to.
pub record Sm : Type 0 where
  pub wan_enable : Bool
  pub ihc_pid : ℕ
  pub iface : Iface
  pub log : Log

-- What a transition or a state leaves and returns.
pub record Outcome : Type 0 where
  pub sm : Sm
  pub state : WanState

abbrev pub go : Sm → WanState → Outcome
go sm s = record { sm = sm; state = s }

-- The platform status is reported for the active link only.
abbrev pub report : Iface → PlatformStatus → Log → Log
report f p log = if f.wan.active_link then update_platform_status p ∷ log else log

-- "dsl".
abbrev dsl_prefix : CString
dsl_prefix = b'd' ∷ b's' ∷ b'l' ∷ []

unfoldable pub started_iface : Iface → Iface
started_iface f = record f {
  ip = record f.ip { ipv4_status = IpState.down; ipv6_status = IpState.down };
  map = record f.map { status = IpState.down };
  ds_lite = record f.ds_lite { status = IpState.down };
  wan = record f.wan { status = WanStatus.initialising; link_status = LinkStatus.configuring };
}

-- `wan_transition_start`.
unfoldable pub wan_transition_start : Sm → Outcome
unfolding started_iface
wan_transition_start s =
    let log : Log = update_upstream_flag s.iface.phy.path true ∷ s.log in
    let p : PlatformStatus =
      if is_prefix dsl_prefix s.iface.name
      then PlatformStatus.link_up
      else PlatformStatus.connecting in
    go (record s { iface = started_iface s.iface; log = report s.iface p log }) configuring_wan

module _ (env : Env) (health_check : Bool) where
  -- The test of FEATURE_IPOE_HEALTH_CHECK code that a health check runs.
  abbrev pub has_health_check : Sm → Bool
  has_health_check s = health_check && ltb 0 s.ihc_pid

  abbrev stop_clients : Log → Log
  stop_clients log = stop_dhcpv6_client true ∷ stop_dhcpv4_client true ∷ log

  abbrev stop_ppp : Log → Log
  stop_ppp log = delete_ppp_session ∷ stop_dhcpv6_client true ∷ log

  -- `wan_transition_physical_interface_down`.
  unfoldable pub wan_transition_physical_interface_down : Sm → Outcome
  wan_transition_physical_interface_down s =
      let log : Log = if s.iface.ppp.enable then stop_ppp s.log else stop_clients s.log in
      let stops : Bool = not s.iface.ppp.enable && has_health_check s in
      let log' : Log = if stops then stop_health_check s.ihc_pid ∷ log else log in
      go
        (record s {
          ihc_pid = if stops then 0 else s.ihc_pid;
          log = update_upstream_flag s.iface.phy.path false ∷ log';
        })
        deconfiguring_wan

  -- `wan_transition_wan_up`.
  unfoldable pub wan_transition_wan_up : Sm → Outcome
  wan_transition_wan_up s =
      go
        (record s {
          iface = record s.iface { wan = record s.iface.wan { status = WanStatus.validating } };
          log = report s.iface PlatformStatus.connecting s.log;
        })
        validating_wan

  -- "Start dhcp clients", or the PPP session.
  abbrev pub start_clients : Iface → Log → Log
  start_clients f log =
      if f.ppp.enable
      then create_ppp_session ∷ log
      else start_dhcpv6_client f.wan.name ∷ start_dhcpv4_client f.wan.name ∷ log

  -- `wan_transition_wan_validated`.
  unfoldable pub wan_transition_wan_validated : Sm → Outcome
  unfolding clear_dhcp_data
  wan_transition_wan_validated s =
      let f : Iface =
        clear_dhcp_data (record s.iface { wan = record s.iface.wan { status = WanStatus.up } }) in
      let starts : Bool = health_check && (not f.ppp.enable && f.wan.active_link) in
      let pid : ℕ = env.health_check_pid s.log f.wan.name in
      let log : Log = if starts then start_health_check f.wan.name ∷ s.log else s.log in
      go
        (record s {
          iface = f;
          ihc_pid = if starts && ltb 0 pid then pid else s.ihc_pid;
          log = start_clients f log;
        })
        obtaining_ip_addresses

  -- `WanMgr_Send_InterfaceRefresh`; a thread that cannot be started changes nothing else.
  abbrev send_interface_refresh : Iface → Log → Log
  send_interface_refresh f log =
      if f.wan.refresh && is_link_up f.wan.link_status then start_refresh_thread f ∷ log else log

  -- `wan_transition_refreshing_wan`.
  unfoldable pub wan_transition_refreshing_wan : Sm → Outcome
  wan_transition_refreshing_wan s =
      let log : Log = if s.iface.ppp.enable then stop_ppp s.log else stop_clients s.log in
      go
        (record s {
          iface = record s.iface {
            wan = record s.iface.wan { link_status = LinkStatus.configuring; refresh = false };
          };
          log = send_interface_refresh s.iface log;
        })
        refreshing_wan

  -- `wan_transition_wan_refreshed`.
  unfoldable pub wan_transition_wan_refreshed : Sm → Outcome
  unfolding clear_dhcp_data
  wan_transition_wan_refreshed s =
      let f : Iface = clear_dhcp_data s.iface in
      go (record s { iface = f; log = start_clients f s.log }) obtaining_ip_addresses

  -- A message to the health check.
  abbrev tell_health_check : HealthMessage → Sm → Log → Log
  tell_health_check m s log =
      if not s.iface.ppp.enable && has_health_check s
      then send_health_check m s.iface.wan.name ∷ log
      else log

  -- The WAN service is marked as started, and the firewall restarted, once.
  unfoldable pub start_service : Log → Log
  start_service log =
      let (log', status) = get env Key.wan_service_status 128 log in
      if str_eq status status_started
      then log'
      else put Key.firewall_restart null (put Key.wan_service_status (text status_started) log')

  -- Whether the other address family is up, by its status and by its sysevent tuple.
  unfoldable pub is_connected : Key → IpState → Log → Log × Bool
  is_connected k status log =
      let (log', state) = get env k 128 log in (log', is_ip_up status && str_eq state status_up)

  unfoldable pub with_ipv4_up : Iface → Iface
  with_ipv4_up f = record f { ip = record f.ip { ipv4_status = IpState.up; ipv4_changed = false } }

  unfoldable pub with_ipv6_up : Iface → Iface
  with_ipv6_up f = record f { ip = record f.ip { ipv6_status = IpState.up; ipv6_changed = false } }

  -- `wan_transition_ipv4_up`.
  unfoldable pub wan_transition_ipv4_up : Sm → Outcome
  unfolding start_service is_connected with_ipv4_up
  wan_transition_ipv4_up s =
      let f : Iface = s.iface in
      let log1 : Log =
        if f.wan.active_link
        then tell_health_check HealthMessage.connection_up s (wan_set_up_ipv4 env f s.log).0
        else s.log in
      let (log2, dual) =
        is_connected Key.ipv6_connection_state f.ip.ipv6_status (start_service log1) in
      let p : PlatformStatus =
        if dual then PlatformStatus.connected else PlatformStatus.link_v4up_v6down in
      go (record s { iface = with_ipv4_up f; log = report f p log2 })
        (if dual then dual_stack_active else ipv4_leased)

  -- `wan_transition_ipv4_down`.
  unfoldable pub wan_transition_ipv4_down : Sm → Outcome
  unfolding is_connected update_interface_status
  wan_transition_ipv4_down s =
      let h : Held =
        update_interface_status connection_down
          (record { iface = s.iface; log = (wan_tear_down_ipv4 env s.iface s.log).0 }) in
      let f : Iface = h.iface in
      let log1 : Log =
        if f.wan.active_link
        then tell_health_check HealthMessage.connection_down s h.log
        else h.log in
      let (log2, six) = is_connected Key.ipv6_connection_state f.ip.ipv6_status log1 in
      let p : PlatformStatus =
        if six then PlatformStatus.link_v6up_v4down else PlatformStatus.connecting in
      go (record s { iface = f; log = report f p log2 })
        (if six then ipv6_leased else obtaining_ip_addresses)

  -- `wan_transition_ipv6_up`.
  unfoldable pub wan_transition_ipv6_up : Sm → Outcome
  unfolding start_service is_connected with_ipv6_up
  wan_transition_ipv6_up s =
      let f : Iface = s.iface in
      let log1 : Log =
        if f.wan.active_link
        then tell_health_check HealthMessage.connection_ipv6_up s (wan_set_up_ipv6 env f s.log).0
        else s.log in
      let (log2, dual) =
        is_connected Key.ipv4_connection_state f.ip.ipv4_status (start_service log1) in
      let p : PlatformStatus =
        if dual then PlatformStatus.connected else PlatformStatus.link_v6up_v4down in
      go (record s { iface = with_ipv6_up f; log = report f p log2 })
        (if dual then dual_stack_active else ipv6_leased)

  -- `wan_transition_ipv6_down`.
  unfoldable pub wan_transition_ipv6_down : Sm → Outcome
  unfolding is_connected update_interface_status
  wan_transition_ipv6_down s =
      let h : Held =
        update_interface_status connection_ipv6_down
          (record { iface = s.iface; log = (wan_tear_down_ipv6 env s.iface s.log).0 }) in
      let f : Iface = h.iface in
      let log1 : Log =
        if f.wan.active_link
        then tell_health_check HealthMessage.connection_ipv6_down s h.log
        else h.log in
      let (log2, four) = is_connected Key.ipv4_connection_state f.ip.ipv4_status log1 in
      let p : PlatformStatus =
        if four then PlatformStatus.link_v4up_v6down else PlatformStatus.connecting in
      go (record s { iface = f; log = report f p log2 })
        (if four then ipv4_leased else obtaining_ip_addresses)

  -- `wan_transition_dual_stack_down`, which does not look at what the two others return.
  unfoldable pub wan_transition_dual_stack_down : Sm → Outcome
  unfolding wan_transition_ipv4_down wan_transition_ipv6_down
  wan_transition_dual_stack_down s =
      go (wan_transition_ipv6_down (wan_transition_ipv4_down s).sm).sm obtaining_ip_addresses

  -- `wan_transition_ipv4_over_ipv6_up` and `wan_transition_ipv4_over_ipv6_down`.
  unfoldable pub wan_transition_ipv4_over_ipv6_up : Sm → Outcome
  wan_transition_ipv4_over_ipv6_up s = go s ipv4_leased

  unfoldable pub wan_transition_ipv4_over_ipv6_down : Sm → Outcome
  wan_transition_ipv4_over_ipv6_down s = go s ipv4_leased

  -- `wan_transition_exit`.
  unfoldable pub wan_transition_exit : Sm → Outcome
  wan_transition_exit s =
      go
        (record s {
          iface = record s.iface {
            wan = record s.iface.wan {
              status = WanStatus.disabled;
              refresh = false;
              active_link = false;
            };
          };
          log = update_platform_status PlatformStatus.disconnected ∷ s.log;
        })
        exit
