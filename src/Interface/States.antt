-- ===== src/Interface/States.antt =====
-- The states of source/WanManager/wanmgr_interface_sm.c, wan_state_*, and the `switch` of its thread.
-- Their pointer `pIfaceData` is not NULL here; the loop has the other case.
use rdk_wanmanager.Common.{Bool, true, false, not, ◌&&◌, ◌||◌, [], if◌then◌else◌}
use rdk_wanmanager.Dml.{
  Iface, is_phy_down, is_link_down, is_link_up, is_link_configuring, is_ip_up, is_ip_down,
}
use rdk_wanmanager.Interface.Outside.{Env}
use rdk_wanmanager.Interface.Address.{set_up_lan_prefix_ipv6, ipv6_address_assigned}
use rdk_wanmanager.Interface.Status.{clear_dhcp_data}
use rdk_wanmanager.Interface.Transitions.{
  WanState, exit, configuring_wan, validating_wan, obtaining_ip_addresses, ipv4_leased, ipv6_leased,
  dual_stack_active, ipv4_over_ipv6_active, refreshing_wan, deconfiguring_wan, failure, Sm, Outcome,
  go, wan_transition_physical_interface_down, wan_transition_wan_up, wan_transition_wan_validated,
  wan_transition_refreshing_wan, wan_transition_wan_refreshed, wan_transition_ipv4_up,
  wan_transition_ipv4_down, wan_transition_ipv6_up, wan_transition_ipv6_down,
  wan_transition_dual_stack_down, wan_transition_ipv4_over_ipv6_up,
  wan_transition_ipv4_over_ipv6_down, wan_transition_exit,
}

-- The first four tests of most states: the interface may not be used any longer.
abbrev pub is_lost : Sm → Bool
is_lost s =
    not s.wan_enable
    || not s.iface.wan.active_link
    || is_phy_down s.iface.phy.status
    || is_link_down s.iface.wan.link_status

-- IPv4 over IPv6 by DS-Lite or by MAP-T.
abbrev pub has_tunnel : Iface → Bool
has_tunnel f =
    f.wan.enable_dslite && f.wan.active_link && is_ip_up f.ds_lite.status
    || f.wan.enable_mapt && f.wan.active_link && is_ip_up f.map.status

-- The tests of `wan_state_ipv4_over_ipv6_active`.
abbrev pub leaves_tunnel : Sm → Bool
leaves_tunnel s =
    (is_lost s || is_ip_down s.iface.ip.ipv6_status || s.iface.ip.ipv6_changed)
    || (not s.iface.wan.enable_dslite
        || is_ip_down s.iface.ds_lite.status
        || s.iface.ds_lite.changed)
    || (not s.iface.wan.enable_mapt || is_ip_down s.iface.map.status || s.iface.map.changed)

module _ (env : Env) (health_check : Bool) where
  -- `wan_state_configuring_wan`.
  unfoldable pub wan_state_configuring_wan : Sm → Outcome
  wan_state_configuring_wan s =
      if is_lost s
      then wan_transition_physical_interface_down env health_check s
      else (if is_link_up s.iface.wan.link_status
          then wan_transition_wan_up env health_check s
          else go s configuring_wan)

  -- `wan_state_validating_wan`.
  unfoldable pub wan_state_validating_wan : Sm → Outcome
  wan_state_validating_wan s =
      if is_lost s
      then wan_transition_physical_interface_down env health_check s
      else (if is_link_configuring s.iface.wan.link_status
          then go s configuring_wan
          else wan_transition_wan_validated env health_check s)

  -- `wan_state_refreshing_wan`.
  unfoldable pub wan_state_refreshing_wan : Sm → Outcome
  wan_state_refreshing_wan s =
      if is_lost s
      then wan_transition_physical_interface_down env health_check s
      else (if is_link_up s.iface.wan.link_status
          then (if s.iface.wan.refresh
              then wan_transition_refreshing_wan env health_check s
              else wan_transition_wan_refreshed env health_check s)
          else go s refreshing_wan)

  -- With `Ipv6Status` UP: a new prefix is set up for the LAN, and the machine stays in `stay`; or the
  -- bridge has its address, and IPv6 is up.
  unfoldable pub ipv6_arrives : WanState → Sm → Outcome
  ipv6_arrives stay s =
      if s.iface.ip.ipv6_changed
      then go
          (record s {
            iface = record s.iface { ip = record s.iface.ip { ipv6_changed = false } };
            log = set_up_lan_prefix_ipv6 env s.iface s.log;
          })
          stay
      else (let (log, assigned) = ipv6_address_assigned env s.log in
          let s' : Sm = record s { log = log } in
          if assigned then wan_transition_ipv6_up env health_check s' else go s' stay)

  -- `wan_state_obtaining_ip_addresses`.
  unfoldable pub wan_state_obtaining_ip_addresses : Sm → Outcome
  unfolding wan_state_refreshing_wan ipv6_arrives
  wan_state_obtaining_ip_addresses s =
      if is_lost s
      then wan_transition_physical_interface_down env health_check s
      else (if is_link_configuring s.iface.wan.link_status || s.iface.wan.refresh
          then wan_state_refreshing_wan s
          else (if is_ip_up s.iface.ip.ipv4_status
              then wan_transition_ipv4_up env health_check s
              else (if is_ip_up s.iface.ip.ipv6_status
                  then ipv6_arrives obtaining_ip_addresses s
                  else go s obtaining_ip_addresses)))

  -- `wan_state_ipv4_leased`.
  unfoldable pub wan_state_ipv4_leased : Sm → Outcome
  unfolding ipv6_arrives
  wan_state_ipv4_leased s =
      if is_lost s || is_ip_down s.iface.ip.ipv4_status || s.iface.ip.ipv4_changed
      then wan_transition_ipv4_down env health_check s
      else (if is_ip_up s.iface.ip.ipv6_status
          then ipv6_arrives ipv4_leased s
          else go s ipv4_leased)

  -- `wan_state_ipv6_leased`.
  unfoldable pub wan_state_ipv6_leased : Sm → Outcome
  wan_state_ipv6_leased s =
      if is_lost s || is_ip_down s.iface.ip.ipv6_status || s.iface.ip.ipv6_changed
      then wan_transition_ipv6_down env health_check s
      else (if is_ip_up s.iface.ip.ipv4_status
          then wan_transition_ipv4_up env health_check s
          else (if has_tunnel s.iface
              then wan_transition_ipv4_over_ipv6_up env health_check s
              else go s ipv6_leased))

  -- `wan_state_dual_stack_active`.
  unfoldable pub wan_state_dual_stack_active : Sm → Outcome
  wan_state_dual_stack_active s =
      if is_lost s
      then wan_transition_dual_stack_down env health_check s
      else (if is_ip_down s.iface.ip.ipv4_status
          then wan_transition_ipv4_down env health_check s
          else (if is_ip_down s.iface.ip.ipv6_status
              then wan_transition_ipv6_down env health_check s
              else (if has_tunnel s.iface
                  then wan_transition_ipv4_over_ipv6_up env health_check s
                  else go s dual_stack_active)))

  -- `wan_state_ipv4_over_ipv6_active`.
  unfoldable pub wan_state_ipv4_over_ipv6_active : Sm → Outcome
  wan_state_ipv4_over_ipv6_active s =
      if leaves_tunnel s
      then wan_transition_ipv4_over_ipv6_down env health_check s
      else go s ipv4_over_ipv6_active

  -- `wan_state_deconfiguring_wan`.
  unfoldable pub wan_state_deconfiguring_wan : Sm → Outcome
  wan_state_deconfiguring_wan s =
      if is_link_down s.iface.wan.link_status
      then wan_transition_exit env health_check s
      else go s deconfiguring_wan

  -- `wan_state_exit`.
  unfoldable pub wan_state_exit : Sm → Outcome
  unfolding clear_dhcp_data
  wan_state_exit s =
      go
        (record s {
          iface = clear_dhcp_data (record s.iface { wan = record s.iface.wan { name = [] } });
        })
        exit

  -- The `switch` of `WanMgr_InterfaceSMThread`, where `pIfaceData` is not NULL.
  unfoldable pub wan_process : WanState → Sm → Outcome
  wan_process configuring_wan s = wan_state_configuring_wan s
  wan_process validating_wan s = wan_state_validating_wan s
  wan_process obtaining_ip_addresses s = wan_state_obtaining_ip_addresses s
  wan_process ipv4_leased s = wan_state_ipv4_leased s
  wan_process ipv6_leased s = wan_state_ipv6_leased s
  wan_process dual_stack_active s = wan_state_dual_stack_active s
  wan_process ipv4_over_ipv6_active s = wan_state_ipv4_over_ipv6_active s
  wan_process refreshing_wan s = wan_state_refreshing_wan s
  wan_process deconfiguring_wan s = wan_state_deconfiguring_wan s
  wan_process exit s = wan_state_exit s
  wan_process failure s = wan_state_exit s

-- Whether the thread goes on after the `switch`: `bRunning`.
abbrev pub keeps_running : WanState → Bool
keeps_running configuring_wan = true
keeps_running validating_wan = true
keeps_running obtaining_ip_addresses = true
keeps_running ipv4_leased = true
keeps_running ipv6_leased = true
keeps_running dual_stack_active = true
keeps_running ipv4_over_ipv6_active = true
keeps_running refreshing_wan = true
keeps_running deconfiguring_wan = true
keeps_running exit = false
keeps_running failure = false
