-- ===== src/Dml/Message.antt =====
-- The messages of the DHCP clients, `ipc_dhcpv4_data_t` and `ipc_dhcpv6_data_t`, with the fields that
-- the code reads. Their header, ipc_msg.h, is of another component; the model needs nothing of it but
-- that these fields are there.
use rdk_wanmanager.Common.{ℕ, Bool, true, false, ℤ}
use rdk_wanmanager.Dml.Text.{CString}

pub record Dhcpv4Msg : Type 0 where
  pub interface : CString
  pub ip : CString
  pub mask : CString
  pub gateway : CString
  pub dns_server : CString
  pub dns_server1 : CString
  pub address_assigned : Bool
  pub is_expired : Bool
  pub dhcp_state : CString
  pub dhcp_server_id : CString
  pub lease_time : ℕ
  pub downstream_rate : ℤ
  pub upstream_rate : ℤ
  pub is_time_offset_assigned : Bool
  pub time_offset : ℤ
  pub time_zone : CString

-- `IFADDRCONF_ADD` and the other value, for removal.
pub data AddrCommand : Type 0 where
  add remove : AddrCommand

pub record Dhcpv6Msg : Type 0 where
  pub ifname : CString
  pub address : CString
  pub pd_if_address : CString
  pub nameserver : CString
  pub nameserver1 : CString
  pub domain_name : CString
  pub site_prefix : CString
  pub site_prefix_old : CString
  pub prefix_pltime : ℕ
  pub prefix_vltime : ℕ
  pub is_expired : Bool
  pub addr_assigned : Bool
  pub addr_cmd : AddrCommand
  pub prefix_assigned : Bool
  pub prefix_cmd : AddrCommand
  pub dns_assigned : Bool
  pub domain_name_assigned : Bool

abbrev pub is_add : AddrCommand → Bool
is_add AddrCommand.add = true
is_add AddrCommand.remove = false
