-- ===== src/Dml.antt =====
-- The data model of source/TR-181/include/wanmgr_dml.h: the enumerations and the records of
-- `DML_WAN_IFACE` and `DML_WANMGR_CONFIG`. `BOOL` is `Bool`, a `char` array is the list of its
-- bytes before the NUL, and `UINT` and `uint32_t` are natural numbers. `DynamicTrigger`, `Marking` and
-- the MAP-T parameters are left out, since no modelled code reads them.
mod Text
mod Message
mod Equal
pub use Text.{CString, str_eq, is_prefix, contains, is_empty, before, has_byte}
pub use Equal.{str_eq_refl, str_eq_sound}
pub use Message.{Dhcpv4Msg, Dhcpv6Msg, AddrCommand, is_add}
use rdk_wanmanager.Common.{ℕ, Bool, true, false, Option, ℤ}

pub data Policy : Type 0 where
  fixed_mode_on_bootup fixed_mode primary_priority_on_bootup primary_priority multiwan_mode : Policy

pub data WanStatus : Type 0 where
  disabled initialising validating up : WanStatus

pub data LinkStatus : Type 0 where
  down configuring up : LinkStatus

pub data PhyStatus : Type 0 where
  down initializing up : PhyStatus

pub data IfaceType : Type 0 where
  unconfigured primary secondary : IfaceType

-- `DML_WAN_IFACE_IPV4_STATUS`, `_IPV6_STATUS`, `_MAPT_STATUS` and `_DSLITE_STATUS`, which have the
-- same two values.
pub data IpState : Type 0 where
  up down : IpState

-- `DML_WAN_IFACE_IPCP_STATUS`, `_IPV6CP_STATUS`, `_LCP_STATUS` and `_PPP_LINK_STATUS`.
pub data PppState : Type 0 where
  down up : PppState

pub record Validation : Type 0 where
  pub discover_offer : Bool
  pub solicit_advertise : Bool
  pub rs_ra : Bool
  pub padi_pado : Bool

-- `DML_WANIFACE_PHY`.
pub record Phy : Type 0 where
  pub path : CString
  pub status : PhyStatus

-- `DML_WANIFACE_INFO`.
pub record Wan : Type 0 where
  pub name : CString
  pub enable : Bool
  pub priority : ℤ
  pub type : IfaceType
  pub selection_timeout : ℕ
  pub enable_mapt : Bool
  pub enable_dslite : Bool
  pub enable_ipoe : Bool
  pub active_link : Bool
  pub status : WanStatus
  pub link_status : LinkStatus
  pub refresh : Bool
  pub validation : Validation

-- `WANMGR_IPV4_DATA`.
pub record Ipv4Data : Type 0 where
  pub ifname : CString
  pub ip : CString
  pub mask : CString
  pub gateway : CString
  pub dns_server : CString
  pub dns_server1 : CString

-- `WANMGR_IPV6_DATA`.
pub record Ipv6Data : Type 0 where
  pub ifname : CString
  pub address : CString
  pub pd_if_address : CString
  pub nameserver : CString
  pub nameserver1 : CString
  pub domain_name : CString
  pub site_prefix : CString
  pub prefix_pltime : ℕ
  pub prefix_vltime : ℕ
  pub site_prefix_old : CString

-- `DML_WANIFACE_IP`; `none` at the end is a NULL pointer.
pub record Ip : Type 0 where
  pub path : CString
  pub ipv4_status : IpState
  pub ipv6_status : IpState
  pub ipv4_changed : Bool
  pub ipv6_changed : Bool
  pub ipv4_data : Ipv4Data
  pub ipv6_data : Ipv6Data
  pub dhcp4c_pid : ℕ
  pub dhcp6c_pid : ℕ
  pub ipc_ipv4_data : Option Dhcpv4Msg
  pub ipc_ipv6_data : Option Dhcpv6Msg

-- `DATAMODEL_PPP`, without the link type and the path, which the modelled code does not read.
pub record Ppp : Type 0 where
  pub enable : Bool
  pub ipcp_status : PppState
  pub ipv6cp_status : PppState
  pub lcp_status : PppState
  pub link_status : PppState

-- `DML_WANIFACE_MAP`.
pub record Map : Type 0 where
  pub status : IpState
  pub path : CString
  pub changed : Bool

-- `DML_WANIFACE_DSLITE`.
pub record DsLite : Type 0 where
  pub path : CString
  pub status : IpState
  pub changed : Bool

-- `DML_WAN_IFACE`.
pub record Iface : Type 0 where
  pub iface_idx : ℕ
  pub instance_number : ℕ
  pub name : CString
  pub display_name : CString
  pub phy : Phy
  pub wan : Wan
  pub ip : Ip
  pub ppp : Ppp
  pub map : Map
  pub ds_lite : DsLite

-- `DML_WANMGR_CONFIG`.
pub record Config : Type 0 where
  pub enable : Bool
  pub policy : Policy
  pub idle_timeout : ℕ

-- The comparisons of an enumeration with one of its values.
abbrev pub is_phy_down : PhyStatus → Bool
is_phy_down PhyStatus.down = true
is_phy_down PhyStatus.initializing = false
is_phy_down PhyStatus.up = false

abbrev pub is_phy_up : PhyStatus → Bool
is_phy_up PhyStatus.up = true
is_phy_up PhyStatus.initializing = false
is_phy_up PhyStatus.down = false

abbrev pub is_phy_initializing : PhyStatus → Bool
is_phy_initializing PhyStatus.initializing = true
is_phy_initializing PhyStatus.up = false
is_phy_initializing PhyStatus.down = false

abbrev pub is_primary : IfaceType → Bool
is_primary IfaceType.primary = true
is_primary IfaceType.secondary = false
is_primary IfaceType.unconfigured = false

abbrev pub is_secondary : IfaceType → Bool
is_secondary IfaceType.secondary = true
is_secondary IfaceType.primary = false
is_secondary IfaceType.unconfigured = false

abbrev pub is_disabled : WanStatus → Bool
is_disabled WanStatus.disabled = true
is_disabled WanStatus.initialising = false
is_disabled WanStatus.validating = false
is_disabled WanStatus.up = false

abbrev pub is_link_down : LinkStatus → Bool
is_link_down LinkStatus.down = true
is_link_down LinkStatus.configuring = false
is_link_down LinkStatus.up = false

abbrev pub is_link_configuring : LinkStatus → Bool
is_link_configuring LinkStatus.configuring = true
is_link_configuring LinkStatus.down = false
is_link_configuring LinkStatus.up = false

abbrev pub is_link_up : LinkStatus → Bool
is_link_up LinkStatus.up = true
is_link_up LinkStatus.down = false
is_link_up LinkStatus.configuring = false

abbrev pub is_ip_up : IpState → Bool
is_ip_up IpState.up = true
is_ip_up IpState.down = false

abbrev pub is_ip_down : IpState → Bool
is_ip_down IpState.down = true
is_ip_down IpState.up = false
