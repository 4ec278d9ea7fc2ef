-- ===== src/Store/Defs.antt =====
-- The operations of source/WanManager/wanmgr_data.c.
use rdk_wanmanager.Common.{
  ℕ, zero, suc, ◌+◌, Bool, true, false, Option, none, some, List, [], if◌then◌else◌, ltb, get_or,
  set, minus_one, ◌%◌, u32_mod,
}
use rdk_wanmanager.Dml.{
  CString, str_eq, Policy, WanStatus, LinkStatus, PhyStatus, IfaceType, IpState, PppState, Wan,
  Ipv4Data, Ipv6Data, Iface, Config,
}

pub record Mutex : Type 0 where
  pub depth : ℕ
  pub is_usable : Bool

-- `WANMGR_DATA_ST`: `Config`, and `IfaceCtrl` with `ulTotalNumbWanInterfaces` and `pIface`.
pub record Database : Type 0 where
  pub config : Config
  pub config_mutex : Mutex
  pub total : ℕ
  pub ifaces : Option (List Iface)
  pub iface_mutex : Mutex

abbrev pub zero_ipv4_data : Ipv4Data
zero_ipv4_data = record {
  ifname = [];
  ip = [];
  mask = [];
  gateway = [];
  dns_server = [];
  dns_server1 = [];
}

abbrev pub zero_ipv6_data : Ipv6Data
zero_ipv6_data = record {
  ifname = [];
  address = [];
  pd_if_address = [];
  nameserver = [];
  nameserver1 = [];
  domain_name = [];
  site_prefix = [];
  prefix_pltime = 0;
  prefix_vltime = 0;
  site_prefix_old = [];
}

-- The `Wan` fields that `WanMgr_IfaceData_Init` writes.
abbrev initial_wan : Wan
initial_wan = record {
  name = [];
  enable = false;
  priority = minus_one;
  type = IfaceType.unconfigured;
  selection_timeout = 0;
  enable_mapt = false;
  enable_dslite = false;
  enable_ipoe = false;
  active_link = false;
  status = WanStatus.disabled;
  link_status = LinkStatus.down;
  refresh = false;
  validation = record {
    discover_offer = false;
    solicit_advertise = false;
    rs_ra = false;
    padi_pado = false;
  };
}

-- The value of a read outside the memory of the table.
unfoldable pub zero_iface : Iface
zero_iface = record {
  iface_idx = 0;
  instance_number = 0;
  name = [];
  display_name = [];
  phy = record { path = []; status = PhyStatus.down };
  wan = initial_wan;
  ip = record {
    path = [];
    ipv4_status = IpState.down;
    ipv6_status = IpState.down;
    ipv4_changed = false;
    ipv6_changed = false;
    ipv4_data = zero_ipv4_data;
    ipv6_data = zero_ipv6_data;
    dhcp4c_pid = 0;
    dhcp6c_pid = 0;
    ipc_ipv4_data = none;
    ipc_ipv6_data = none;
  };
  ppp = record {
    enable = false;
    ipcp_status = PppState.down;
    ipv6cp_status = PppState.down;
    lcp_status = PppState.down;
    link_status = PppState.down;
  };
  map = record { status = IpState.down; path = []; changed = false };
  ds_lite = record { path = []; status = IpState.down; changed = false };
}

abbrev pred_depth : ℕ → ℕ
pred_depth zero = zero
pred_depth (suc n) = n

abbrev locked : Mutex → Mutex
locked m = record m { depth = suc m.depth }

abbrev unlocked : Mutex → Mutex
unlocked m = record m { depth = pred_depth m.depth }

abbrev destroyed : Mutex → Mutex
destroyed m = record m { is_usable = false }

-- `WanMgr_GetConfigData_locked`; `none` is NULL.
unfoldable pub get_config_data_locked : Database → Option Database
get_config_data_locked db =
    if db.config_mutex.is_usable
    then some (record db { config_mutex = locked db.config_mutex })
    else none

-- `WanMgrDml_GetConfigData_release`.
unfoldable pub config_data_release : Database → Database
config_data_release db = record db { config_mutex = unlocked db.config_mutex }

-- `WanMgr_SetConfigData_Default`.
unfoldable pub set_config_data_default : Config → Config
set_config_data_default c = record c { enable = true; policy = Policy.fixed_mode; idle_timeout = 0 }

-- `WanMgr_GetIfaceCtrl_locked`.
unfoldable pub get_iface_ctrl_locked : Database → Option Database
get_iface_ctrl_locked db =
    if db.iface_mutex.is_usable
    then some (record db { iface_mutex = locked db.iface_mutex })
    else none

-- `WanMgrDml_GetIfaceCtrl_release`.
unfoldable pub iface_ctrl_release : Database → Database
iface_ctrl_release db = record db { iface_mutex = unlocked db.iface_mutex }

-- `WanMgr_SetIfaceCtrl_Default`.
unfoldable pub set_iface_ctrl_default : Database → Database
set_iface_ctrl_default db = record db { total = 0; ifaces = none }

-- `WanMgr_IfaceCtrl_Delete`.
unfoldable pub iface_ctrl_delete : Database → Database
iface_ctrl_delete db = record db { total = 0; ifaces = none }

-- The reads and writes through a pointer to an entry of the table.
load_entry : Option (List Iface) → ℕ → Iface
load_entry none p = zero_iface
load_entry (some fs) p = get_or fs p zero_iface

store_entry : Option (List Iface) → ℕ → Iface → Option (List Iface)
store_entry none p f = none
store_entry (some fs) p f = some (set fs p f)

unfoldable pub load : Database → ℕ → Iface
unfolding load_entry
load db p = load_entry db.ifaces p

unfoldable pub store : Database → ℕ → Iface → Database
unfolding store_entry
store db p f = record db { ifaces = store_entry db.ifaces p f }

abbrev pub is_allocated : Option (List Iface) → Bool
is_allocated none = false
is_allocated (some fs) = true

-- `WanMgr_GetIfaceData_locked`: on success the table stays locked.
get_iface_data_of : Database → ℕ → Option Database → Database × Option ℕ
get_iface_data_of db i none = (db, none)
get_iface_data_of db i (some held) =
    if ltb i held.total
    then (if is_allocated held.ifaces then (held, some i) else (iface_ctrl_release held, none))
    else (iface_ctrl_release held, none)

unfoldable pub get_iface_data_locked : Database → ℕ → Database × Option ℕ
unfolding get_iface_data_of get_iface_ctrl_locked iface_ctrl_release
get_iface_data_locked db i = get_iface_data_of db i (get_iface_ctrl_locked db)

-- The loop of `WanMgr_GetIfaceDataByName_locked`, over the `rounds` entries from `i` on.
unfoldable pub find_by_name : Database → CString → ℕ → ℕ → Option ℕ
find_by_name db name zero i = none
find_by_name db name (suc rounds) i =
    let rest = find_by_name db name rounds (i + 1) in
    if str_eq name (load db i).wan.name then some i else rest

unfoldable pub found_or_released : Database → Option ℕ → Database × Option ℕ
found_or_released held none = (iface_ctrl_release held, none)
found_or_released held (some p) = (held, some p)

unfoldable pub get_by_name_of : Database → CString → Option Database → Database × Option ℕ
unfolding found_or_released
get_by_name_of db name none = (db, none)
get_by_name_of db name (some held) =
    if is_allocated held.ifaces
    then found_or_released held (find_by_name held name held.total 0)
    else (iface_ctrl_release held, none)

-- `WanMgr_GetIfaceDataByName_locked`.
unfoldable pub get_iface_data_by_name_locked : Database → CString → Database × Option ℕ
unfolding get_by_name_of get_iface_ctrl_locked iface_ctrl_release
get_iface_data_by_name_locked db name = get_by_name_of db name (get_iface_ctrl_locked db)

-- `WanMgrDml_GetIfaceData_release`, which does not look at its argument.
unfoldable pub iface_data_release : Database → Database
unfolding iface_ctrl_release
iface_data_release db = iface_ctrl_release db

-- `WanMgr_IfaceData_Init`; what is not named here keeps its value.
unfoldable pub iface_data_init : Iface → ℕ → Iface
iface_data_init f i = record f {
  iface_idx = i;
  instance_number = (i + 1) % u32_mod;
  name = [];
  display_name = [];
  phy = record { path = []; status = PhyStatus.down };
  wan = initial_wan;
  ip = record f.ip {
    path = [];
    ipv4_status = IpState.down;
    ipv6_status = IpState.down;
    ipv4_changed = false;
    ipv6_changed = false;
    ipv4_data = zero_ipv4_data;
    ipv6_data = zero_ipv6_data;
    ipc_ipv4_data = none;
    ipc_ipv6_data = none;
  };
  ppp = record f.ppp {
    link_status = PppState.down;
    lcp_status = PppState.down;
    ipcp_status = PppState.down;
    ipv6cp_status = PppState.down;
  };
  map = record { status = IpState.down; path = []; changed = false };
  ds_lite = record { path = []; status = IpState.down; changed = false };
}

-- `WanMgr_Data_Init`; `pthread_mutex_init` makes a mutex usable and free.
unfoldable pub data_init : Database → Database
unfolding set_config_data_default set_iface_ctrl_default
data_init db =
    record (set_iface_ctrl_default (record db { config = set_config_data_default db.config })) {
      config_mutex = record { depth = 0; is_usable = true };
      iface_mutex = record { depth = 0; is_usable = true };
    }

-- `WanMgr_Data_Delete`; the result says whether it is `ANSC_STATUS_SUCCESS`.
unfoldable pub data_delete : Database → Database × Bool
unfolding iface_ctrl_delete
data_delete db = (
  record (iface_ctrl_delete (record db { config_mutex = destroyed db.config_mutex })) {
    iface_mutex = destroyed db.iface_mutex;
  },
  false,
)
