-- ===== src/Dhcpc/Backend4.antt =====
-- The backend of the DHCPv4 client table: the functions WanMgr_DmlDhcpc* of
-- source/WanManager/wanmgr_dhcpv4_apis.c. What the library of the DHCP client answers is a parameter.
use rdk_wanmanager.Common.{
  ℕ, ◌+◌, Bool, true, false, not, Option, none, some, List, [], ◌∷◌, ltb, ◌==◌, if◌then◌else◌, take,
}
use rdk_wanmanager.Dml.{CString}
use rdk_wanmanager.Dhcpc.Data4.{
  text, Config4, Info4, ServiceStatus, ClientState, SentOption4, ReqOption4, Client4,
}

-- The functions dhcpv4c_get_ert_*: the name of the interface, `none` for an error code, and what a getter
-- leaves at the address it is given, where it finds the argument.
pub record Hal : Type 0 where
  pub get_ert_ifname : Option CString
  pub get_ert_fsm_state : ClientState → ClientState
  pub get_ert_ip_addr : ℕ → ℕ
  pub get_ert_mask : ℕ → ℕ
  pub get_ert_gw : ℕ → ℕ
  pub get_ert_dns_svrs : List ℕ
  pub get_ert_remain_lease_time : ℕ → ℕ
  pub get_ert_dhcp_svr : ℕ → ℕ

abbrev pub interface_of : Option CString → CString
interface_of none = []
interface_of (some name) = name

-- WanMgr_DmlDhcpcGetCfg, for an entry that is there.
unfoldable pub get_cfg : Hal → Config4 → Config4
get_cfg h c = record c {
  alias = text "eRouter";
  enabled = true;
  instance_number = 1;
  interface = interface_of h.get_ert_ifname;
  passthrough_enable = true;
  passthrough_dhcp_pool = [];
}

abbrev pub max_entries : ℕ
max_entries = 4

abbrev count : List ℕ → ℕ
count [] = 0
count (x ∷ xs) = 1 + count xs

-- `xs` written over the front of the array `ys`.
abbrev over : List ℕ → List ℕ → List ℕ
over [] ys = ys
over (x ∷ xs) [] = []
over (x ∷ xs) (y ∷ ys) = x ∷ over xs ys

-- A write to the first place of an array.
abbrev at_first : (ℕ → ℕ) → List ℕ → List ℕ
at_first f [] = []
at_first f (x ∷ xs) = f x ∷ xs

-- WanMgr_DmlDhcpcGetInfo; the entry is changed only for the instance number 1.
unfoldable pub get_info : Hal → ℕ → Info4 → Info4 × Bool
get_info h n i =
    let servers : List ℕ = take max_entries h.get_ert_dns_svrs in
    if not (n == 1) then (i, false) else (
      record i {
        status = ServiceStatus.enabled;
        dhcp_status = h.get_ert_fsm_state i.dhcp_status;
        ip_address = h.get_ert_ip_addr i.ip_address;
        subnet_mask = h.get_ert_mask i.subnet_mask;
        num_ip_routers = 1;
        ip_routers = at_first h.get_ert_gw i.ip_routers;
        num_dns_servers = count servers;
        dns_servers = over servers i.dns_servers;
        lease_time_remaining = h.get_ert_remain_lease_time i.lease_time_remaining;
        dhcp_server = h.get_ert_dhcp_svr i.dhcp_server;
      },
      true,
    )

-- WanMgr_DmlDhcpcGetEntry.
unfoldable pub get_entry : Hal → ℕ → Client4 → Client4 × Bool
unfolding get_cfg get_info
get_entry h i c = if ltb 0 i then (c, false) else (
  record c {
    cfg = get_cfg h (record c.cfg { instance_number = 1 });
    info = (get_info h i c.info).0;
  },
  true,
)

-- WanMgr_DmlDhcpcRenew.
unfoldable pub renew : ℕ → Bool
renew n = n == 1

abbrev pub number_of_entries : ℕ
number_of_entries = 1

-- The functions that always fail.
abbrev pub del_entry4 : Bool
del_entry4 = false

abbrev pub set_cfg4 : Bool
set_cfg4 = false

abbrev pub add_sent_option4 : Bool
add_sent_option4 = false

abbrev pub del_sent_option4 : Bool
del_sent_option4 = false

abbrev pub set_sent_option4 : Bool
set_sent_option4 = false

abbrev pub add_req_option4 : Bool
add_req_option4 = false

abbrev pub del_req_option4 : Bool
del_req_option4 = false

abbrev pub set_req_option4 : Bool
set_req_option4 = false

-- WanMgr_DmlDhcpcGetReqOptionbyInsNum changes nothing.
abbrev pub get_req_option4 : ReqOption4 → ReqOption4
get_req_option4 o = o

-- One client of CH_g_dhcpv4_client, with its row of g_dhcpv4_client_sent.
pub record Scanned : Type 0 where
  pub instance_number : ℕ
  pub sent : List SentOption4

unfoldable pub find_sent : List SentOption4 → SentOption4 → Option SentOption4
find_sent [] o = none
find_sent (s ∷ ss) o = if o.instance_number == s.instance_number then some s else find_sent ss o

unfoldable pub or_next : Option SentOption4 → SentOption4 → SentOption4
or_next none o = o
or_next (some s) o = s

-- WanMgr_DmlDhcpcGetSentOptionbyInsNum: what it leaves at `pEntry`.
unfoldable pub get_sent_option4 : List Scanned → ℕ → SentOption4 → SentOption4
unfolding find_sent or_next
get_sent_option4 [] n o = o
get_sent_option4 (c ∷ cs) n o =
    let rest : SentOption4 = get_sent_option4 cs n o in
    if c.instance_number == n then or_next (find_sent c.sent o) rest else rest
