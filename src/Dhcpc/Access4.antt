-- ===== src/Dhcpc/Access4.antt =====
-- Reading the DHCPv4 client table: the functions Client_GetParam*Value, SentOption_GetParam*Value and
-- ReqOption_GetParam*Value of source/TR-181/middle_layer_src/wanmgr_dml_dhcpv4.c. A getter of a client asks
-- the backend first where the code does, so it returns the client too. Left as parameters: the text of an
-- IPv4 address (inet_ntoa), and the path of the IP interface that DmlGetInstanceByKeywordFromPandM and
-- PAM_IF_TABLE_OBJECT give to a name.
pub mod Sizes
use rdk_wanmanager.Common.{
  ℕ, suc, ◌+◌, Bool, true, false, Option, none, some, List, [], ◌∷◌, ◌++◌, length, ltb, ◌==◌,
  if◌then◌else◌, take,
}
use rdk_wanmanager.Dml.{CString, is_empty}
use rdk_wanmanager.Dhcpc.Data4.{Client4, Info4, ClientState, ServiceStatus, SentOption4, ReqOption4}
use rdk_wanmanager.Dhcpc.Backend4.{Hal, get_info, get_req_option4, max_entries}

-- What a string getter returns: 0 with the text, 1 with the size that is needed, -1.
pub data StringResult : Type 0 where
  copied : CString → StringResult
  too_small : ℕ → StringResult
  unsupported : StringResult

-- `if (AnscSizeOfString(v) < *pUlSize)` copy, else ask for the size.
unfoldable pub read_string : CString → ℕ → StringResult
read_string v size = if ltb (length v) size then copied v else too_small (length v + 1)

pub data ClientFlag : Type 0 where
  enable renewal unknown : ClientFlag

unfoldable pub client_get_bool : ClientFlag → Client4 → Option Bool
client_get_bool ClientFlag.enable c = some c.cfg.enabled
client_get_bool ClientFlag.renewal c = some false
client_get_bool ClientFlag.unknown c = none

-- The call of WanMgr_DmlDhcpcGetInfo with the number of the link.
unfoldable pub refreshed : Hal → ℕ → Client4 → Client4
unfolding get_info
refreshed h n c = record c { info = (get_info h n c.info).0 }

pub data ClientInt : Type 0 where
  lease_time_remaining unknown : ClientInt

unfoldable pub client_get_int : Hal → ℕ → ClientInt → Client4 → Client4 × Option ℕ
unfolding refreshed
client_get_int h n ClientInt.lease_time_remaining c =
    let d : Client4 = refreshed h n c in (d, some d.info.lease_time_remaining)
client_get_int h n ClientInt.unknown c = (c, none)

pub data ClientUlong : Type 0 where
  status dhcp_status ip_address subnet_mask dhcp_server unknown : ClientUlong

-- The numbers of the enumerators, which start at 1.
abbrev status_number : ServiceStatus → ℕ
status_number ServiceStatus.disabled = 1
status_number ServiceStatus.enabled = 2
status_number ServiceStatus.error_misconfigured = 3
status_number ServiceStatus.error = 4

abbrev state_number : ClientState → ℕ
state_number ClientState.init = 1
state_number ClientState.selecting = 2
state_number ClientState.requesting = 3
state_number ClientState.rebinding = 4
state_number ClientState.bound = 5
state_number ClientState.renewing = 6

abbrev pub is_bound : Info4 → Bool
is_bound i = state_number i.dhcp_status == 5

unfoldable pub client_get_ulong : Hal → ℕ → ClientUlong → Client4 → Client4 × Option ℕ
unfolding refreshed
client_get_ulong h n ClientUlong.status c =
    let d : Client4 = refreshed h n c in (d, some (status_number d.info.status))
client_get_ulong h n ClientUlong.dhcp_status c =
    let d : Client4 = refreshed h n c in (d, some (state_number d.info.dhcp_status))
client_get_ulong h n ClientUlong.ip_address c =
    let d : Client4 = refreshed h n c in
    (d, some (if is_bound d.info then d.info.ip_address else 0))
client_get_ulong h n ClientUlong.subnet_mask c =
    let d : Client4 = refreshed h n c in
    (d, some (if is_bound d.info then d.info.subnet_mask else 0))
client_get_ulong h n ClientUlong.dhcp_server c =
    let d : Client4 = if c.info.dhcp_server == 0 then refreshed h n c else c in
    (d, some d.info.dhcp_server)
client_get_ulong h n ClientUlong.unknown c = (c, none)

-- The addresses with commas between them.
abbrev pub joined : (ℕ → CString) → List ℕ → CString
joined ntoa [] = []
joined ntoa (a ∷ []) = ntoa a
joined ntoa (a ∷ b ∷ l) = ntoa a ++ (44 ∷ joined ntoa (b ∷ l))

pub data ClientText : Type 0 where
  alias boot_file_name interface ip_routers dns_servers unknown : ClientText

-- A list of addresses that does not fit: the size that is asked for is that of the name of the interface.
unfoldable pub read_list : CString → CString → ℕ → StringResult
read_list name l size = if ltb (length l) size then copied l else too_small (length name + 1)

abbrev pub listed : ℕ → List ℕ → List ℕ
listed n l = take (if ltb n max_entries then n else max_entries) l

unfoldable pub client_get_string :
    (ℕ → CString)
    → (CString → CString)
    → Hal
    → ℕ
    → ClientText
    → ℕ
    → Client4
    → Client4 × StringResult
unfolding read_string read_list refreshed
client_get_string ntoa pam h n ClientText.alias size c = (c, read_string c.cfg.alias size)
client_get_string ntoa pam h n ClientText.boot_file_name size c =
    (c, read_string c.cfg.boot_file_name size)
client_get_string ntoa pam h n ClientText.interface size c =
    let path : CString = pam c.cfg.interface in
    (c, if is_empty path then copied [] else read_string path size)
client_get_string ntoa pam h n ClientText.ip_routers size c =
    let d : Client4 = refreshed h n c in
    let i : Info4 = d.info in
    (
      d,
      if is_bound i
          then read_list c.cfg.interface (joined ntoa (listed i.num_ip_routers i.ip_routers)) size
          else copied [],
    )
client_get_string ntoa pam h n ClientText.dns_servers size c =
    let d : Client4 = refreshed h n c in
    let i : Info4 = d.info in
    if is_bound c.info
    then (d, read_list c.cfg.interface (joined ntoa (listed i.num_dns_servers i.dns_servers)) size)
    else (c, copied [])
client_get_string ntoa pam h n ClientText.unknown size c = (c, unsupported)

-- The getters of the options; the tests on the names are the clauses.
pub data OptionText : Type 0 where
  alias value unknown : OptionText

unfoldable pub sent_option_get_bool : Bool → SentOption4 → Option Bool
sent_option_get_bool true o = some o.enabled
sent_option_get_bool false o = none

unfoldable pub sent_option_get_ulong : Bool → SentOption4 → Option ℕ
sent_option_get_ulong true o = some o.tag
sent_option_get_ulong false o = none

unfoldable pub sent_option_get_string : OptionText → ℕ → SentOption4 → StringResult
unfolding read_string
sent_option_get_string OptionText.alias size o = read_string o.alias size
sent_option_get_string OptionText.value size o = read_string o.value size
sent_option_get_string OptionText.unknown size o = unsupported

unfoldable pub req_option_get_bool : Bool → ReqOption4 → Option Bool
req_option_get_bool true o = some o.enabled
req_option_get_bool false o = none

pub data ReqUlong : Type 0 where
  order tag unknown : ReqUlong

unfoldable pub req_option_get_ulong : ReqUlong → ReqOption4 → Option ℕ
req_option_get_ulong ReqUlong.order o = some o.order
req_option_get_ulong ReqUlong.tag o = some o.tag
req_option_get_ulong ReqUlong.unknown o = none

unfoldable pub req_option_get_string : OptionText → ℕ → ReqOption4 → StringResult
unfolding read_string
req_option_get_string OptionText.alias size o = read_string o.alias size
req_option_get_string OptionText.value size o = read_string (get_req_option4 o).value size
req_option_get_string OptionText.unknown size o = unsupported
