-- ===== src/Dhcpc/Data4.antt =====
-- The records of the DHCPv4 client: source/WanManager/wanmgr_dhcpv4_apis.h and wanmgr_dhcpv4_internal.h,
-- with the macros that set default values and the names that AddEntry gives. An enumeration that the code
-- stores and never tests against a constant of its own is its number; a 32-bit address is a number.
use Prim.Native.Char.{code}
use Prim.Native.String.{String}
use rdk_wanmanager.Common.{
  ℕ, zero, suc, ◌+◌, ◌-◌, ◌/◌, ◌%◌, refl, Bool, false, List, [], ◌∷◌, ◌++◌, ltb, if◌then◌else◌,
}
use rdk_wanmanager.Dml.{CString}
use rdk_wanmanager.Dhcpc.Table.{Kind, Table, empty_table, ulong_mod}

-- The bytes of a literal.
abbrev pub text : String → CString
text String.[] = []
text (String.◌∷◌ c s) = code c ∷ text s

-- The decimal digits of a number, before `acc`; ten digits are enough for 32 bits.
unfoldable pub digits : ℕ → ℕ → CString → CString
digits zero n acc = acc
digits (suc fuel) n acc =
    let d : CString = (48 + n % 10) ∷ acc in
    let rest : CString = digits fuel (n / 10) d in if ltb n 10 then d else rest

-- `%d` of an unsigned long, which is read as an int.
unfoldable pub format_int : ℕ → CString
unfolding digits
format_int n =
    let w : ℕ = n % ulong_mod in
    if ltb w 2147483648 then digits 10 w [] else text "-" ++ digits 10 (ulong_mod - w) []

-- DML_DHCPC_STATUS.
pub data ClientState : Type 0 where
  init selecting requesting rebinding bound renewing : ClientState

-- DML_DHCP_STATUS.
pub data ServiceStatus : Type 0 where
  disabled enabled error_misconfigured error : ServiceStatus

-- COSA_DML_DHCP_OPT.
pub record SentOption4 : Type 0 where
  pub instance_number : ℕ
  pub alias : CString
  pub enabled : Bool
  pub tag : ℕ
  pub value : CString

-- DML_DHCPC_REQ_OPT.
pub record ReqOption4 : Type 0 where
  pub instance_number : ℕ
  pub alias : CString
  pub enabled : Bool
  pub order : ℕ
  pub tag : ℕ
  pub value : CString

-- DML_DHCPC_CFG.
pub record Config4 : Type 0 where
  pub instance_number : ℕ
  pub alias : CString
  pub enabled : Bool
  pub interface : CString
  pub passthrough_enable : Bool
  pub passthrough_dhcp_pool : CString
  pub boot_file_name : CString

-- DML_DHCPC_INFO; `ip_routers` and `dns_servers` are the arrays of four.
pub record Info4 : Type 0 where
  pub status : ServiceStatus
  pub dhcp_status : ClientState
  pub ip_address : ℕ
  pub subnet_mask : ℕ
  pub num_ip_routers : ℕ
  pub ip_routers : List ℕ
  pub num_dns_servers : ℕ
  pub dns_servers : List ℕ
  pub lease_time_remaining : ℕ
  pub dhcp_server : ℕ

-- DML_DHCPC_FULL, and the tables of DHCPC_CONTEXT_LINK_OBJECT beside it.
pub record Client4 : Type 0 where
  pub cfg : Config4
  pub info : Info4
  pub send_option : Table SentOption4
  pub req_option : Table ReqOption4

-- DHCPV4_SENDOPTION_SET_DEFAULTVALUE.
abbrev pub sent_option4_default : SentOption4 → SentOption4
sent_option4_default o = record o { enabled = false; tag = 0; value = [] }

-- DHCPV4_REQOPTION_SET_DEFAULTVALUE.
abbrev pub req_option4_default : ReqOption4 → ReqOption4
req_option4_default o = record o { enabled = false; order = 0; tag = 0; value = [] }

-- DHCPV4_CLIENT_SET_DEFAULTVALUE.
abbrev pub client4_default : Client4 → Client4
client4_default c = record c {
  cfg = record c.cfg { enabled = false; interface = [] };
  info = record c.info { status = disabled; dhcp_status = init };
}

-- DHCPV4_CLIENT_INITIATION_CONTEXT.
abbrev pub client4_initiation : Client4 → Client4
client4_initiation c = record c { send_option = empty_table; req_option = empty_table }

abbrev pub sent_option4 : Kind SentOption4
sent_option4 = record {
  alias = λ o. o.alias;
  with_alias = λ s o. record o { alias = s };
  set_default = sent_option4_default;
  named = λ n o. record o { instance_number = n; alias = text "SentOption" ++ format_int n };
  alias-with_alias = λ s o. refl;
  alias-set_default = λ o. refl;
}

abbrev pub req_option4 : Kind ReqOption4
req_option4 = record {
  alias = λ o. o.alias;
  with_alias = λ s o. record o { alias = s };
  set_default = req_option4_default;
  named = λ n o. record o { instance_number = n; alias = text "ReqOption" ++ digits 10 n [] };
  alias-with_alias = λ s o. refl;
  alias-set_default = λ o. refl;
}

abbrev pub client4 : Kind Client4
client4 = record {
  alias = λ c. c.cfg.alias;
  with_alias = λ s c. record c { cfg = record c.cfg { alias = s } };
  set_default = client4_default;
  named = λ n c. client4_initiation (record c {
    cfg = record c.cfg { instance_number = n; alias = text "Client" ++ format_int n };
  });
  alias-with_alias = λ s c. refl;
  alias-set_default = λ c. refl;
}

-- WAN_DHCPV4_DATA, without the registry's folder.
pub record Dhcpv4 : Type 0 where
  pub client : Table Client4
