-- ===== src/Dhcpc/Registry4.antt =====
-- What the DHCPv4 client table keeps in the registry: WanMgr_Dhcpv4RegSetDhcpv4Info and
-- WanMgr_Dhcpv4RegGetDhcpv4Info of source/WanManager/wanmgr_dhcpv4_internal.c. A folder of the registry is
-- the tree of the folders and records that the code adds to it, and reading takes such a tree as the
-- folder's answers: a record that the folder may lack is an Option. Calls that fail for want of memory
-- are left out.
pub mod RoundTrip
pub mod Renewed
use rdk_wanmanager.Common.{
  ℕ, Bool, true, false, not, ◌&&◌, Option, none, some, List, [], ◌∷◌, ◌==◌, if◌then◌else◌,
}
use rdk_wanmanager.Dml.{CString}
use rdk_wanmanager.Dhcpc.Links.{Link, push_by_ins_num}
use rdk_wanmanager.Dhcpc.Table.{Kind, Table, empty_table}
use rdk_wanmanager.Dhcpc.Data4.{
  SentOption4, ReqOption4, Client4, sent_option4, req_option4, client4, Dhcpv4,
}

-- The folder of one option, with `Alias` and `bNew`.
pub record SavedOption : Type 0 where
  pub instance_number : ℕ
  pub alias : CString
  pub is_new : Option Bool

-- A folder of options, with `NextInstanceNumber`.
pub record SavedTable : Type 0 where
  pub next_instance_number : Option ℕ
  pub options : List SavedOption

-- The folder of one client.
pub record SavedClient4 : Type 0 where
  pub instance_number : ℕ
  pub alias : CString
  pub is_new : Option Bool
  pub req_option : Option SavedTable
  pub sent_option : Option SavedTable

-- The folder `Client`.
pub record Image4 : Type 0 where
  pub next_instance_number : Option ℕ
  pub clients : List SavedClient4

abbrev pub is_nil : {A : Type 0} → List A → Bool
is_nil [] = true
is_nil (x ∷ xs) = false

-- The loop over the options of a client: those the backend has got are left out.
unfoldable pub save_options : {A : Type 0} → Kind A → List (Link A) → List SavedOption
save_options k [] = []
save_options k (y ∷ ys) =
    if y.is_new
    then record {
      instance_number = y.instance_number;
      alias = k.alias y.content;
      is_new = some y.is_new;
    }
      ∷ save_options k ys
    else save_options k ys

unfoldable pub save_table : {A : Type 0} → Kind A → Table A → Option SavedTable
unfolding save_options
save_table k t =
    if is_nil t.links
    then none
    else some
        (record { next_instance_number = some t.max_instance; options = save_options k t.links })

-- The test by which a client is not saved.
unfoldable pub is_unsaved : Link Client4 → Bool
is_unsaved y =
    not y.is_new
    && is_nil y.content.req_option.links
    && is_nil y.content.send_option.links
    && y.content.send_option.max_instance == 0
    && y.content.req_option.max_instance == 0

unfoldable pub save_client4 : Link Client4 → SavedClient4
unfolding save_table
save_client4 y = record {
  instance_number = y.instance_number;
  alias = y.content.cfg.alias;
  is_new = some y.is_new;
  req_option = save_table req_option4 y.content.req_option;
  sent_option = save_table sent_option4 y.content.send_option;
}

unfoldable pub save_clients4 : List (Link Client4) → List SavedClient4
unfolding is_unsaved save_client4
save_clients4 [] = []
save_clients4 (y ∷ ys) =
    if is_unsaved y then save_clients4 ys else save_client4 y ∷ save_clients4 ys

-- WanMgr_Dhcpv4RegSetDhcpv4Info: what it adds to the folder that it has cleared.
unfoldable pub save_dhcpv4 : Dhcpv4 → Image4
unfolding save_clients4
save_dhcpv4 d = record {
  next_instance_number = some d.client.max_instance;
  clients = save_clients4 d.client.links;
}

abbrev or_new : Option Bool → Bool
or_new none = true
or_new (some b) = b

abbrev or_zero : Option ℕ → ℕ
or_zero none = 0
or_zero (some n) = n

-- The loop over the folders of options; `blank` is the memory of a new entry.
unfoldable pub load_options :
    {A : Type 0} → Kind A → A → List SavedOption → List (Link A) → List (Link A)
load_options k blank [] acc = acc
load_options k blank (s ∷ ss) acc = load_options k blank ss (
    if s.instance_number == 0
    then acc
    else push_by_ins_num acc (record {
      instance_number = s.instance_number;
      is_new = or_new s.is_new;
      content = k.with_alias s.alias (k.named s.instance_number (k.set_default blank));
    }))

unfoldable pub load_table : {A : Type 0} → Kind A → A → Option SavedTable → Table A
unfolding load_options
load_table k blank none = empty_table
load_table k blank (some s) = record {
  links = load_options k blank s.options [];
  max_instance = or_zero s.next_instance_number;
  alias_backup = [];
}

-- The memory that the allocations of a client and of its options give.
pub record Blank4 : Type 0 where
  pub client : Client4
  pub sent : SentOption4
  pub req : ReqOption4

unfoldable pub load_client4 : Blank4 → SavedClient4 → Link Client4
unfolding load_table
load_client4 b s = record {
  instance_number = s.instance_number;
  is_new = or_new s.is_new;
  content =
      record (client4.with_alias s.alias
        (client4.named s.instance_number (client4.set_default b.client))) {
          req_option = load_table req_option4 b.req s.req_option;
          send_option = load_table sent_option4 b.sent s.sent_option;
        };
}

unfoldable pub load_clients4 :
    Blank4 → List SavedClient4 → List (Link Client4) → List (Link Client4)
unfolding load_client4
load_clients4 b [] acc = acc
load_clients4 b (s ∷ ss) acc =
    load_clients4 b ss
      (if s.instance_number == 0 then acc else push_by_ins_num acc (load_client4 b s))

-- WanMgr_Dhcpv4RegGetDhcpv4Info, on the object that Initialize has cleared; `none` is no folder.
unfoldable pub load_dhcpv4 : Blank4 → Option Image4 → Dhcpv4
unfolding load_clients4
load_dhcpv4 b none = record { client = empty_table }
load_dhcpv4 b (some s) = record {
  client = record {
    links = load_clients4 b s.clients [];
    max_instance = or_zero s.next_instance_number;
    alias_backup = [];
  };
}
