-- ===== src/Tests/Clients.antt =====
-- The DHCPv4 client table at work: the client of the backend, and one that is added.
use rdk_wanmanager.Common.{
  ℕ, ◌≡◌, ◌≢◌, refl, false, none, some, [], ◌∷◌, arith, suc, if◌then◌else◌, ◌==◌,
}
use rdk_wanmanager.Dml.{CString, is_empty}
use rdk_wanmanager.Dhcpc.Links.{Link, get_by_ins_num, push_by_ins_num, write_link}
use rdk_wanmanager.Dhcpc.Links.Order.{AtMost-le}
use rdk_wanmanager.Dhcpc.Table.{
  empty_table, valid, add_entry, next_number, validate_alias, clash, set_alias,
}
use rdk_wanmanager.Dhcpc.Data4.{format_int, text, Client4, client4, client4_default, init, disabled}
use rdk_wanmanager.Dhcpc.Backend4.{Hal, get_cfg}
use rdk_wanmanager.Dhcpc.Registry4.{Blank4, save_dhcpv4, load_dhcpv4}
use rdk_wanmanager.Dhcpc.Registry4.RoundTrip.{renewed_clients, load-save_dhcpv4}
use rdk_wanmanager.Dhcpc.Client4.{
  Store4, clients4, with_clients4, client_link, client_add_entry, client_get_entry_count,
  ClientString, ClientBool, client_validate, fetch4, client_set_string,
}
use rdk_wanmanager.Dhcpc.Start4.{initialize4}
use rdk_wanmanager.Dhcpc.Requests4.{
  ClientCall, Request4, adds_client, on_client, request4, call_client,
}
use rdk_wanmanager.Dhcpc.Requests4.Valid.{IsStore, HasRooms}
use rdk_wanmanager.Dhcpc.Requests4.Isolated.{request4-SameClients}
use rdk_wanmanager.Dhcpc.Requests4.Added.{new_client, client_add_entry_lem, client_add_entry_wraps}
use rdk_wanmanager.Dhcpc.Requests4.Transaction.{
  new_client_rolls_back, edited, erouter, old_client_resets, renamed, with_name, accepted_alias,
}
use rdk_wanmanager.Dhcpc.Requests4.Backend.{HasBackendClient}
use rdk_wanmanager.Dhcpc.Requests4.Runs.{Run4, starts, asks, run4-IsStore}

abbrev hal : Hal
hal = record {
  get_ert_ifname = some (text "erouter0");
  get_ert_fsm_state = λ s. s;
  get_ert_ip_addr = λ a. 167772162;
  get_ert_mask = λ a. 4294967040;
  get_ert_gw = λ a. 167772161;
  get_ert_dns_svrs = 134744072 ∷ [];
  get_ert_remain_lease_time = λ a. 3600;
  get_ert_dhcp_svr = λ a. 167772161;
}

abbrev blank : Blank4
blank = record {
  client = record {
    cfg = record {
      instance_number = 0;
      alias = [];
      enabled = false;
      interface = [];
      passthrough_enable = false;
      passthrough_dhcp_pool = [];
      boot_file_name = [];
    };
    info = record {
      status = disabled;
      dhcp_status = init;
      ip_address = 0;
      subnet_mask = 0;
      num_ip_routers = 0;
      ip_routers = 0 ∷ 0 ∷ 0 ∷ 0 ∷ [];
      num_dns_servers = 0;
      dns_servers = 0 ∷ 0 ∷ 0 ∷ 0 ∷ [];
      lease_time_remaining = 0;
      dhcp_server = 0;
    };
    send_option = empty_table;
    req_option = empty_table;
  };
  sent = record { instance_number = 0; alias = []; enabled = false; tag = 0; value = [] };
  req = record { instance_number = 0; alias = []; enabled = false; order = 0; tag = 0; value = [] };
}

started : Store4
started = initialize4 hal blank none

abbrev add_one : Request4
add_one = adds_client (some blank.client)

two : Store4
two = request4 hal [] add_one started

started-HasRooms : HasRooms started
unfolding started initialize4 empty_table get_by_ins_num push_by_ins_num
started-HasRooms = record { table = omega arith; options = ((omega arith, omega arith), tt) }

run_two : Run4 hal [] two
unfolding two initialize4 started
run_two = asks started two add_one (starts started blank none tt refl) started-HasRooms refl

two-IsStore : IsStore two
two-IsStore = (run4-IsStore hal [] two run_two).0

run4-IsStore_example : IsStore two × HasBackendClient two
run4-IsStore_example = run4-IsStore hal [] two run_two

-- The two clients.
abbrev second : Link Client4
second = new_client 2 blank.client

abbrev first : Link Client4
first = record {
  instance_number = 1;
  is_new = false;
  content = fetch4 hal (client4.named 1 (client4_default blank.client));
}

second_found : client_link two 2 ≡ some second
unfolding two started initialize4 empty_table get_by_ins_num push_by_ins_num request4
    client_add_entry add_entry next_number format_int
second_found = refl

first_found : client_link two 1 ≡ some first
unfolding two started initialize4 empty_table get_by_ins_num push_by_ins_num request4
    client_add_entry add_entry next_number format_int get_cfg
first_found = refl

started-IsStore : IsStore started
unfolding started
started-IsStore = (run4-IsStore hal [] started (starts started blank none tt refl)).0

client_add_entry_lem_example :
    let (r, handle) = client_add_entry (some blank.client) started in
    (handle ≡ some (suc (clients4 started).max_instance))
    × (client_get_entry_count r ≡ suc (client_get_entry_count started))
    × ((j : ℕ)
        → client_link r j ≡ (
            if suc (clients4 started).max_instance == j
            then some (new_client (suc (clients4 started).max_instance) blank.client)
            else client_link started j))
client_add_entry_lem_example =
    client_add_entry_lem blank.client started started-IsStore started-HasRooms.table

-- The counter is the greatest ULONG.
abbrev full : Store4
full = with_clients4 started (record (clients4 started) { max_instance = 4294967295 })

started-HasBackendClient : HasBackendClient started
unfolding started
started-HasBackendClient = (run4-IsStore hal [] started (starts started blank none tt refl)).1

full-IsStore : IsStore full
full-IsStore = record {
  table = record {
    ordered = started-IsStore.table.ordered;
    counted =
        AtMost-le (clients4 started).max_instance 4294967295 (clients4 started).links
          (omega (arith, started-HasRooms.table)) started-IsStore.table.counted;
  };
  options = started-IsStore.options;
}

client_add_entry_wraps_example :
    let (r, handle) = client_add_entry (some blank.client) full in
    (handle ≡ some 1)
    × (client_get_entry_count r ≡ suc (client_get_entry_count full))
    × ((j : ℕ) → client_link r j ≡ client_link full j)
client_add_entry_wraps_example =
    client_add_entry_wraps blank.client full full-IsStore
      (record {
        entry = started-HasBackendClient.entry;
        found = started-HasBackendClient.found;
        committed = started-HasBackendClient.committed;
      })
      refl

request4-SameClients_example :
    client_link (request4 hal [] (on_client 2 ClientCall.deletes) two) 1 ≡ client_link two 1
request4-SameClients_example =
    request4-SameClients hal [] (on_client 2 ClientCall.deletes) two 2 two-IsStore refl 1
      (omega arith)

second_named : is_empty second.content.cfg.alias ≡ false
unfolding format_int
second_named = refl

new_client_rolls_back_example :
    client_link
      (request4 hal [] (on_client 2 ClientCall.rolls_back) (
        request4 hal []
          (on_client 2 (ClientCall.sets_string ClientString.alias (text "eRouter")))
          two))
      2
    ≡ some (record second { content = client4_default second.content })
new_client_rolls_back_example =
    new_client_rolls_back hal [] 2 second (text "eRouter") two second_found refl second_named

old_client_resets_example :
    let r : Store4 = edited hal [] 1 ClientString.alias (text "lan") ClientBool.enable false two in
    let y : Link Client4 = erouter hal first.content.cfg.boot_file_name first in
    (client_link (request4 hal [] (on_client 1 ClientCall.commits) r) 1 ≡ some y)
    × (client_link (request4 hal [] (on_client 1 ClientCall.rolls_back) r) 1 ≡ some y)
old_client_resets_example =
    old_client_resets hal [] 1 first ClientString.alias (text "lan") ClientBool.enable false two
      first_found refl

abbrev iptv : CString
iptv = text "iptv"

iptv_valid : client_validate (with_name iptv second) (renamed hal iptv second two) ≡ valid
unfolding client_validate validate_alias clash set_alias call_client client_set_string two started
    initialize4 empty_table get_by_ins_num push_by_ins_num request4 client_add_entry add_entry
    next_number format_int write_link get_cfg
iptv_valid = refl

accepted_alias_example :
    let r : Store4 =
      request4 hal [] (on_client 2 ClientCall.commits) (renamed hal iptv second two) in
    (client_link r 2 ≡ some (record (with_name iptv second) { is_new = false }))
    × ((j : ℕ) (y : Link Client4)
        → (◌≢◌ {A = ℕ} 2 j)
        → client_link r j ≡ some y
        → y.content.cfg.alias ≢ iptv)
accepted_alias_example =
    accepted_alias hal [] 2 second iptv two two-IsStore second_found refl second_named iptv_valid

load-save_dhcpv4_example : load_dhcpv4 blank (some (save_dhcpv4 two.dhcpv4)) ≡ record {
  client = record {
    links = renewed_clients blank (clients4 two).links;
    max_instance = (clients4 two).max_instance;
    alias_backup = [];
  };
}
load-save_dhcpv4_example = load-save_dhcpv4 blank two two-IsStore
