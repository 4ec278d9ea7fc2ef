-- ===== src/Dhcpc/Client4.antt =====
-- The table DHCPv4.Client.{i}: the functions Client_* of
-- source/TR-181/middle_layer_src/wanmgr_dml_dhcpv4.c that change it, and WanMgr_DmlDhcpcAddEntry of
-- source/WanManager/wanmgr_dhcpv4_apis.c. The object hDhcpv4 is there. The name of a parameter is a
-- constructor, `unknown` for any name that the code does not compare with.
use rdk_wanmanager.Common.{ℕ, Bool, true, false, Option, none, some, length, if◌then◌else◌}
use rdk_wanmanager.Dml.{CString}
use rdk_wanmanager.Dhcpc.Links.{Link, get_by_ins_num, get_by_index, write_link}
use rdk_wanmanager.Dhcpc.Table.{
  Table, add_entry, del_entry, set_alias, validate_alias, Validated, commit_new, commit_old,
  rollback,
}
use rdk_wanmanager.Dhcpc.Data4.{Client4, client4, Dhcpv4}
use rdk_wanmanager.Dhcpc.Backend4.{Hal, get_cfg, renew, del_entry4, set_cfg4}
use rdk_wanmanager.Dhcpc.Registry4.{Image4, save_dhcpv4}

-- The object, and the folder hIrepFolderDhcpv4, `none` for NULL.
pub record Store4 : Type 0 where
  pub dhcpv4 : Dhcpv4
  pub folder : Option Image4

abbrev pub rewritten : Image4 → Option Image4 → Option Image4
rewritten i none = none
rewritten i (some old) = some i

-- The call of WanMgr_Dhcpv4RegSetDhcpv4Info.
unfoldable pub reg_set4 : Store4 → Store4
reg_set4 s = record s { folder = rewritten (save_dhcpv4 s.dhcpv4) s.folder }

abbrev pub clients4 : Store4 → Table Client4
clients4 s = s.dhcpv4.client

abbrev pub with_clients4 : Store4 → Table Client4 → Store4
with_clients4 s t = record s { dhcpv4 = record s.dhcpv4 { client = t } }

-- The link of a handle.
abbrev pub client_link : Store4 → ℕ → Option (Link Client4)
client_link s h = get_by_ins_num (clients4 s).links h

unfoldable pub client_get_entry_count : Store4 → ℕ
client_get_entry_count s = length (clients4 s).links

abbrev pub number_of : {A : Type 0} → Option (Link A) → Option ℕ
number_of none = none
number_of (some y) = some y.instance_number

-- The handle at an index, which is the instance number that is returned with it too.
unfoldable pub client_get_entry : Store4 → ℕ → Option ℕ
client_get_entry s i = number_of (get_by_index (clients4 s).links i)

-- WanMgr_DmlDhcpcAddEntry; `none` is no memory for the entry.
unfoldable pub client_add_entry : Option Client4 → Store4 → Store4 × Option ℕ
unfolding reg_set4
client_add_entry none s = (s, none)
client_add_entry (some blank) s =
    let t : Table Client4 = add_entry client4 blank (clients4 s) in
    (reg_set4 (with_clients4 s t), some t.max_instance)

unfoldable pub client_deleted : Store4 → Table Client4 × Bool → Store4 × Bool
unfolding reg_set4
client_deleted s (t, true) = (reg_set4 (with_clients4 s t), true)
client_deleted s (t, false) = (s, false)

unfoldable pub client_del_entry : Link Client4 → Store4 → Store4 × Bool
unfolding client_deleted
client_del_entry x s = client_deleted s (del_entry del_entry4 x (clients4 s))

abbrev pub write_client : Link Client4 → (Client4 → Client4) → Store4 → Store4
write_client x f s =
    let t : Table Client4 = clients4 s in
    with_clients4 s (record t {
      links = write_link t.links x.instance_number (λ y. record y { content = f y.content });
    })

pub data ClientBool : Type 0 where
  enable renewal unknown : ClientBool

unfoldable pub client_set_bool : ClientBool → Bool → Link Client4 → Store4 → Store4 × Bool
client_set_bool ClientBool.enable b x s =
    (write_client x (λ c. record c { cfg = record c.cfg { enabled = b } }) s, true)
client_set_bool ClientBool.renewal b x s =
    (s, if b then renew x.content.cfg.instance_number else true)
client_set_bool ClientBool.unknown b x s = (s, false)

pub data ClientString : Type 0 where
  alias boot_file_name interface unknown : ClientString

unfoldable pub client_set_string : ClientString → CString → Link Client4 → Store4 → Store4 × Bool
client_set_string ClientString.alias v x s =
    (with_clients4 s (set_alias client4 v x (clients4 s)), true)
client_set_string ClientString.boot_file_name v x s =
    (write_client x (λ c. record c { cfg = record c.cfg { boot_file_name = v } }) s, true)
client_set_string ClientString.interface v x s =
    (write_client x (λ c. record c { cfg = record c.cfg { interface = v } }) s, true)
client_set_string ClientString.unknown v x s = (s, false)

unfoldable pub client_validate : Link Client4 → Store4 → Validated
client_validate x s = validate_alias client4 x (clients4 s)

abbrev pub fetch4 : Hal → Client4 → Client4
fetch4 h c = record c { cfg = get_cfg h c.cfg }

-- The registry is written before the backup of the alias is cleared.
unfoldable pub client_commit : Hal → Link Client4 → Store4 → Store4 × Bool
unfolding reg_set4
client_commit h x s =
    let new : Store4 = reg_set4 (with_clients4 s (commit_new client4 true x (clients4 s))) in
    let old : Store4 =
      with_clients4 s
        (commit_old client4 (if set_cfg4 then (λ c. c) else fetch4 h) x (clients4 s)) in
    if x.is_new then (new, true) else (old, set_cfg4)

unfoldable pub client_rollback : Hal → Link Client4 → Store4 → Store4
client_rollback h x s = with_clients4 s (rollback client4 (fetch4 h) x (clients4 s))
