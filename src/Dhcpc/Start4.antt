-- ===== src/Dhcpc/Start4.antt =====
-- The start of the DHCPv4 client table: WanMgr_Dhcpv4Initialize and WanMgr_Dhcpv4BackendGetDhcpv4Info of
-- source/WanManager/wanmgr_dhcpv4_internal.c. The loops over the options of a client run no round, since
-- WanMgr_DmlDhcpcGetNumberOfReqOption and WanMgr_DmlDhcpcGetNumberOfSentOption return 0. Calls that fail
-- for want of memory are left out.
pub mod Valid
use rdk_wanmanager.Common.{
  ℕ, zero, suc, Bool, true, false, ◌||◌, Option, none, some, ltb, ◌==◌, if◌then◌else◌, ◌+◌,
}
use rdk_wanmanager.Dhcpc.Links.{Link, push_by_ins_num, get_by_ins_num, write_link}
use rdk_wanmanager.Dhcpc.Table.{Table, next_number}
use rdk_wanmanager.Dhcpc.Data4.{Client4, client4_default, client4_initiation, Dhcpv4}
use rdk_wanmanager.Dhcpc.Backend4.{Hal, get_entry, number_of_entries}
use rdk_wanmanager.Dhcpc.Registry4.{Image4, Blank4, load_dhcpv4}
use rdk_wanmanager.Dhcpc.Client4.{Store4, reg_set4}

-- The table so far, and bNeedSave.
pub record Build : Type 0 where
  pub table : Table Client4
  pub need_save : Bool

abbrev pub raised : Table Client4 → ℕ → Table Client4
raised t n = if ltb t.max_instance n then record t { max_instance = n } else t

-- The link of the list takes the configuration and the state that the backend gave.
abbrev pub taken : Client4 → Link Client4 → Link Client4
taken c y = record y { is_new = false; content = record y.content { cfg = c.cfg; info = c.info } }

-- The branch on the link that the list already has.
unfoldable pub put_client : Client4 → Option (Link Client4) → Build → Build
put_client c none b = record b {
  table = record b.table {
    links =
        push_by_ins_num b.table.links
          (record { instance_number = c.cfg.instance_number; is_new = false; content = c });
  };
}
put_client c (some y) b = record {
  table = record b.table { links = write_link b.table.links y.instance_number (taken c) };
  need_save = b.need_save || y.is_new;
}

-- One round for the entry `c`: a client without number is given one, but the backend does not store it
-- (WanMgr_DmlDhcpcSetValues fails) and the loop stops.
unfoldable pub backend_client : Client4 → Build → Build × Bool
unfolding put_client
backend_client c b =
    let n : ℕ = c.cfg.instance_number in
    let r : Build = record {
      table = raised b.table n;
      need_save = b.need_save || ltb b.table.max_instance n;
    } in
    if n == 0
    then (
      record {
        table = record b.table { max_instance = next_number b.table.max_instance };
        need_save = true;
      },
      false,
    )
    else (put_client c (get_by_ins_num r.table.links n) r, true)

-- The loop over the clients of the backend, from the index `i`.
unfoldable pub backend_clients : Hal → Client4 → ℕ → ℕ → Build → Build
unfolding backend_client get_entry
backend_clients h blank zero i b = b
backend_clients h blank (suc count) i b =
    let (c, found) = get_entry h i (client4_default blank) in
    let (b', more) = backend_client (client4_initiation c) b in
    let rest : Build = backend_clients h blank count (i + 1) b' in
    if found then (if more then rest else b') else b

-- WanMgr_Dhcpv4BackendGetDhcpv4Info.
unfoldable pub backend_get : Hal → Client4 → Store4 → Store4
unfolding backend_clients reg_set4
backend_get h blank s =
    let b : Build =
      backend_clients h blank number_of_entries 0
        (record { table = s.dhcpv4.client; need_save = false }) in
    let s' : Store4 = record s { dhcpv4 = record s.dhcpv4 { client = b.table } } in
    if b.need_save then reg_set4 s' else s'

-- WanMgr_Dhcpv4Initialize.
unfoldable pub initialize4 : Hal → Blank4 → Option Image4 → Store4
unfolding backend_get load_dhcpv4
initialize4 h b folder =
    backend_get h b.client (record { dhcpv4 = load_dhcpv4 b folder; folder = folder })
