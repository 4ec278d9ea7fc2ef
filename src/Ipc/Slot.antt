-- ===== src/Ipc/Slot.antt =====
-- `WanMgr_IpcNewIpv4Msg` and `WanMgr_IpcNewIpv6Msg` of source/WanManager/wanmgr_ipc.c: an interface has
-- room for one message of each kind, and the server tries again while the room is taken. `alloc` says
-- whether `malloc` succeeds in a round, and `others` is what the other threads do to the table while
-- the server sleeps after it.
use rdk_wanmanager.Common.{
  ℕ, zero, suc, ◌+◌, Bool, true, false, ◌&&◌, Option, none, some, if◌then◌else◌,
}
use rdk_wanmanager.Dml.{CString, Iface, Dhcpv4Msg, Dhcpv6Msg}
use rdk_wanmanager.Store.Defs.{
  Database, load, store, get_iface_data_by_name_locked, iface_data_release,
}

abbrev is_none : {A : Type 0} → Option A → Bool
is_none none = true
is_none (some a) = false

abbrev pub has_room4 : Iface → Bool
has_room4 f = is_none f.ip.ipc_ipv4_data

abbrev pub has_room6 : Iface → Bool
has_room6 f = is_none f.ip.ipc_ipv6_data

abbrev pub with_msg4 : Dhcpv4Msg → Iface → Iface
with_msg4 msg f = record f { ip = record f.ip { ipc_ipv4_data = some msg } }

abbrev pub with_msg6 : Dhcpv6Msg → Iface → Iface
with_msg6 msg f = record f { ip = record f.ip { ipc_ipv6_data = some msg } }

-- One round, with the interface found or not: the table, and whether `retStatus` is
-- `ANSC_STATUS_SUCCESS`.
unfoldable pub put_msg :
    (Iface → Bool) → (Iface → Iface) → Bool → Database × Option ℕ → Database × Bool
put_msg room fill alloc (db, none) = (db, false)
put_msg room fill alloc (held, some p) =
    if room (load held p) && alloc
    then (iface_data_release (store held p (fill (load held p))), true)
    else (iface_data_release held, false)

unfoldable pub try_msg :
    (Iface → Bool) → (Iface → Iface) → CString → Bool → Database → Database × Bool
unfolding put_msg
try_msg room fill name alloc db = put_msg room fill alloc (get_iface_data_by_name_locked db name)

-- WANMGR_MAX_IPC_PROCCESS_TRY.
abbrev pub max_tries : ℕ
max_tries = 5

module _ (others : ℕ → Database → Database) (alloc : ℕ → Bool) where
  -- The loop, with `rounds` rounds left, at the value `i` of `try`.
  unfoldable pub deliver :
      (Iface → Bool) → (Iface → Iface) → CString → ℕ → ℕ → Database → Database × Bool
  deliver room fill name zero i db = (db, false)
  deliver room fill name (suc rounds) i db =
      let r : Database × Bool = try_msg room fill name (alloc i) db in
      let rest = deliver room fill name rounds (i + 1) (others i r.0) in if r.1 then r else rest

  -- `WanMgr_IpcNewIpv4Msg` and `WanMgr_IpcNewIpv6Msg`.
  unfoldable pub ipc_new_ipv4_msg : Dhcpv4Msg → Database → Database × Bool
  unfolding deliver
  ipc_new_ipv4_msg msg db = deliver has_room4 (with_msg4 msg) msg.interface max_tries 0 db

  unfoldable pub ipc_new_ipv6_msg : Dhcpv6Msg → Database → Database × Bool
  unfolding deliver
  ipc_new_ipv6_msg msg db = deliver has_room6 (with_msg6 msg) msg.ifname max_tries 0 db
