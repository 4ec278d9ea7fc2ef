-- ===== src/Interface/Thread.antt =====
-- The thread of an interface, `WanMgr_InterfaceSMThread` of
-- source/WanManager/wanmgr_interface_sm.c. A pass of its loop is one step; the other threads act
-- between the passes.
use rdk_wanmanager.Common.{ℕ, Bool, true, false, Option, none, some, to_uint}
use rdk_wanmanager.Store.Defs.{
  Database, load, store, get_config_data_locked, config_data_release, get_iface_data_locked,
  iface_data_release,
}
use rdk_wanmanager.Policy.Control.{SmController}
use rdk_wanmanager.Interface.Outside.{Log, Env}
use rdk_wanmanager.Interface.Status.{Held}
use rdk_wanmanager.Interface.Transitions.{
  WanState, exit, failure, Sm, Outcome, wan_transition_start,
}
use rdk_wanmanager.Interface.States.{wan_process, keeps_running}
use rdk_wanmanager.Dhcp.Event4.{handle_dhcpv4_event_data}
use rdk_wanmanager.Dhcp.Event6.{handle_dhcpv6_event_data}

pub record Thread : Type 0 where
  pub db : Database
  pub ctrl : SmController
  pub log : Log
  pub state : WanState
  pub running : Bool

-- The state machine's view of the interface.
abbrev pub view : SmController → Held → Sm
view c h = record { wan_enable = c.wan_enable; ihc_pid = c.ihc_pid; iface = h.iface; log = h.log }

-- What a pass leaves, with the interface at `p` written and the table released.
abbrev pub settle : Database → SmController → ℕ → Bool → Outcome → Thread
settle db c p running o = record {
  db = iface_data_release (store db p o.sm.iface);
  ctrl = record c { ihc_pid = o.sm.ihc_pid };
  log = o.sm.log;
  state = o.state;
  running = running;
}

-- "Transition Start"; without the interface the loop is not entered.
unfoldable pub start_at : SmController → Log → Database × Option ℕ → Thread
start_at c log (db, none) = record { db = db; ctrl = c; log = log; state = exit; running = false }
start_at c log (db, some p) =
    let o : Outcome = wan_transition_start (view c (record { iface = load db p; log = log })) in
    settle db (record c { iface_data = some p }) p true o

unfoldable pub thread_start : SmController → Log → Database → Thread
unfolding start_at
thread_start c log db = start_at c log (get_iface_data_locked db (to_uint c.interface_idx))

-- "Update Wan config".
unfoldable pub read_wan_enable : SmController → Database → Option Database → Database × SmController
read_wan_enable c db none = (db, c)
read_wan_enable c db (some held) =
    (config_data_release held, record c { wan_enable = held.config.enable })

module _ (env : Env) (health_check : Bool) where
  -- `WanMgr_IfaceIpcMsg_handle`.
  unfoldable pub handle_ipc_msg : Held → Held
  handle_ipc_msg h = handle_dhcpv6_event_data env (handle_dhcpv4_event_data env h)

  -- "process state": without the interface every state fails.
  unfoldable pub process_at : SmController → Log → WanState → Database × Option ℕ → Thread
  unfolding handle_ipc_msg
  process_at c log s (db, none) = record {
    db = db;
    ctrl = record c { iface_data = none };
    log = log;
    state = failure;
    running = keeps_running s;
  }
  process_at c log s (db, some p) =
      let h : Held = handle_ipc_msg (record { iface = load db p; log = log }) in
      settle db (record c { iface_data = some p }) p (keeps_running s)
        (wan_process env health_check s (view c h))

  -- One pass of the loop after a wait that no signal interrupted;
  -- `WanMgr_InterfaceSMThread_Finalise`, which follows the loop, does nothing.
  unfoldable pub thread_pass : Thread → Thread
  unfolding process_at read_wan_enable
  thread_pass t =
      let (db, c) = read_wan_enable t.ctrl t.db (get_config_data_locked t.db) in
      process_at c t.log t.state (get_iface_data_locked db (to_uint c.interface_idx))
