-- ===== src/Interface/Passes.antt =====
-- A pass of the thread of an interface, and its start, on the table of all interfaces.
use rdk_wanmanager.Common.{
  ℕ, ◌<◌, ◌≤◌, ◌≡◌, ◌≢◌, refl, ◌⊎◌, inl, inr, Bool, none, some, if◌then◌else◌, to_uint, arith, ap,
  ◌∙◌,
}
use rdk_wanmanager.Dml.{Iface}
use rdk_wanmanager.Store.Defs.{
  Database, load, store, get_config_data_locked, config_data_release, iface_data_release,
}
use rdk_wanmanager.Store.Lock.{
  IsWellFormed, held, get_iface_data_locked_in, get_iface_data_locked_out,
}
use rdk_wanmanager.Store.Pointer.{load-store_self, load-store_ne}
use rdk_wanmanager.Policy.Control.{SmController}
use rdk_wanmanager.Policy.Priority.Disturb.{FlagWrite}
use rdk_wanmanager.Interface.Outside.{Log, Env}
use rdk_wanmanager.Interface.Status.{Held}
use rdk_wanmanager.Interface.Transitions.{failure, Outcome, wan_transition_start}
use rdk_wanmanager.Interface.States.{wan_process, keeps_running}
use rdk_wanmanager.Interface.Frame.{
  LeavesSelection, LeavesSelection-trans, wan_process-LeavesSelection, start-LeavesSelection,
}
use rdk_wanmanager.Interface.Thread.{
  Thread, view, settle, thread_start, start_at, read_wan_enable, handle_ipc_msg, process_at,
  thread_pass,
}
use rdk_wanmanager.Dhcp.Event4.{handle_dhcpv4_event_data}
use rdk_wanmanager.Dhcp.Event6.{handle_dhcpv6_event_data}
use rdk_wanmanager.Dhcp.Frame.{handle_events-Apart, Apart-selection}

-- The table `db'` is `db`, but for the entry at `p`, which keeps all that the policies select by and
-- does not become the active link.
abbrev pub OwnWrite : Database → ℕ → Database → Type 0
OwnWrite db p db' =
    (db' ≡ db)
    ⊎ ((p < db.total) × ((f : Iface) × (db' ≡ store db p f) × LeavesSelection (load db p) f))

-- The value of `WanEnable` in a pass.
abbrev pub enabled : SmController → Database → Bool
enabled c db = if db.config_mutex.is_usable then db.config.enable else c.wan_enable

module _ (env : Env) (health_check : Bool) where
  handle_ipc_msg-LeavesSelection :
      (h : Held) → LeavesSelection h.iface (handle_ipc_msg env health_check h).iface
  unfolding handle_ipc_msg
  handle_ipc_msg-LeavesSelection h =
      let h1 : Held = handle_dhcpv4_event_data env h in
      let h2 : Held = handle_dhcpv6_event_data env h1 in
      LeavesSelection-trans h.iface h1.iface h2.iface
        (Apart-selection h.iface h1.iface (handle_events-Apart env h).0)
        (Apart-selection h1.iface h2.iface (handle_events-Apart env h1).1)

read_wan_enable_lem :
    (c : SmController) (db : Database)
    → read_wan_enable c db (get_config_data_locked db)
      ≡ (db, record c { wan_enable = enabled c db })
unfolding read_wan_enable get_config_data_locked config_data_release
read_wan_enable_lem c db = ground arith

-- What the messages leave of the interface and of the calls, at the head of the `switch`.
abbrev pub received : Env → Bool → Thread → Held
received env health_check t =
    handle_ipc_msg env health_check
      (record { iface = load t.db (to_uint t.ctrl.interface_idx); log = t.log })

-- What the `switch` of a pass leaves, where the interface is there.
abbrev pub switched : Env → Bool → Thread → Outcome
switched env health_check t =
    wan_process env health_check t.state
      (view (record t.ctrl { wan_enable = enabled t.ctrl t.db }) (received env health_check t))

below_or_above : (n i : ℕ) → (i < n) ⊎ (n ≤ i)
below_or_above n i = omega arith

module _ (env : Env) (health_check : Bool) (t : Thread) (v : IsWellFormed t.db) where
  -- The interface is there.
  pub thread_pass_in :
      to_uint t.ctrl.interface_idx < t.db.total
      → thread_pass env health_check t ≡ (
          settle
            (held t.db)
            (record t.ctrl {
              wan_enable = enabled t.ctrl t.db;
              iface_data = some (to_uint t.ctrl.interface_idx);
            })
            (to_uint t.ctrl.interface_idx)
            (keeps_running t.state)
            (switched env health_check t))
  unfolding thread_pass read_wan_enable process_at get_config_data_locked config_data_release load
  thread_pass_in h =
      rw (read_wan_enable_lem t.ctrl t.db)
        (rw (get_iface_data_locked_in t.db (to_uint t.ctrl.interface_idx) v h) refl)

  -- It is not.
  pub thread_pass_out :
      t.db.total ≤ to_uint t.ctrl.interface_idx
      → thread_pass env health_check t ≡ record {
        db = t.db;
        ctrl = record t.ctrl { wan_enable = enabled t.ctrl t.db; iface_data = none };
        log = t.log;
        state = failure;
        running = keeps_running t.state;
      }
  unfolding thread_pass read_wan_enable process_at get_config_data_locked config_data_release
  thread_pass_out h =
      rw (read_wan_enable_lem t.ctrl t.db)
        (rw (get_iface_data_locked_out t.db (to_uint t.ctrl.interface_idx) v h) refl)

  -- What such a pass leaves: the interface and the state of the `switch`.
  pub thread_pass_switch :
      to_uint t.ctrl.interface_idx < t.db.total
      → let n = thread_pass env health_check t in
        let o = switched env health_check t in
        (n.state ≡ o.state) × (load n.db (to_uint t.ctrl.interface_idx) ≡ o.sm.iface)
  unfolding iface_data_release store load
  thread_pass_switch h =
      let o : Outcome = switched env health_check t in
      rw (thread_pass_in h)
        (refl, load-store_self t.db (to_uint t.ctrl.interface_idx) o.sm.iface v h)

  pass_in :
      to_uint t.ctrl.interface_idx < t.db.total
      → OwnWrite t.db (to_uint t.ctrl.interface_idx) (thread_pass env health_check t).db
  unfolding iface_data_release store
  pass_in h =
      let h' : Held = received env health_check t in
      let o : Outcome = switched env health_check t in
      rw (thread_pass_in h) (
        inr (
          h,
          (
            o.sm.iface,
            refl,
            LeavesSelection-trans (load t.db (to_uint t.ctrl.interface_idx)) h'.iface o.sm.iface
                (handle_ipc_msg-LeavesSelection env health_check _)
                (wan_process-LeavesSelection env health_check t.state _),
          ),
        ))

  pass_out :
      t.db.total ≤ to_uint t.ctrl.interface_idx
      → OwnWrite t.db (to_uint t.ctrl.interface_idx) (thread_pass env health_check t).db
  pass_out h = rw (thread_pass_out h) (inl refl)

  -- A pass of the thread of an interface leaves the database as it was, both mutexes included, but
  -- for its own interface; of that it keeps all that the policies select by, and it does not set
  -- `Wan.ActiveLink`.
  pub thread_pass-OwnWrite :
      OwnWrite t.db (to_uint t.ctrl.interface_idx) (thread_pass env health_check t).db
  thread_pass-OwnWrite = elim (below_or_above t.db.total (to_uint t.ctrl.interface_idx)) [
    | inl h ↦ pass_in h
    | inr h ↦ pass_out h
  ]

module _ (c : SmController) (log : Log) (db : Database) (v : IsWellFormed db) where
  start_in :
      to_uint c.interface_idx < db.total
      → OwnWrite db (to_uint c.interface_idx) (thread_start c log db).db
  unfolding thread_start start_at iface_data_release store load
  start_in h = rw (get_iface_data_locked_in db (to_uint c.interface_idx) v h) (
      inr (
        h,
        (
          (wan_transition_start
              (view c (record { iface = load db (to_uint c.interface_idx); log = log }))).sm.iface,
          refl,
          start-LeavesSelection _,
        ),
      ))

  start_out :
      db.total ≤ to_uint c.interface_idx
      → OwnWrite db (to_uint c.interface_idx) (thread_start c log db).db
  unfolding thread_start start_at
  start_out h = rw (get_iface_data_locked_out db (to_uint c.interface_idx) v h) (inl refl)

  -- The start of the thread has the same frame as a pass.
  pub thread_start-OwnWrite : OwnWrite db (to_uint c.interface_idx) (thread_start c log db).db
  thread_start-OwnWrite = elim (below_or_above db.total (to_uint c.interface_idx)) [
    | inl h ↦ start_in h
    | inr h ↦ start_out h
  ]

-- Seen from the policy, it is a write that sets no flag.
pub OwnWrite-FlagWrite :
    (db : Database) (p : ℕ) (db' : Database) → OwnWrite db p db' → FlagWrite db db'
OwnWrite-FlagWrite db p db' (inl e) = inl e
OwnWrite-FlagWrite db p db' (inr (h, (f, e, l))) = inr (p, h, (f, e, l.1))

-- Every other interface is as it was.
pub OwnWrite-load :
    (db : Database) (p : ℕ) (db' : Database) (j : ℕ)
    → OwnWrite db p db'
    → p ≢ j
    → load db' j ≡ load db j
OwnWrite-load db p db' j (inl e) n = ap (λ d. load d j) e
OwnWrite-load db p db' j (inr (h, (f, e, l))) n = ap (λ d. load d j) e ∙ load-store_ne db p j f n
