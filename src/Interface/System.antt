-- ===== src/Interface/System.antt =====
-- The policy thread and the threads of the interfaces together, on one table. A pass of a thread is
-- one step, and the steps come in any order.
use rdk_wanmanager.Common.{inl, inr, refl, sym, ◌∙◌, Option, ℕ, ◌<◌, ◌≡◌, ◌≢◌, Bool, true, to_uint}
use rdk_wanmanager.Store.Defs.{Database, load}
use rdk_wanmanager.Store.Lock.{IsWellFormed}
use rdk_wanmanager.Policy.Control.{World, Machine, SmController}
use rdk_wanmanager.Policy.Priority.Defs.{PpState, pp_pass, pp_start}
use rdk_wanmanager.Policy.Priority.Steps.{
  IsSound, pp_start-IsSound, PpRun, PpRun-IsSound, here, passed, disturbed, at_most_one_active,
}
use rdk_wanmanager.Policy.Priority.Disturb.{FlagWrite, FlagWrite-IsDisturbance}
use rdk_wanmanager.DataModel.Setters.{Call, call_setter, call_setter-FlagWrite}
use rdk_wanmanager.Dml.{CString, Iface, Dhcpv4Msg, Dhcpv6Msg}
use rdk_wanmanager.Ipc.Slot.{has_room4, has_room6, with_msg4, with_msg6, try_msg}
use rdk_wanmanager.Ipc.Delivery.{Tried, try_msg-Tried}
use rdk_wanmanager.Interface.Outside.{Log, Env}
use rdk_wanmanager.Interface.Thread.{Thread, thread_start, thread_pass}
use rdk_wanmanager.Interface.Passes.{
  OwnWrite, thread_pass-OwnWrite, thread_start-OwnWrite, OwnWrite-FlagWrite,
}

abbrev pub on_table : Machine PpState → Database → Machine PpState
on_table n db = record n { world = record n.world { db = db } }

-- The runs of the process: a pass of the primary priority policy; the start of an interface thread, and
-- a pass of one, with whatever that thread has kept to itself and whatever the system answers it; a
-- setter of the data model through any handle; a round of the server that puts a DHCP message into an
-- interface; and a write by another thread to one interface, such as the refresh of its link.
pub data SystemRun (standby health_check : Bool) (m : Machine PpState)
    : Machine PpState → Type 0 where
  begins : SystemRun standby health_check m m
  policy_passes :
      {n : Machine PpState}
      → SystemRun standby health_check m n
      → SystemRun standby health_check m (pp_pass standby n)
  thread_starts :
      {n : Machine PpState} (c : SmController) (log : Log)
      → SystemRun standby health_check m n
      → SystemRun standby health_check m (on_table n (thread_start c log n.world.db).db)
  thread_passes :
      {n : Machine PpState} (env : Env) (t : Thread)
      → SystemRun standby health_check m n
      → SystemRun standby health_check m
          (on_table n (thread_pass env health_check (record t { db = n.world.db })).db)
  model_sets :
      {n : Machine PpState} (c : Call) (e : Option ℕ)
      → SystemRun standby health_check m n
      → SystemRun standby health_check m (on_table n (call_setter c e n.world.db))
  message4_comes :
      {n : Machine PpState} (alloc : Bool) (msg : Dhcpv4Msg)
      → SystemRun standby health_check m n
      → SystemRun standby health_check m
          (on_table n (try_msg has_room4 (with_msg4 msg) msg.interface alloc n.world.db).0)
  message6_comes :
      {n : Machine PpState} (alloc : Bool) (msg : Dhcpv6Msg)
      → SystemRun standby health_check m n
      → SystemRun standby health_check m
          (on_table n (try_msg has_room6 (with_msg6 msg) msg.ifname alloc n.world.db).0)
  others_write :
      {n : Machine PpState} (db : Database)
      → SystemRun standby health_check m n
      → FlagWrite n.world.db db
      → SystemRun standby health_check m (on_table n db)

-- A round of the message server sets no flag.
put-FlagWrite :
    (room : Iface → Bool) (fill : Iface → Iface) (name : CString) (alloc : Bool) (db : Database)
    (r : Database × Bool)
    → ((f : Iface) → (fill f).wan.active_link ≡ f.wan.active_link)
    → Tried room fill name alloc db r
    → FlagWrite db r.0
put-FlagWrite room fill name alloc db r k (inl (f, e, w)) = inl e
put-FlagWrite room fill name alloc db r k (inr (s, (p, a, o, e))) =
    inr (p, a.below, (fill (load db p), e, λ b. sym (k (load db p)) ∙ b))

module _ {standby : Bool} {m : Machine PpState} (f : IsSound m) where
  writes :
      (n : Machine PpState) (db : Database)
      → PpRun standby m n
      → FlagWrite n.world.db db
      → PpRun standby m (on_table n db)
  writes n db r w =
      disturbed db r (FlagWrite-IsDisturbance n.world.db (PpRun-IsSound f r).well_formed db w)

  writes_own :
      (n : Machine PpState) (p : ℕ) (db : Database)
      → PpRun standby m n
      → OwnWrite n.world.db p db
      → PpRun standby m (on_table n db)
  writes_own n p db r w = writes n db r (OwnWrite-FlagWrite n.world.db p db w)

  -- A run of the process is a run of the policy with changes by others that it bears.
  pub SystemRun-PpRun :
      {health_check : Bool} {n : Machine PpState}
      → SystemRun standby health_check m n
      → PpRun standby m n
  SystemRun-PpRun begins = here
  SystemRun-PpRun (policy_passes r) = passed (SystemRun-PpRun r)
  SystemRun-PpRun (thread_starts {n = n} c log r) =
      let q = SystemRun-PpRun r in
      writes_own n (to_uint c.interface_idx) _ q
        (thread_start-OwnWrite c log n.world.db (PpRun-IsSound f q).well_formed)
  SystemRun-PpRun (thread_passes {n = n} env t r) =
      let q = SystemRun-PpRun r in
      writes_own n (to_uint t.ctrl.interface_idx) _ q
        (thread_pass-OwnWrite env _ (record t { db = n.world.db }) (PpRun-IsSound f q).well_formed)
  SystemRun-PpRun (model_sets {n = n} c e r) =
      let q = SystemRun-PpRun r in
      writes n _ q (call_setter-FlagWrite n.world.db (PpRun-IsSound f q).well_formed c e)
  SystemRun-PpRun (message4_comes {n = n} alloc msg r) =
      let q = SystemRun-PpRun r in
      let v = (PpRun-IsSound f q).well_formed in
      writes n _ q (
        put-FlagWrite has_room4 (with_msg4 msg) msg.interface alloc n.world.db _ (λ f. refl)
          (try_msg-Tried has_room4 (with_msg4 msg) msg.interface n.world.db alloc v))
  SystemRun-PpRun (message6_comes {n = n} alloc msg r) =
      let q = SystemRun-PpRun r in
      let v = (PpRun-IsSound f q).well_formed in
      writes n _ q (
        put-FlagWrite has_room6 (with_msg6 msg) msg.ifname alloc n.world.db _ (λ f. refl)
          (try_msg-Tried has_room6 (with_msg6 msg) msg.ifname n.world.db alloc v))
  SystemRun-PpRun (others_write {n = n} db r w) = writes n db (SystemRun-PpRun r) w

-- At most one interface is the active link in the whole process: from a well-formed table with no
-- active link, however the passes of the primary priority policy, the starts and the passes of the
-- interface threads, the setters of the data model, the arrivals of DHCP messages and the writes of
-- other threads interleave, and whatever the system answers, two interfaces that both have `Wan.ActiveLink` are the same one. Left
-- out are a setter call and a write by another thread that set the flag themselves.
pub one_active_link :
    {standby health_check : Bool} (w : World) {m : Machine PpState} (i j : ℕ)
    → IsWellFormed w.db
    → ((k : ℕ) → k < w.db.total → (load w.db k).wan.active_link ≢ true)
    → SystemRun standby health_check (pp_start w) m
    → i < m.world.db.total
    → j < m.world.db.total
    → (load m.world.db i).wan.active_link ≡ true
    → (load m.world.db j).wan.active_link ≡ true
    → i ≡ j
one_active_link w i j v a r h k e d =
    at_most_one_active w i j v a (SystemRun-PpRun (pp_start-IsSound w v a) r) h k e d
