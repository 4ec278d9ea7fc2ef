-- ===== src/Policy/PriorityOnBootup/Select.antt =====
-- Primary priority on bootup: the pass that makes the choice.
use rdk_wanmanager.Common.{ℕ, ◌<◌, ◌≡◌, refl, true, some, none, ◌∷◌, pos, minus_one, arith}
use rdk_wanmanager.Store.Defs.{load, store, iface_data_release}
use rdk_wanmanager.Store.Lock.{IsWellFormed, held-IsWellFormed, get_iface_data_locked_pos}
use rdk_wanmanager.Select.Defs.{priority_select}
use rdk_wanmanager.Select.Choice.{priority_select_db}
use rdk_wanmanager.Policy.Control.{
  PlatformStatus, platform_status, start_sm, iface_sm_init, World, Controller, Machine,
  set_active_link, release_active, leave,
}
use rdk_wanmanager.Policy.Write.{load-set_active_link}
use rdk_wanmanager.Policy.Enter.{enabled, held_world, enter_out}
use rdk_wanmanager.Policy.PriorityOnBootup.Defs.{
  SelState, selecting, selected_up, chosen, ppob_process, ppob_pass,
}

ppob_process_selects :
    (w : World) (c : Controller) (p : ℕ)
    → IsWellFormed w.db
    → c.active_data ≡ none
    → p < w.db.total
    → (let t = priority_select c.wan_enable w.db in chosen c.active_idx t.1 t.2 ≡ pos p)
    → let n = ppob_process selecting w c in
      (n.state ≡ selected_up)
      × (n.ctrl.active_idx ≡ pos p)
      × (n.world.db ≡ (set_active_link w p true).db)
      × (n.world.trace
          ≡ start_sm (some (iface_sm_init (load w.db p).iface_idx))
            ∷ platform_status PlatformStatus.connecting
            ∷ w.trace)
unfolding ppob_process leave release_active store iface_data_release
ppob_process_selects w c p v a h e =
    rw
      (
        e,
        priority_select_db c.wan_enable w.db v,
        get_iface_data_locked_pos w.db p v h,
        load-set_active_link (held_world w) p (held-IsWellFormed w.db v) true h,
        a,
      )
      (refl, refl, unfold load in refl, unfold load in refl)

-- With nothing selected yet, the pass of primary priority on bootup that finds a primary interface
-- `p`, or with no primary one a secondary one `p`, makes it the active one at once: it sets its flag
-- and nothing else in the table, starts one state machine, on `p`, and is in `selected_up`.
ppob_pass_selects :
    (m : Machine SelState) (p : ℕ)
    → IsWellFormed m.world.db
    → m.state ≡ selecting
    → m.ctrl.active_idx ≡ minus_one
    → p < m.world.db.total
    → (let t = priority_select (enabled m.world m.ctrl) m.world.db in
        chosen m.ctrl.active_idx t.1 t.2 ≡ pos p)
    → let n = ppob_pass m in
      (n.state ≡ selected_up)
      × (n.ctrl.active_idx ≡ pos p)
      × (n.world.db ≡ (set_active_link m.world p true).db)
      × (n.world.trace
          ≡ start_sm (some (iface_sm_init (load m.world.db p).iface_idx))
            ∷ platform_status PlatformStatus.connecting
            ∷ m.world.trace)
unfolding ppob_pass
ppob_pass_selects m p v s i h e =
    rw (s, enter_out m.world m.ctrl v (rw i (omega (arith, v.small))))
      (ppob_process_selects m.world
        (record m.ctrl { wan_enable = enabled m.world m.ctrl; active_data = none }) p v refl h e)
