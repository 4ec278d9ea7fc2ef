-- ===== src/Policy/Priority/Sound.antt =====
-- Primary priority: a pass keeps the machine sound, and at most one interface has the flag.
use rdk_wanmanager.Common.{
  ℕ, zero, suc, ◌+◌, ◌≤◌, ◌≡◌, refl, subst, sym, ◌≢◌, Bool, true, false, Option, none, some, ℤ,
  arith, not, if◌then◌else◌,
}
use rdk_wanmanager.Store.Defs.{
  Database, get_iface_ctrl_locked, iface_ctrl_release, iface_data_release,
}
use rdk_wanmanager.Store.Lock.{IsWellFormed}
use rdk_wanmanager.Policy.Control.{World, Controller, Outcome}
use rdk_wanmanager.Policy.Notions.{InRange}
use rdk_wanmanager.Policy.Priority.Defs.{
  PpState, interface_down, primary_wan_active, secondary_wan_active, failure,
  primary_wan_active_secondary_wan_up, stay, wan_down_select, primary_active_select,
  secondary_active_select, both_select, pp_state_down, pp_state_primary, pp_state_secondary,
  pp_state_both, pp_outcome, check_all_ifaces_down, check_all_down_of, all_down_loop,
  all_down_entry,
}
use rdk_wanmanager.Store.Lock.{get_iface_data_locked_in}
use rdk_wanmanager.Select.Defs.{priority_select}
use rdk_wanmanager.Select.Choice.{priority_select_db}
use rdk_wanmanager.Policy.Notions.{priority_select-InRange}
use rdk_wanmanager.Policy.Priority.Links.{
  Good, secondary_selected-Good, primary_deselected-Good, secondary_deselected-Good, stay-Good,
}
use rdk_wanmanager.Policy.Priority.States.{
  Good-if, wan_down-Good, primary_active-Good, secondary_active-Good, both-Good,
}

all_down_loop-db :
    (db : Database) (rounds i : ℕ) (b : Bool)
    → IsWellFormed db
    → i + rounds ≤ db.total
    → (all_down_loop rounds i (db, b)).0 ≡ db
unfolding all_down_loop all_down_entry iface_data_release
all_down_loop-db db zero i b v h = refl
all_down_loop-db db (suc rounds) i b v h =
    rw (get_iface_data_locked_in db i v (omega arith), all_down_loop)
      (all_down_loop-db db rounds (i + 1) _ v (omega arith))

check_all_ifaces_down-db : (db : Database) → IsWellFormed db → (check_all_ifaces_down db).0 ≡ db
unfolding check_all_ifaces_down check_all_down_of get_iface_ctrl_locked iface_ctrl_release
check_all_ifaces_down-db db v = ground (arith, all_down_loop-db db db.total 0 true v)

module _ (w : World) (c : Controller) (v : IsWellFormed w.db)
    (r : InRange w.db.total c.secondary_idx) where
  by_select :
      (f : Database × ℤ × ℤ → Outcome PpState)
      → ((P S : ℤ)
          → InRange w.db.total P
          → InRange w.db.total S
          → Good w c.active_data c.active_idx (f (w.db, P, S)))
      → Good w c.active_data c.active_idx (f (priority_select c.wan_enable w.db))
  by_select f g =
      let t = priority_select c.wan_enable w.db in
      let (p, s) = priority_select-InRange c.wan_enable w.db v in
      subst (λ x. Good w c.active_data c.active_idx (f (x, t.1, t.2)))
        (sym (priority_select_db c.wan_enable w.db v)) (g t.1 t.2 p s)

  select_down-Good :
      (standby : Bool)
      → Good w c.active_data c.active_idx
          (wan_down_select standby w c (priority_select c.wan_enable w.db))
  select_down-Good standby = by_select (wan_down_select standby w c) (wan_down-Good w c v r standby)

  all_down-Good : Good w c.active_data c.active_idx (pp_state_down false w c)
  unfolding pp_state_down
  all_down-Good =
      let t = check_all_ifaces_down w.db in
      subst
        (λ x. Good w c.active_data c.active_idx (
          if not t.1
          then stay (record w { db = x }) c interface_down
          else wan_down_select false (record w { db = x }) c (priority_select c.wan_enable x)))
        (sym (check_all_ifaces_down-db w.db v))
        (Good-if (not t.1)
          (stay-Good w c c.active_idx v interface_down c.secondary_idx (ground arith) refl r)
          (select_down-Good false))

  down-Good : (standby : Bool) → Good w c.active_data c.active_idx (pp_state_down standby w c)
  unfolding pp_state_down
  down-Good true = select_down-Good true
  down-Good false = all_down-Good

module _ (w : World) (c : Controller) (v : IsWellFormed w.db)
    (r : InRange w.db.total c.secondary_idx) where
  primary-Good :
      (standby : Bool) (a : Option ℕ)
      → let c' : Controller = record c { active_data = a } in
        Good w a c.active_idx (pp_state_primary standby w c' a)
  unfolding pp_state_primary
  primary-Good standby none =
      stay-Good w (record c { active_data = none }) c.active_idx v interface_down c.secondary_idx
        (ground arith) refl r
  primary-Good standby (some a) =
      let c' : Controller = record c { active_data = some a } in
      Good-if _ (primary_deselected-Good w c' c.active_idx v a refl r) (
        by_select w c' v r (primary_active_select standby w c')
          (λ P S p s. primary_active-Good w c' v r standby a P S refl s))

  secondary-Good :
      (standby : Bool) (a : Option ℕ)
      → let c' : Controller = record c { active_data = a } in
        Good w a c.active_idx (pp_state_secondary standby w c' a)
  unfolding pp_state_secondary
  secondary-Good standby none =
      stay-Good w (record c { active_data = none }) c.active_idx v interface_down c.secondary_idx
        (ground arith) refl r
  secondary-Good standby (some a) =
      let c' : Controller = record c { active_data = some a } in
      Good-if _ (secondary_deselected-Good w c' c.active_idx v) (
        by_select w c' v r (secondary_active_select standby w c')
          (λ P S p s. secondary_active-Good w c' v r standby P S p))

  both_up-Good :
      (a : Option ℕ)
      → let c' : Controller = record c { active_data = a } in
        Good w a c.active_idx (pp_state_both w c' a)
  unfolding pp_state_both
  both_up-Good none =
      stay-Good w (record c { active_data = none }) c.active_idx v interface_down c.secondary_idx
        (ground arith) refl r
  both_up-Good (some a) =
      let c' : Controller = record c { active_data = some a } in
      Good-if _ (secondary_selected-Good w c' c.active_idx v r)
        (by_select w c' v r (both_select w c') (λ P S p s. both-Good w c v r a P S s))

  pub outcome-Good :
      (standby : Bool) (s : PpState) (a : Option ℕ)
      → s ≢ failure
      → Good w a c.active_idx (pp_outcome standby s w (record c { active_data = a }))
  unfolding pp_outcome
  outcome-Good standby interface_down a h = down-Good w (record c { active_data = a }) v r standby
  outcome-Good standby primary_wan_active a h = primary-Good standby a
  outcome-Good standby secondary_wan_active a h = secondary-Good standby a
  outcome-Good standby primary_wan_active_secondary_wan_up a h = both_up-Good a
  outcome-Good standby failure a h = absurd (h refl)
