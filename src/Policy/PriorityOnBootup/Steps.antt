-- ===== src/Policy/PriorityOnBootup/Steps.antt =====
-- Primary priority on bootup: the choice is made once, and the first pass that makes it connects.
use rdk_wanmanager.Common.{ℕ, ◌<◌, ◌≡◌, ◌⊎◌, true, some, pos, to_uint, arith}
use rdk_wanmanager.Store.Defs.{Database, load, iface_data_release}
use rdk_wanmanager.Store.Lock.{IsWellFormed, held, held-IsWellFormed, get_iface_data_locked_in}
use rdk_wanmanager.Policy.Control.{World, Controller, Machine, release_active, leave}
use rdk_wanmanager.Policy.Enter.{entered, held_world, enter_in}
use rdk_wanmanager.Policy.PriorityOnBootup.Defs.{
  SelState, selected_down, selected_up, ppob_process, ppob_pass,
}

-- The interface `p` is selected, and the table has it.
pub record IsSelected (p : ℕ) (m : Machine SelState) : Type 0 where
  pub well_formed : IsWellFormed m.world.db
  pub in_range : p < m.world.db.total
  pub is_active : m.ctrl.active_idx ≡ pos p
  pub in_selected_state : (m.state ≡ selected_down) ⊎ (m.state ≡ selected_up)
  pub is_running : m.running ≡ true

ppob_process_selected :
    (w : World) (c : Controller) (s : SelState) (p : ℕ)
    → IsWellFormed w.db
    → p < w.db.total
    → to_uint c.active_idx ≡ p
    → (s ≡ selected_down) ⊎ (s ≡ selected_up)
    → c.active_data ≡ some p
    → let m = ppob_process s (held_world w) c in
      (m.world.db ≡ w.db)
      × (m.ctrl.active_idx ≡ c.active_idx)
      × ((m.state ≡ selected_down) ⊎ (m.state ≡ selected_up))
      × (m.running ≡ true)
unfolding ppob_process leave release_active iface_data_release load
ppob_process_selected w c s p v h i t e =
    ground (
      arith,
      get_iface_data_locked_in (held w.db) (to_uint c.active_idx) (held-IsWellFormed w.db v),
    )

-- A pass with a selected interface leaves the table and the choice alone, and takes the machine to
-- no failure.
pub ppob_pass-IsSelected :
    (p : ℕ) (m : Machine SelState)
    → IsSelected p m
    → IsSelected p (ppob_pass m) × ((ppob_pass m).world.db ≡ m.world.db)
unfolding ppob_pass
ppob_pass-IsSelected p m f =
    rw (enter_in m.world m.ctrl f.well_formed (rw f.is_active (omega (arith, f)))) (
      ground (
        arith,
        ppob_process_selected m.world (entered m.world m.ctrl (to_uint m.ctrl.active_idx)) m.state
            (to_uint m.ctrl.active_idx),
      ))

-- The passes of the loop, and between them anything that the other threads do to the table, except
-- for changing the number of the interfaces.
pub data Run (m : Machine SelState) : Machine SelState → Type 0 where
  here : Run m m
  passed : {n : Machine SelState} → Run m n → Run m (ppob_pass n)
  disturbed :
      {n : Machine SelState} (db : Database)
      → Run m n
      → IsWellFormed db
      → db.total ≡ n.world.db.total
      → Run m (record n { world = record n.world { db = db } })

-- Once interface `p` is selected, it stays the active interface, the machine stays in the two
-- selected states and never fails, however long it runs and whatever the other threads do to the
-- table between its passes, as long as they keep it well-formed and keep the number of interfaces.
pub Run-IsSelected : (p : ℕ) {m n : Machine SelState} → IsSelected p m → Run m n → IsSelected p n
Run-IsSelected p f here = f
Run-IsSelected p f (passed {n = n} r) = (ppob_pass-IsSelected p n (Run-IsSelected p f r)).0
Run-IsSelected p f (disturbed {n = n} db r v e) =
    let g : IsSelected p n = Run-IsSelected p f r in
    record {
      well_formed = v;
      in_range = omega (arith, g.in_range);
      is_active = g.is_active;
      in_selected_state = g.in_selected_state;
      is_running = g.is_running;
    }
