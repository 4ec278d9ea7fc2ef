-- ===== src/Policy/FixedOnBootup/Steps.antt =====
-- Fixed mode on bootup: once an interface is fixed, it stays the active one, whatever the other
-- threads do to the table between the passes.
use rdk_wanmanager.Common.{ℕ, ◌<◌, ◌≡◌, ◌⊎◌, true, some, ◌∷◌, pos, to_uint, arith}
use rdk_wanmanager.Store.Defs.{Database, load, store, iface_data_release}
use rdk_wanmanager.Store.Lock.{IsWellFormed, held, held-IsWellFormed}
use rdk_wanmanager.Select.Choice.{fixed_select_db, fixed_select-held}
use rdk_wanmanager.Policy.Control.{
  PlatformStatus, platform_status, start_sm, iface_sm_init, World, Controller, Machine,
  set_active_link, release_active, leave,
}
use rdk_wanmanager.Policy.Enter.{enabled, entered, held_world, enter_in}
use rdk_wanmanager.Policy.Notions.{IsReady}
use rdk_wanmanager.Policy.FixedOnBootup.Defs.{
  BootState, fixing, fixed_down, fixed_up, boot_select, boot_process, boot_pass,
}

-- The interface `p` is fixed, and the table has it.
pub record IsFixed (p : ℕ) (m : Machine BootState) : Type 0 where
  pub well_formed : IsWellFormed m.world.db
  pub in_range : p < m.world.db.total
  pub is_active : m.ctrl.active_idx ≡ pos p
  pub in_fixed_state : (m.state ≡ fixed_down) ⊎ (m.state ≡ fixed_up)
  pub is_running : m.running ≡ true

boot_process_fixed :
    (w : World) (c : Controller) (s : BootState) (p : ℕ)
    → (s ≡ fixed_down) ⊎ (s ≡ fixed_up)
    → c.active_data ≡ some p
    → let m = boot_process s (held_world w) c in
      (m.world.db ≡ w.db)
      × (m.ctrl.active_idx ≡ c.active_idx)
      × ((m.state ≡ fixed_down) ⊎ (m.state ≡ fixed_up))
      × (m.running ≡ true)
unfolding boot_process leave release_active iface_data_release load
boot_process_fixed w c s p h e = ground arith

-- A pass with a fixed interface leaves the table and the choice alone.
pub boot_pass-IsFixed :
    (p : ℕ) (m : Machine BootState)
    → IsFixed p m
    → IsFixed p (boot_pass m) × ((boot_pass m).world.db ≡ m.world.db)
unfolding boot_pass
boot_pass-IsFixed p m f =
    rw (enter_in m.world m.ctrl f.well_formed (rw f.is_active (omega (arith, f)))) (
      ground (
        arith,
        boot_process_fixed m.world (entered m.world m.ctrl (to_uint m.ctrl.active_idx)) m.state
            (to_uint m.ctrl.active_idx),
      ))

-- The passes of the loop, and between them anything that the other threads do to the table, except
-- for changing the number of the interfaces.
pub data Run (m : Machine BootState) : Machine BootState → Type 0 where
  here : Run m m
  passed : {n : Machine BootState} → Run m n → Run m (boot_pass n)
  disturbed :
      {n : Machine BootState} (db : Database)
      → Run m n
      → IsWellFormed db
      → db.total ≡ n.world.db.total
      → Run m (record n { world = record n.world { db = db } })

-- Once interface `p` is fixed, it stays the active interface and the machine stays in the two fixed
-- states, however long it runs and whatever the other threads do to the table between its passes, as
-- long as they keep it well-formed and keep the number of interfaces: the choice is made once.
pub Run-IsFixed : (p : ℕ) {m n : Machine BootState} → IsFixed p m → Run m n → IsFixed p n
Run-IsFixed p f here = f
Run-IsFixed p f (passed {n = n} r) = (boot_pass-IsFixed p n (Run-IsFixed p f r)).0
Run-IsFixed p f (disturbed {n = n} db r v e) =
    let g : IsFixed p n = Run-IsFixed p f r in
    record {
      well_formed = v;
      in_range = omega (arith, g.in_range);
      is_active = g.is_active;
      in_fixed_state = g.in_fixed_state;
      is_running = g.is_running;
    }

module _ (m : Machine BootState) (v : IsWellFormed m.world.db) where
  -- In `fixing` with the index of an interface `p`, a pass sets the flag on `p` and fixes the index
  -- `q` that the selection gives now, which need not be `p`.
  boot_pass_fixing :
      (p q : ℕ)
      → m.state ≡ fixing
      → to_uint m.ctrl.active_idx ≡ p
      → p < m.world.db.total
      → (boot_select m.world.db).1 ≡ pos q
      → ((boot_pass m).world ≡ record {
        db = (set_active_link m.world p true).db;
        trace = platform_status PlatformStatus.link_up ∷ m.world.trace;
      })
        × ((boot_pass m).state ≡ fixed_down)
        × ((boot_pass m).ctrl.active_idx ≡ pos q)
  unfolding boot_pass boot_process leave release_active load store iface_data_release
  boot_pass_fixing p q s e h sel =
      rw (s, enter_in m.world m.ctrl v (omega arith))
        (ground (
          arith,
          fixed_select_db (held m.world.db) (held-IsWellFormed m.world.db v),
          fixed_select-held m.world.db v,
        ))

  -- With a fixed interface that is ready, a pass in `fixed_down` starts one state machine on it.
  boot_pass_connects :
      (p : ℕ)
      → m.state ≡ fixed_down
      → to_uint m.ctrl.active_idx ≡ p
      → p < m.world.db.total
      → IsReady (enabled m.world m.ctrl) (load m.world.db p)
      → ((boot_pass m).world.trace
          ≡ start_sm (some (iface_sm_init (load m.world.db p).iface_idx))
            ∷ platform_status PlatformStatus.connecting
            ∷ m.world.trace)
        × ((boot_pass m).state ≡ fixed_up)
  unfolding boot_pass boot_process leave release_active iface_data_release load
  boot_pass_connects p s e h r = rw (s, enter_in m.world m.ctrl v (omega arith)) (ground arith)
