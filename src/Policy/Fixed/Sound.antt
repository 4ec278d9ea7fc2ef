-- ===== src/Policy/Fixed/Sound.antt =====
-- Fixed mode never ends, keeps the table well-formed, and releases every lock that it takes.
use rdk_wanmanager.Common.{ℕ, ◌<◌, ◌≡◌, refl, ◌⊎◌, inl, inr, ◌≢◌, true, none, some, to_uint, arith}
use native.Mathlib.Decide.{dec_lt}
use rdk_wanmanager.Dml.{WanStatus}
use rdk_wanmanager.Store.Defs.{Database, load, store, iface_data_release}
use rdk_wanmanager.Store.Lock.{IsWellFormed, held, held-IsWellFormed}
use rdk_wanmanager.Policy.Notions.{InRange, Keeps, Selected-InRange}
use rdk_wanmanager.Policy.Write.{set_active_link-IsWellFormed, set_status-IsWellFormed}
use rdk_wanmanager.Select.Defs.{fixed_select}
use rdk_wanmanager.Select.Choice.{fixed_select_db, fixed_select-held}
use rdk_wanmanager.Policy.Control.{
  set_active_link, set_status, World, Controller, Machine, release_active, leave,
}
use rdk_wanmanager.Policy.Enter.{held_world, enter_in, enter_out}
use rdk_wanmanager.Policy.Fixed.Defs.{State, fixing, fixed_down, fixed_up, failure, process, pass}

pub record IsSound (m : Machine State) : Type 0 where
  pub well_formed : IsWellFormed m.world.db
  pub in_range : InRange m.world.db.total m.ctrl.active_idx
  pub alive : m.state ≢ failure
  pub is_running : m.running ≡ true

-- The table after `Transition_WanInterfaceFixed` and after `Transition_FixedInterfaceChanged`.
abbrev pub fixed_db : World → ℕ → Database
fixed_db w p = (set_active_link w p true).db

abbrev pub changed_db : World → ℕ → Database
changed_db w p = (set_active_link (set_status w p WanStatus.disabled) p true).db

module _ (w : World) (c : Controller) (v : IsWellFormed w.db) where
  process_in-db :
      (s : State) (p : ℕ)
      → s ≢ failure
      → c.active_data ≡ some p
      → let db = (process s (held_world w) c).world.db in
        (db ≡ w.db) ⊎ ((db ≡ fixed_db w p) ⊎ (db ≡ changed_db w p))
  unfolding process leave release_active iface_data_release store load
  process_in-db fixing p a e =
      ground (arith, fixed_select_db (held w.db) (held-IsWellFormed w.db v))
  process_in-db fixed_down p a e =
      ground (arith, fixed_select_db (held w.db) (held-IsWellFormed w.db v))
  process_in-db fixed_up p a e =
      ground (arith, fixed_select_db (held w.db) (held-IsWellFormed w.db v))
  process_in-db failure p a e = absurd (a refl)

  process_out-db : (s : State) → c.active_data ≡ none → (process s w c).world.db ≡ w.db
  unfolding process leave release_active
  process_out-db fixing e = ground (arith, fixed_select_db w.db v)
  process_out-db fixed_down e = ground (arith, fixed_select_db w.db v)
  process_out-db fixed_up e = ground (arith, fixed_select_db w.db v)
  process_out-db failure e = ground arith

  process_in-idx :
      (s : State) (p : ℕ)
      → c.active_data ≡ some p
      → ((process s (held_world w) c).ctrl.active_idx ≡ c.active_idx)
        ⊎ ((process s (held_world w) c).ctrl.active_idx ≡ (fixed_select w.db).1)
  unfolding process leave
  process_in-idx fixing p e = ground (arith, fixed_select-held w.db v)
  process_in-idx fixed_down p e = ground arith
  process_in-idx fixed_up p e = ground arith
  process_in-idx failure p e = ground arith

  process_out-idx :
      (s : State)
      → c.active_data ≡ none
      → ((process s w c).ctrl.active_idx ≡ c.active_idx)
        ⊎ ((process s w c).ctrl.active_idx ≡ (fixed_select w.db).1)
  unfolding process leave
  process_out-idx fixing e = ground arith
  process_out-idx fixed_down e = ground arith
  process_out-idx fixed_up e = ground arith
  process_out-idx failure e = ground arith

  process_alive :
      (s : State) (w' : World)
      → s ≢ failure
      → ((process s w' c).state ≢ failure) × ((process s w' c).running ≡ true)
  unfolding process leave
  process_alive fixing w' a = ground arith
  process_alive fixed_down w' a = ground arith
  process_alive fixed_up w' a = ground arith
  process_alive failure w' a = absurd (a refl)

module _ (m : Machine State) (v : IsWellFormed m.world.db) where
  -- All that a pass does to the table.
  pub pass-db :
      m.state ≢ failure
      → let p = to_uint m.ctrl.active_idx in
        let db = (pass m).world.db in
        (db ≡ m.world.db)
        ⊎ ((p < m.world.db.total) × ((db ≡ fixed_db m.world p) ⊎ (db ≡ changed_db m.world p)))
  unfolding pass
  pass-db a = elim (dec_lt (to_uint m.ctrl.active_idx) m.world.db.total) [
    | yes h ↦
        rw (enter_in m.world m.ctrl v h)
          (elim (process_in-db m.world _ v m.state (to_uint m.ctrl.active_idx) a refl) [
            | inl e ↦ inl e
            | inr e ↦ inr (h, e)
          ])
    | no h ↦
        rw (enter_out m.world m.ctrl v (omega arith))
          (inl (process_out-db m.world _ v m.state refl))
  ]

  pass-idx :
      ((pass m).ctrl.active_idx ≡ m.ctrl.active_idx)
      ⊎ ((pass m).ctrl.active_idx ≡ (fixed_select m.world.db).1)
  unfolding pass
  pass-idx = elim (dec_lt (to_uint m.ctrl.active_idx) m.world.db.total) [
    | yes h ↦
        rw (enter_in m.world m.ctrl v h)
          (process_in-idx m.world _ v m.state (to_uint m.ctrl.active_idx) refl)
    | no h ↦
        rw (enter_out m.world m.ctrl v (omega arith)) (process_out-idx m.world _ v m.state refl)
  ]

  pass-IsWellFormed : m.state ≢ failure → IsWellFormed (pass m).world.db
  pass-IsWellFormed a = elim (pass-db a) [
    | inl e ↦ rw e v
    | inr (_, inl e) ↦ rw e (set_active_link-IsWellFormed m.world _ v true)
    | inr (_, inr e) ↦ rw e (
        set_active_link-IsWellFormed (set_status m.world _ WanStatus.disabled) _
          (set_status-IsWellFormed m.world _ v WanStatus.disabled) true)
  ]

  pass-Keeps : m.state ≢ failure → Keeps m.world.db (pass m).world.db
  unfolding store
  pass-Keeps a = elim (pass-db a) [
    | inl e ↦ rw e (ground arith)
    | inr (_, inl e) ↦ rw e (ground arith)
    | inr (_, inr e) ↦ rw e (ground arith)
  ]

  pass_alive : m.state ≢ failure → ((pass m).state ≢ failure) × ((pass m).running ≡ true)
  unfolding pass
  pass_alive a = process_alive m.world _ v m.state _ a

-- A pass of the fixed mode loop takes a sound machine to a sound one, so the loop goes on; it gives
-- back every lock that it takes, and leaves the configuration and the number of interfaces alone.
pub pass-IsSound :
    (m : Machine State) → IsSound m → IsSound (pass m) × Keeps m.world.db (pass m).world.db
pass-IsSound m s = (
  record {
    well_formed = pass-IsWellFormed m s.well_formed s.alive;
    in_range = rw ((pass-Keeps m s.well_formed s.alive).total) (elim (pass-idx m s.well_formed) [
      | inl e ↦ rw e s.in_range
      | inr e ↦ rw e (Selected-InRange m.world.db s.well_formed)
    ]);
    alive = (pass_alive m s.well_formed s.alive).0;
    is_running = (pass_alive m s.well_formed s.alive).1;
  },
  pass-Keeps m s.well_formed s.alive,
)
