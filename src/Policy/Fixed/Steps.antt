-- ===== src/Policy/Fixed/Steps.antt =====
-- Fixed mode, pass by pass: what each state does, and when a state machine is started.
use native.Mathlib.Decide.{dec_lt}
use rdk_wanmanager.Common.{
  ℕ, suc, ◌≤◌, ◌<◌, ◌≡◌, refl, ◌⊎◌, inl, inr, none, some, pos, to_uint, ◌∷◌, arith,
}
use rdk_wanmanager.Store.Defs.{load, store, iface_data_release}
use rdk_wanmanager.Store.Lock.{IsWellFormed, held, held-IsWellFormed}
use rdk_wanmanager.Select.Defs.{fixed_select}
use rdk_wanmanager.Select.Choice.{fixed_select_db, fixed_select-held}
use rdk_wanmanager.Policy.Control.{
  PlatformStatus, platform_status, start_sm, iface_sm_init, World, Controller, Machine,
  release_active, leave,
}
use rdk_wanmanager.Policy.Enter.{enabled, held_world, enter_in, enter_out}
use rdk_wanmanager.Policy.Notions.{starts, IsReady}
use rdk_wanmanager.Policy.Fixed.Defs.{State, fixing, fixed_down, fixed_up, failure, process, pass}
use rdk_wanmanager.Policy.Fixed.Sound.{fixed_db}

process_in_starts :
    (w : World) (c : Controller) (p : ℕ) (s : State)
    → c.active_data ≡ some p
    → let t = (process s (held_world w) c).world.trace in
      (starts t ≡ starts w.trace)
      ⊎ ((s ≡ fixed_down) × IsReady c.wan_enable (load w.db p) × (starts t ≡ suc (starts w.trace)))
unfolding process leave release_active load
process_in_starts w c p fixing e = ground arith
process_in_starts w c p fixed_down e = ground arith
process_in_starts w c p fixed_up e = ground arith
process_in_starts w c p failure e = ground arith

process_out_starts :
    (w : World) (c : Controller) (s : State)
    → c.active_data ≡ none
    → starts (process s w c).world.trace ≡ starts w.trace
unfolding process leave release_active
process_out_starts w c fixing e = ground arith
process_out_starts w c fixed_down e = ground arith
process_out_starts w c fixed_up e = ground arith
process_out_starts w c failure e = ground arith

module _ (m : Machine State) (v : IsWellFormed m.world.db) where
  pub pass_out_fixing :
      m.state ≡ fixing
      → m.world.db.total ≤ to_uint m.ctrl.active_idx
      → ((pass m).world ≡ m.world)
        × ((pass m).state ≡ fixing)
        × ((pass m).ctrl.active_idx ≡ (fixed_select m.world.db).1)
  unfolding pass process leave release_active
  pass_out_fixing s h =
      rw (s, enter_out m.world m.ctrl v h) (ground (arith, fixed_select_db m.world.db v))

  pub pass_in_fixing :
      (p q : ℕ)
      → m.state ≡ fixing
      → to_uint m.ctrl.active_idx ≡ p
      → p < m.world.db.total
      → (fixed_select m.world.db).1 ≡ pos q
      → ((pass m).world ≡ record {
        db = fixed_db m.world p;
        trace = platform_status PlatformStatus.link_up ∷ m.world.trace;
      })
        × ((pass m).state ≡ fixed_down)
        × ((pass m).ctrl.active_idx ≡ pos q)
  unfolding pass process leave release_active load store iface_data_release
  pass_in_fixing p q s e h sel =
      rw (s, enter_in m.world m.ctrl v (omega arith))
        (ground (
          arith,
          fixed_select_db (held m.world.db) (held-IsWellFormed m.world.db v),
          fixed_select-held m.world.db v,
        ))

  -- In `fixed_down`, as soon as the interface is ready, a pass starts one state machine on it and
  -- goes to `fixed_up`, and leaves the table as it is.
  pub pass_connects :
      (p : ℕ)
      → m.state ≡ fixed_down
      → to_uint m.ctrl.active_idx ≡ p
      → p < m.world.db.total
      → IsReady (enabled m.world m.ctrl) (load m.world.db p)
      → ((pass m).world ≡ record {
        db = m.world.db;
        trace =
            start_sm (some (iface_sm_init (load m.world.db p).iface_idx))
            ∷ platform_status PlatformStatus.connecting
            ∷ m.world.trace;
      })
        × ((pass m).state ≡ fixed_up)
        × ((pass m).ctrl.active_idx ≡ m.ctrl.active_idx)
  unfolding pass process leave release_active iface_data_release load
  pass_connects p s e h r = rw (s, enter_in m.world m.ctrl v (omega arith)) (ground arith)

  -- A pass starts a state machine only from `fixed_down`, and only on a ready interface; otherwise it
  -- starts none.
  pass-starts :
      (starts (pass m).world.trace ≡ starts m.world.trace)
      ⊎ ((m.state ≡ fixed_down)
          × (to_uint m.ctrl.active_idx < m.world.db.total)
          × IsReady (enabled m.world m.ctrl) (load m.world.db (to_uint m.ctrl.active_idx))
          × (starts (pass m).world.trace ≡ suc (starts m.world.trace)))
  unfolding pass
  pass-starts = elim (dec_lt (to_uint m.ctrl.active_idx) m.world.db.total) [
    | yes h ↦
        rw (enter_in m.world m.ctrl v h)
          (elim (process_in_starts m.world _ (to_uint m.ctrl.active_idx) m.state refl) [
            | inl e ↦ inl e
            | inr (s, r, e) ↦ inr (s, h, r, e)
          ])
    | no h ↦
        rw (enter_out m.world m.ctrl v (omega arith))
          (inl (process_out_starts m.world _ m.state refl))
  ]
