-- ===== src/Policy/Fixed/Change.antt =====
-- Fixed mode and the flag `Wan.ActiveLink`: what a pass writes to the table, and what happens when
-- another interface is to be used.
use native.Mathlib.Decide.{ℕ_discrete}
use rdk_wanmanager.Common.{
  ℕ, ◌<◌, ◌≡◌, refl, sym, ◌⊎◌, inl, inr, ◌≢◌, true, ◌∷◌, some, ◌∙◌, pos, to_uint, arith,
}
use rdk_wanmanager.Dml.{WanStatus}
use rdk_wanmanager.Store.Defs.{load}
use rdk_wanmanager.Store.Lock.{IsWellFormed}
use rdk_wanmanager.Store.Pointer.{store_frame}
use rdk_wanmanager.Select.Defs.{fixed_select}
use rdk_wanmanager.Policy.Control.{
  PlatformStatus, platform_status, start_sm, iface_sm_init, World, Machine, with_active_link,
  with_status, set_status,
}
use rdk_wanmanager.Policy.Write.{
  set_active_link-IsWellFormed, set_status-IsWellFormed, load-set_active_link, load-set_status,
  load-set_active_link_ne, load-set_status_ne,
}
use rdk_wanmanager.Policy.Notions.{IsReady}
use rdk_wanmanager.Policy.Fixed.Defs.{State, fixing, fixed_down, fixed_up, failure, pass, start}
use rdk_wanmanager.Policy.Fixed.Sound.{fixed_db, changed_db, pass-db}
use rdk_wanmanager.Policy.Fixed.Steps.{pass_out_fixing, pass_in_fixing, pass_connects}

module _ (w : World) (p : ℕ) (v : IsWellFormed w.db) where
  load-fixed_db : p < w.db.total → load (fixed_db w p) p ≡ with_active_link (load w.db p) true
  load-fixed_db h = load-set_active_link w p v true h

  load-fixed_db_ne : (j : ℕ) → p ≢ j → load (fixed_db w p) j ≡ load w.db j
  load-fixed_db_ne j n = load-set_active_link_ne w p j true n

  load-changed_db :
      p < w.db.total
      → load (changed_db w p) p
        ≡ with_active_link (with_status (load w.db p) WanStatus.disabled) true
  load-changed_db h =
      rw
        (load-set_active_link (set_status w p WanStatus.disabled) p
          (set_status-IsWellFormed w p v WanStatus.disabled) true
          (omega (arith, (store_frame w.db p (with_status (load w.db p) WanStatus.disabled)).0)))
        (rw (load-set_status w p v WanStatus.disabled h))

  load-changed_db_ne : (j : ℕ) → p ≢ j → load (changed_db w p) j ≡ load w.db j
  load-changed_db_ne j n =
      rw (load-set_active_link_ne (set_status w p WanStatus.disabled) p j true n)
        (load-set_status_ne w p j WanStatus.disabled n)

-- What a pass does to the entry `j` of the table: nothing, unless `j` is the active interface; and
-- that one gets `ActiveLink` TRUE, and possibly the status DISABLED, and keeps all else.
pass_frame :
    (m : Machine State) (j : ℕ)
    → IsWellFormed m.world.db
    → m.state ≢ failure
    → let f = load m.world.db j in
      let f' = load (pass m).world.db j in
      (f' ≡ f)
      ⊎ ((j ≡ to_uint m.ctrl.active_idx)
          × ((f' ≡ with_active_link f true)
              ⊎ (f' ≡ with_active_link (with_status f WanStatus.disabled) true)))
pass_frame m j v a = elim (pass-db m v a) [
  | inl e ↦ rw e (inl refl)
  | inr (h, e) ↦ elim (ℕ_discrete (to_uint m.ctrl.active_idx) j) [
    | yes eq ↦ elim e [
      | inl e' ↦ inr (sym eq, inl (rw (← eq, e') (load-fixed_db m.world _ v h)))
      | inr e' ↦ inr (sym eq, inr (rw (← eq, e') (load-changed_db m.world _ v h)))
    ]
    | no ne ↦ elim e [
      | inl e' ↦ rw e' (inl (load-fixed_db_ne m.world _ v j ne))
      | inr e' ↦ rw e' (inl (load-changed_db_ne m.world _ v j ne))
    ]
  ]
]

-- The fixed mode never clears `ActiveLink`, on any interface.
pub pass_active_link_kept :
    (m : Machine State) (j : ℕ)
    → IsWellFormed m.world.db
    → m.state ≢ failure
    → (load m.world.db j).wan.active_link ≡ true
    → (load (pass m).world.db j).wan.active_link ≡ true
pass_active_link_kept m j v a h = elim (pass_frame m j v a) [
  | inl e ↦ rw e h
  | inr (_, inl e) ↦ rw e refl
  | inr (_, inr e) ↦ rw e refl
]

-- When the selection has moved from `p` to `q` by the time of a pass in `fixing`, the flag is set on
-- `p`, which is no longer wanted, and not on `q`; and the machine goes on to `fixed_down` for `q`.
pub pass_fixes_old_interface :
    (m : Machine State) (p q : ℕ)
    → IsWellFormed m.world.db
    → m.state ≡ fixing
    → to_uint m.ctrl.active_idx ≡ p
    → p < m.world.db.total
    → (fixed_select m.world.db).1 ≡ pos q
    → p ≢ q
    → ((load (pass m).world.db p).wan.active_link ≡ true)
      × (load (pass m).world.db q ≡ load m.world.db q)
      × ((pass m).state ≡ fixed_down)
      × ((pass m).ctrl.active_idx ≡ pos q)
pass_fixes_old_interface m p q v s e h sel n =
    let (w, s', i) = pass_in_fixing m v p q s e h sel in
    rw w (rw (load-fixed_db m.world p v h) refl, load-fixed_db_ne m.world p v q n, s', i)

two_passes_connect :
    (m : Machine State) (p : ℕ)
    → IsWellFormed m.world.db
    → m.state ≡ fixing
    → m.ctrl.active_idx ≡ pos p
    → m.world.db.config_mutex.is_usable ≡ true
    → p < m.world.db.total
    → (fixed_select m.world.db).1 ≡ pos p
    → IsReady m.world.db.config.enable (load m.world.db p)
    → ((pass (pass m)).world ≡ record {
      db = fixed_db m.world p;
      trace =
          start_sm (some (iface_sm_init (load m.world.db p).iface_idx))
          ∷ platform_status PlatformStatus.connecting
          ∷ platform_status PlatformStatus.link_up
          ∷ m.world.trace;
    })
      × ((pass (pass m)).state ≡ fixed_up)
      × ((pass (pass m)).ctrl.active_idx ≡ pos p)
two_passes_connect m p v s i u h sel r =
    let (w2, s2, i2) = pass_in_fixing m v p p s (rw i (omega (arith, v.small))) h sel in
    let frame = store_frame m.world.db p (with_active_link (load m.world.db p) true) in
    let v2 : IsWellFormed (pass m).world.db =
      rw w2 (set_active_link-IsWellFormed m.world p v true) in
    let (w3, s3, i3) =
      pass_connects (pass m) v2 p s2 (rw i2 (omega (arith, v.small))) (rw w2 (omega (arith, frame)))
        (rw w2 (ground (arith, frame, load-fixed_db m.world p v h))) in
    (rw (w3, w2) (rw (load-fixed_db m.world p v h)), s3, i3 ∙ i2)

-- On a table that nobody changes, three passes from the start connect the selected interface `p`, if
-- it is ready: the flag is set on it alone, one state machine is started on it, and the machine is in
-- `fixed_up`.
pub three_passes_connect :
    (w : World) (p : ℕ)
    → IsWellFormed w.db
    → w.db.config_mutex.is_usable ≡ true
    → p < w.db.total
    → (fixed_select w.db).1 ≡ pos p
    → IsReady w.db.config.enable (load w.db p)
    → let m = pass (pass (pass (start w))) in
      (m.world.db ≡ fixed_db w p)
      × (m.world.trace
          ≡ start_sm (some (iface_sm_init (load w.db p).iface_idx))
            ∷ platform_status PlatformStatus.connecting
            ∷ platform_status PlatformStatus.link_up
            ∷ (start w).world.trace)
      × (m.state ≡ fixed_up)
      × (m.ctrl.active_idx ≡ pos p)
unfolding start
three_passes_connect w p v u h sel r =
    let (w1, s1, i1) = pass_out_fixing (start w) v refl (omega (arith, v.small)) in
    let v1 : IsWellFormed (pass (start w)).world.db = rw w1 v in
    let (w3, s3, i3) =
      two_passes_connect (pass (start w)) p v1 s1 (i1 ∙ sel) (rw w1 u) (rw w1 h) (rw w1 sel)
        (rw w1 r) in
    (rw (w3, w1), rw (w3, w1), s3, i3)
