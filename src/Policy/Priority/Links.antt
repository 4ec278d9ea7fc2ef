-- ===== src/Policy/Priority/Links.antt =====
-- Primary priority, transition by transition: what happens to the active interface and to the flag
-- `Wan.ActiveLink`.
use rdk_wanmanager.Common.{
  ℕ, ◌<◌, ◌≡◌, refl, subst, sym, ◌⊎◌, inl, inr, ◌≢◌, Bool, true, false, Option, none, some, ℤ, pos,
  minus_one, arith,
}
use rdk_wanmanager.Store.Defs.{Database, load, store, iface_data_release}
use rdk_wanmanager.Store.Lock.{IsWellFormed, get_iface_data_locked_pos, get_iface_data_locked-none}
use rdk_wanmanager.Policy.Control.{World, Controller, Outcome, iface_sm_init, set_active_link}
use rdk_wanmanager.Policy.Write.{set_active_link-IsWellFormed}
use rdk_wanmanager.Policy.Notions.{InRange}
use rdk_wanmanager.Policy.Priority.Defs.{
  PpState, failure, activate, clear_active, pp_primary_selected, pp_secondary_selected,
  secondary_selected_at, pp_primary_deselected, pp_secondary_deselected, stay, pp_secondary_up,
  secondary_sm, secondary_up_of,
}

-- All that a transition does to the table, the index and the flags: nothing; the active interface
-- is given up; or the flag moves from it to another one.
pub data LinkMove (w : World) (active : Option ℕ) (idx : ℤ) (db' : Database) (idx' : ℤ)
    : Type 0 where
  same : db' ≡ w.db → idx' ≡ idx → LinkMove w active idx db' idx'
  cleared : db' ≡ (clear_active w active).db → idx' ≡ minus_one → LinkMove w active idx db' idx'
  moved :
      (q : ℕ)
      → q < w.db.total
      → db' ≡ (set_active_link (clear_active w active) q true).db
      → idx' ≡ pos q
      → LinkMove w active idx db' idx'

-- A good outcome of a state that is entered with the pointer `active` and the index `idx`.
pub record Good (w : World) (active : Option ℕ) (idx : ℤ) (o : Outcome PpState) : Type 0 where
  pub alive : o.state ≢ failure
  pub pointer : o.ctrl.active_data ≡ active
  pub secondary : InRange w.db.total o.ctrl.secondary_idx
  pub link : LinkMove w active idx o.world.db o.ctrl.active_idx

module _ (w : World) (v : IsWellFormed w.db) where
  pub activate_in :
      (p : ℕ)
      → p < w.db.total
      → activate w (pos p)
        ≡ (set_active_link w p true, some (iface_sm_init (load w.db p).iface_idx))
  unfolding activate load store iface_data_release
  activate_in p h = rw (get_iface_data_locked_pos w.db p v h)

  pub activate_out : activate w minus_one ≡ (w, none)
  unfolding activate
  activate_out = rw (get_iface_data_locked-none w.db v)

pub clear_active-IsWellFormed :
    (w : World) (active : Option ℕ) → IsWellFormed w.db → IsWellFormed (clear_active w active).db
unfolding clear_active
clear_active-IsWellFormed w none v = v
clear_active-IsWellFormed w (some a) v = set_active_link-IsWellFormed w a v false

pub clear_active_total :
    (w : World) (active : Option ℕ) → (clear_active w active).db.total ≡ w.db.total
unfolding clear_active store
clear_active_total w none = refl
clear_active_total w (some a) = refl

module _ (w : World) (c : Controller) (idx : ℤ) (v : IsWellFormed w.db) where
  pub primary_selected-Good :
      (standby : Bool) (p : ℕ)
      → p < w.db.total
      → InRange w.db.total c.secondary_idx
      → Good w c.active_data idx (pp_primary_selected standby w (record c { active_idx = pos p }))
  unfolding pp_primary_selected
  primary_selected-Good standby p h s =
      rw
        (activate_in (clear_active w c.active_data) (clear_active-IsWellFormed w _ v) p
          (omega (arith, clear_active_total w c.active_data)))
        (record { alive = ground arith; pointer = refl; secondary = s; link = moved p h refl refl })

  selected_none-Good :
      Good w c.active_data idx (pp_secondary_selected w (record c { secondary_idx = minus_one }))
  unfolding pp_secondary_selected secondary_selected_at
  selected_none-Good =
      rw (activate_out (clear_active w c.active_data) (clear_active-IsWellFormed w _ v)) (record {
        alive = ground arith;
        pointer = refl;
        secondary = inl refl;
        link = cleared refl refl;
      })

  selected_some-Good :
      (p : ℕ)
      → p < w.db.total
      → Good w c.active_data idx (pp_secondary_selected w (record c { secondary_idx = pos p }))
  unfolding pp_secondary_selected secondary_selected_at
  selected_some-Good p h =
      rw
        (activate_in (clear_active w c.active_data) (clear_active-IsWellFormed w _ v) p
          (omega (arith, clear_active_total w c.active_data)))
        (record {
          alive = ground arith;
          pointer = refl;
          secondary = inr (p, refl, h);
          link = moved p h refl refl;
        })

  pub secondary_selected-Good :
      InRange w.db.total c.secondary_idx → Good w c.active_data idx (pp_secondary_selected w c)
  secondary_selected-Good (inl e) =
      subst
        (λ x. Good w c.active_data idx (pp_secondary_selected w (record c { secondary_idx = x })))
        (sym e) selected_none-Good
  secondary_selected-Good (inr (p, e, h)) =
      subst
        (λ x. Good w c.active_data idx (pp_secondary_selected w (record c { secondary_idx = x })))
        (sym e) (selected_some-Good p h)

  pub primary_deselected-Good :
      (a : ℕ)
      → c.active_data ≡ some a
      → InRange w.db.total c.secondary_idx
      → Good w c.active_data idx (pp_primary_deselected w c c.active_data)
  unfolding pp_primary_deselected clear_active
  primary_deselected-Good a e s = record {
    alive = ground arith;
    pointer = ground arith;
    secondary = rw (e, pp_primary_deselected) s;
    link = cleared (ground arith) (ground arith);
  }

  pub secondary_deselected-Good : Good w c.active_data idx (pp_secondary_deselected w c)
  unfolding pp_secondary_deselected
  secondary_deselected-Good = record {
    alive = ground arith;
    pointer = refl;
    secondary = inl refl;
    link = cleared refl refl;
  }

  -- The machine stays with its interface; only the state and the secondary index may change.
  pub stay-Good :
      (s : PpState) (secondary_idx : ℤ)
      → s ≢ failure
      → c.active_idx ≡ idx
      → InRange w.db.total secondary_idx
      → Good w c.active_data idx (stay w (record c { secondary_idx = secondary_idx }) s)
  stay-Good s i a e h = record { alive = a; pointer = refl; secondary = h; link = same refl e }

  secondary_up_idx :
      (p : ℕ)
      → c.secondary_idx ≡ pos p
      → p < w.db.total
      → ((pp_secondary_up w c).ctrl.secondary_idx ≡ pos p)
        ⊎ ((pp_secondary_up w c).ctrl.secondary_idx ≡ minus_one)
  unfolding pp_secondary_up secondary_sm secondary_up_of iface_data_release
  secondary_up_idx p m h = ground (arith, get_iface_data_locked_pos w.db p v h)

  pub secondary_up-Good :
      c.active_idx ≡ idx
      → InRange w.db.total c.secondary_idx
      → Good w c.active_data idx (pp_secondary_up w c)
  unfolding pp_secondary_up secondary_sm secondary_up_of iface_data_release
  secondary_up-Good e (inl m) = record {
    alive = ground (arith, get_iface_data_locked-none w.db v);
    pointer = ground (arith, get_iface_data_locked-none w.db v);
    secondary = ground (arith, get_iface_data_locked-none w.db v);
    link =
        same (ground (arith, get_iface_data_locked-none w.db v))
          (ground (arith, get_iface_data_locked-none w.db v));
  }
  secondary_up-Good e (inr (p, m, h)) = record {
    alive = ground (arith, get_iface_data_locked_pos w.db p v h);
    pointer = ground (arith, get_iface_data_locked_pos w.db p v h);
    secondary = elim (secondary_up_idx p m h) [ inl e ↦ inr (p, e, h) | inr e ↦ inl e ];
    link =
        same (ground (arith, get_iface_data_locked_pos w.db p v h))
          (ground (arith, get_iface_data_locked_pos w.db p v h));
  }
