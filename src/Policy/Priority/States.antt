-- ===== src/Policy/Priority/States.antt =====
-- Primary priority, state by state: every state has a good outcome.
use rdk_wanmanager.Common.{
  ◌∷◌, ℕ, ◌<◌, ◌≡◌, refl, subst, sym, inl, inr, Bool, true, false, Option, some, ℤ, pos, minus_one,
  arith, eqb_ℤ, ◌&&◌, not, if◌then◌else◌,
}
use rdk_wanmanager.Store.Defs.{store}
use rdk_wanmanager.Store.Lock.{IsWellFormed}
use rdk_wanmanager.Policy.Control.{
  PlatformStatus, platform_status, World, Controller, Outcome, set_active_link,
}
use rdk_wanmanager.Policy.Write.{set_active_link-IsWellFormed}
use rdk_wanmanager.Policy.Notions.{InRange}
use rdk_wanmanager.Policy.Priority.Defs.{
  PpState, interface_down, primary_wan_active, secondary_wan_active,
  primary_wan_active_secondary_wan_up, clear_active, pp_secondary_down, pp_primary_changed,
  primary_changed_to, wan_down_select, primary_active_select, secondary_active_select, both_select,
}
use rdk_wanmanager.Select.Defs.{priority_select}
use rdk_wanmanager.Select.Choice.{priority_select_db}
use rdk_wanmanager.Policy.Notions.{priority_select-InRange}
use rdk_wanmanager.Policy.Priority.Links.{
  Good, cleared, moved, activate_in, clear_active-IsWellFormed, clear_active_total,
  primary_selected-Good, secondary_selected-Good, primary_deselected-Good,
  secondary_deselected-Good, stay-Good, secondary_up-Good,
}

pub Good-if :
    {w : World} {active : Option ℕ} {idx : ℤ} (b : Bool) {x y : Outcome PpState}
    → Good w active idx x
    → Good w active idx y
    → Good w active idx (if b then x else y)
Good-if true g h = g
Good-if false g h = h

module _ (w : World) (c : Controller) (v : IsWellFormed w.db)
    (r : InRange w.db.total c.secondary_idx) where
  wan_down_none-Good :
      (standby : Bool) (S : ℤ)
      → InRange w.db.total S
      → Good w c.active_data c.active_idx (wan_down_select standby w c (w.db, minus_one, S))
  unfolding wan_down_select
  wan_down_none-Good standby S (inl e) =
      subst
        (λ x. Good w c.active_data c.active_idx (wan_down_select standby w c (w.db, minus_one, x)))
        (sym e) (stay-Good w c c.active_idx v interface_down c.secondary_idx (ground arith) refl r)
  wan_down_none-Good standby S (inr (p, e, h)) =
      subst
        (λ x. Good w c.active_data c.active_idx (wan_down_select standby w c (w.db, minus_one, x)))
        (sym e)
        (secondary_selected-Good w (record c { active_idx = pos p; secondary_idx = pos p })
          c.active_idx v (inr (p, refl, h)))

  pub wan_down-Good :
      (standby : Bool) (P S : ℤ)
      → InRange w.db.total P
      → InRange w.db.total S
      → Good w c.active_data c.active_idx (wan_down_select standby w c (w.db, P, S))
  unfolding wan_down_select
  wan_down-Good standby P S (inl e) s =
      subst (λ x. Good w c.active_data c.active_idx (wan_down_select standby w c (w.db, x, S)))
        (sym e) (wan_down_none-Good standby S s)
  wan_down-Good standby P S (inr (p, e, h)) s =
      subst (λ x. Good w c.active_data c.active_idx (wan_down_select standby w c (w.db, x, S)))
        (sym e) (primary_selected-Good w c c.active_idx v standby p h r)

  pub primary_active-Good :
      (standby : Bool) (a : ℕ) (P S : ℤ)
      → c.active_data ≡ some a
      → InRange w.db.total S
      → Good w c.active_data c.active_idx (primary_active_select standby w c (w.db, P, S))
  unfolding primary_active_select
  primary_active-Good standby a P S e s =
      Good-if (not (eqb_ℤ P c.active_idx)) (primary_deselected-Good w c c.active_idx v a e r) (
        Good-if (standby && not (eqb_ℤ S c.secondary_idx))
          (secondary_up-Good w (record c { secondary_idx = S }) c.active_idx v refl s)
          (stay-Good w c c.active_idx v primary_wan_active c.secondary_idx (ground arith) refl r))

  secondary_active_none-Good :
      (standby : Bool) (S : ℤ)
      → Good w c.active_data c.active_idx (secondary_active_select standby w c (w.db, minus_one, S))
  unfolding secondary_active_select
  secondary_active_none-Good standby S =
      Good-if (not (eqb_ℤ S c.active_idx)) (secondary_deselected-Good w c c.active_idx v)
        (stay-Good w c c.active_idx v secondary_wan_active c.secondary_idx (ground arith) refl r)

  secondary_active_some-Good :
      (standby : Bool) (p : ℕ) (S : ℤ)
      → p < w.db.total
      → Good w c.active_data c.active_idx (secondary_active_select standby w c (w.db, pos p, S))
  unfolding secondary_active_select
  secondary_active_some-Good standby p S h =
      Good-if (not (eqb_ℤ S c.active_idx)) (secondary_deselected-Good w c c.active_idx v) (
        Good-if standby (primary_selected-Good w c c.active_idx v standby p h r)
          (secondary_deselected-Good w c c.active_idx v))

  pub secondary_active-Good :
      (standby : Bool) (P S : ℤ)
      → InRange w.db.total P
      → Good w c.active_data c.active_idx (secondary_active_select standby w c (w.db, P, S))
  secondary_active-Good standby P S (inl e) =
      subst
        (λ x. Good w c.active_data c.active_idx (secondary_active_select standby w c (w.db, x, S)))
        (sym e) (secondary_active_none-Good standby S)
  secondary_active-Good standby P S (inr (p, e, h)) =
      subst
        (λ x. Good w c.active_data c.active_idx (secondary_active_select standby w c (w.db, x, S)))
        (sym e) (secondary_active_some-Good standby p S h)

  -- The flag is given up and the selection, made again, finds no primary interface.
  changed_none-Good :
      (a : ℕ) (S : ℤ)
      → let w' : World = set_active_link w a false in
        Good w (some a) c.active_idx (
          primary_changed_to
            (record w' { trace = platform_status PlatformStatus.disconnected ∷ w.trace })
            (record c { active_idx = minus_one; active_data = some a })
            (w'.db, minus_one, S))
  unfolding primary_changed_to clear_active
  changed_none-Good a S = record {
    alive = ground arith;
    pointer = refl;
    secondary = r;
    link = cleared refl refl;
  }

  changed_some-Good :
      (a p : ℕ) (S : ℤ)
      → p < w.db.total
      → let w' : World = set_active_link w a false in
        Good w (some a) c.active_idx (
          primary_changed_to
            (record w' { trace = platform_status PlatformStatus.disconnected ∷ w.trace })
            (record c { active_idx = minus_one; active_data = some a })
            (w'.db, pos p, S))
  unfolding primary_changed_to clear_active
  changed_some-Good a p S h =
      rw
        (activate_in
          (record w {
            db = (set_active_link w a false).db;
            trace = platform_status PlatformStatus.disconnected ∷ w.trace;
          })
          (clear_active-IsWellFormed w (some a) v) p (omega (arith, clear_active_total w (some a))))
        (record { alive = ground arith; pointer = refl; secondary = r; link = moved p h refl refl })

  changed_to-Good :
      (a : ℕ) (P S : ℤ)
      → InRange w.db.total P
      → let w' : World = set_active_link w a false in
        Good w (some a) c.active_idx (
          primary_changed_to
            (record w' { trace = platform_status PlatformStatus.disconnected ∷ w.trace })
            (record c { active_idx = minus_one; active_data = some a })
            (w'.db, P, S))
  changed_to-Good a P S (inl e) =
      let w' : World = set_active_link w a false in
      subst
        (λ x. Good w (some a) c.active_idx (
          primary_changed_to
            (record w' { trace = platform_status PlatformStatus.disconnected ∷ w.trace })
            (record c { active_idx = minus_one; active_data = some a }) (w'.db, x, S)))
        (sym e) (changed_none-Good a S)
  changed_to-Good a P S (inr (p, e, h)) =
      let w' : World = set_active_link w a false in
      subst
        (λ x. Good w (some a) c.active_idx (
          primary_changed_to
            (record w' { trace = platform_status PlatformStatus.disconnected ∷ w.trace })
            (record c { active_idx = minus_one; active_data = some a }) (w'.db, x, S)))
        (sym e) (changed_some-Good a p S h)

  primary_changed-Good :
      (a : ℕ)
      → Good w
          (some a)
          c.active_idx
          (pp_primary_changed w (record c { active_data = some a }) (some a))
  unfolding pp_primary_changed clear_active store
  primary_changed-Good a =
      let v' : IsWellFormed (set_active_link w a false).db =
        set_active_link-IsWellFormed w a v false in
      subst
        (λ x. Good w (some a) c.active_idx (
          primary_changed_to
            (record w {
              db = (set_active_link w a false).db;
              trace = platform_status PlatformStatus.disconnected ∷ w.trace;
            })
            (record c { active_idx = minus_one; active_data = some a })
            (
              x,
              (priority_select c.wan_enable (set_active_link w a false).db).1,
              (priority_select c.wan_enable (set_active_link w a false).db).2,
            )))
        (sym (priority_select_db c.wan_enable (set_active_link w a false).db v'))
        (changed_to-Good a _ _ (
          subst (λ n. InRange n (priority_select c.wan_enable (set_active_link w a false).db).1)
            (clear_active_total w (some a))
            (priority_select-InRange c.wan_enable (set_active_link w a false).db v').0))

  pub both-Good :
      (a : ℕ) (P S : ℤ)
      → InRange w.db.total S
      → Good w
          (some a)
          c.active_idx
          (both_select w (record c { active_data = some a }) (w.db, P, S))
  unfolding both_select pp_secondary_down
  both-Good a P S s = Good-if (not (eqb_ℤ P c.active_idx)) (primary_changed-Good a) (
      Good-if (eqb_ℤ S minus_one)
        (stay-Good w (record c { active_data = some a }) c.active_idx v primary_wan_active minus_one
          (ground arith) refl (inl refl))
        (Good-if (not (eqb_ℤ S c.secondary_idx))
          (secondary_up-Good w (record c { secondary_idx = S; active_data = some a }) c.active_idx v
            refl s)
          (stay-Good w (record c { active_data = some a }) c.active_idx v
            primary_wan_active_secondary_wan_up c.secondary_idx (ground arith) refl r)))
