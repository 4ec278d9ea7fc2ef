-- ===== src/Policy/Priority/Steps.antt =====
-- Primary priority: the loop never ends, and no two interfaces are ever active at once.
use rdk_wanmanager.Common.{
  ℕ, ◌<◌, ◌≡◌, refl, subst, sym, ap, ◌∙◌, inl, inr, ◌≢◌, Bool, true, not, none, some, ℤ, pos,
  minus_one, to_uint, arith,
}
use rdk_wanmanager.Store.Defs.{Database, load, iface_data_release}
use rdk_wanmanager.Store.Lock.{IsWellFormed, held, held-IsWellFormed}
use rdk_wanmanager.Policy.Control.{policy_ctrl_init, World, Outcome, Machine, release_active, leave}
use rdk_wanmanager.Policy.Enter.{enabled, held_world, enter_in, enter_out}
use rdk_wanmanager.Policy.Notions.{InRange, Keeps}
use rdk_wanmanager.Policy.Priority.Defs.{PpState, failure, is_failure, pp_pass, pp_start}
use rdk_wanmanager.Policy.Priority.Links.{Good}
use rdk_wanmanager.Policy.Priority.Sound.{outcome-Good}
use rdk_wanmanager.Policy.Priority.Exclusive.{IsExclusive, Moved, move-Moved}

pub record IsSound (m : Machine PpState) : Type 0 where
  pub well_formed : IsWellFormed m.world.db
  pub in_range : InRange m.world.db.total m.ctrl.active_idx
  pub secondary_in_range : InRange m.world.db.total m.ctrl.secondary_idx
  pub exclusive : IsExclusive m.world.db m.ctrl.active_idx
  pub alive : m.state ≢ failure
  pub is_running : m.running ≡ true

is_failure_lem : (s : PpState) → s ≢ failure → not (is_failure s) ≡ true
is_failure_lem s h = ground arith

-- A machine after a pass that moves the table from `db`.
record Stepped (db : Database) (m : Machine PpState) : Type 0 where
  pub moved_to : Moved db m.world.db m.ctrl.active_idx
  pub secondary : InRange db.total m.ctrl.secondary_idx
  pub alive : m.state ≢ failure

release-Moved :
    (db db' : Database) (idx : ℤ) → Moved (held db) db' idx → Moved db (iface_data_release db') idx
unfolding iface_data_release load
release-Moved db db' idx m = record {
  well_formed = record {
    backed = m.well_formed.backed;
    small = m.well_formed.small;
    usable = m.well_formed.usable;
  };
  total = m.total;
  in_range = m.in_range;
  exclusive = m.exclusive;
  config = m.config;
  iface_mutex = ground (arith, m.iface_mutex);
  config_mutex = m.config_mutex;
}

module _ (w : World) (idx : ℤ) (o : Outcome PpState) (x : IsExclusive w.db idx)
    (v : IsWellFormed w.db) where
  leave_out : idx ≡ minus_one → Good w none idx o → Stepped w.db (leave true o)
  unfolding leave release_active
  leave_out i g =
      let s : Moved w.db o.world.db o.ctrl.active_idx =
        move-Moved w none idx v (inl (refl, i)) x o.world.db o.ctrl.active_idx g.link in
      record {
        moved_to =
            subst (λ a. Moved w.db (release_active o.world a).db o.ctrl.active_idx) (sym g.pointer)
              s;
        secondary = g.secondary;
        alive = g.alive;
      }

  leave_in :
      (p : ℕ)
      → idx ≡ pos p
      → p < w.db.total
      → Good (held_world w) (some p) idx o
      → Stepped w.db (leave true o)
  unfolding leave release_active load
  leave_in p i h g =
      let s : Moved (held w.db) o.world.db o.ctrl.active_idx =
        move-Moved (held_world w) (some p) idx (held-IsWellFormed w.db v) (inr (p, refl, i, h)) x
          o.world.db o.ctrl.active_idx g.link in
      record {
        moved_to =
            subst (λ a. Moved w.db (release_active o.world a).db o.ctrl.active_idx) (sym g.pointer)
              (release-Moved w.db o.world.db o.ctrl.active_idx s);
        secondary = g.secondary;
        alive = g.alive;
      }

module _ (standby : Bool) (m : Machine PpState) (f : IsSound m) where
  pass_out : m.ctrl.active_idx ≡ minus_one → Stepped m.world.db (pp_pass standby m)
  unfolding pp_pass
  pass_out i =
      rw (enter_out m.world m.ctrl f.well_formed (rw i (omega (arith, f.well_formed.small)))) (
        rw (is_failure_lem m.state f.alive) (
          leave_out m.world m.ctrl.active_idx _ f.exclusive f.well_formed i (
            outcome-Good m.world (record m.ctrl { wan_enable = enabled m.world m.ctrl })
              f.well_formed f.secondary_in_range standby m.state none f.alive)))

  pass_in :
      (p : ℕ)
      → m.ctrl.active_idx ≡ pos p
      → p < m.world.db.total
      → Stepped m.world.db (pp_pass standby m)
  unfolding pp_pass
  pass_in p i h =
      let t : to_uint m.ctrl.active_idx ≡ p = rw i (omega (arith, f.well_formed.small, h)) in
      rw (enter_in m.world m.ctrl f.well_formed (rw t h)) (
        rw (is_failure_lem m.state f.alive) (
          leave_in m.world m.ctrl.active_idx _ f.exclusive f.well_formed (to_uint m.ctrl.active_idx)
            (i ∙ ap pos (sym t)) (rw t h)
            (outcome-Good (held_world m.world)
              (record m.ctrl { wan_enable = enabled m.world m.ctrl })
              (held-IsWellFormed m.world.db f.well_formed) f.secondary_in_range standby m.state
              (some (to_uint m.ctrl.active_idx)) f.alive)))

  pass-Stepped : Stepped m.world.db (pp_pass standby m)
  pass-Stepped = elim f.in_range [ inl i ↦ pass_out i | inr (p, i, h) ↦ pass_in p i h ]

  pass_running : (pp_pass standby m).running ≡ true
  unfolding pp_pass leave
  pass_running = is_failure_lem m.state f.alive

-- A pass of the primary priority loop, in either build, takes a sound machine to a sound one: no
-- interface but the active one has the flag `Wan.ActiveLink`, both indices are -1 or those of
-- entries, and the machine does not fail. It gives back every lock that it takes, and leaves the
-- configuration and the number of interfaces alone.
pub pp_pass-IsSound :
    (standby : Bool) (m : Machine PpState)
    → IsSound m
    → IsSound (pp_pass standby m) × Keeps m.world.db (pp_pass standby m).world.db
pp_pass-IsSound standby m f =
    let s : Stepped m.world.db (pp_pass standby m) = pass-Stepped standby m f in
    (
      record {
        well_formed = s.moved_to.well_formed;
        in_range =
            subst (λ n. InRange n (pp_pass standby m).ctrl.active_idx) (sym s.moved_to.total)
              s.moved_to.in_range;
        secondary_in_range =
            subst (λ n. InRange n (pp_pass standby m).ctrl.secondary_idx) (sym s.moved_to.total)
              s.secondary;
        exclusive = s.moved_to.exclusive;
        alive = s.alive;
        is_running = pass_running standby m f;
      },
      record {
        total = s.moved_to.total;
        config = s.moved_to.config;
        iface_mutex = s.moved_to.iface_mutex;
        config_mutex = s.moved_to.config_mutex;
      },
    )

-- What the other threads do to the table between two passes: they neither set the flag of an
-- interface that did not have it nor change the number of interfaces.
pub record IsDisturbance (db db' : Database) : Type 0 where
  pub well_formed : IsWellFormed db'
  pub total : db'.total ≡ db.total
  pub no_new_flag :
      (j : ℕ) → (load db' j).wan.active_link ≡ true → (load db j).wan.active_link ≡ true

-- The passes of the loop and the changes between them.
pub data PpRun (standby : Bool) (m : Machine PpState) : Machine PpState → Type 0 where
  here : PpRun standby m m
  passed : {n : Machine PpState} → PpRun standby m n → PpRun standby m (pp_pass standby n)
  disturbed :
      {n : Machine PpState} (db : Database)
      → PpRun standby m n
      → IsDisturbance n.world.db db
      → PpRun standby m (record n { world = record n.world { db = db } })

disturbed-IsSound :
    (n : Machine PpState) (db : Database)
    → IsSound n
    → IsDisturbance n.world.db db
    → IsSound (record n { world = record n.world { db = db } })
disturbed-IsSound n db g d = record {
  well_formed = d.well_formed;
  in_range = subst (λ t. InRange t n.ctrl.active_idx) (sym d.total) g.in_range;
  secondary_in_range =
      subst (λ t. InRange t n.ctrl.secondary_idx) (sym d.total) g.secondary_in_range;
  exclusive = λ j h e. g.exclusive j (subst (λ t. j < t) d.total h) (d.no_new_flag j e);
  alive = g.alive;
  is_running = g.is_running;
}

pub PpRun-IsSound :
    {standby : Bool} {m n : Machine PpState} → IsSound m → PpRun standby m n → IsSound n
PpRun-IsSound f here = f
PpRun-IsSound f (passed {n = n} r) = (pp_pass-IsSound _ n (PpRun-IsSound f r)).0
PpRun-IsSound f (disturbed {n = n} db r d) = disturbed-IsSound n db (PpRun-IsSound f r) d

-- `Transition_Start` makes a sound machine, if no interface has the flag.
pub pp_start-IsSound :
    (w : World)
    → IsWellFormed w.db
    → ((j : ℕ) → j < w.db.total → (load w.db j).wan.active_link ≢ true)
    → IsSound (pp_start w)
unfolding pp_start policy_ctrl_init
pp_start-IsSound w v none_active = record {
  well_formed = v;
  in_range = inl refl;
  secondary_in_range = inl refl;
  exclusive = λ j h e. absurd (none_active j h e);
  alive = ground arith;
  is_running = refl;
}

-- At most one interface is the active link: if the primary priority policy starts, in either build,
-- on a well-formed table with no active link, then after any number of passes, and of changes by
-- the other threads that set no flag and keep the table well-formed and the number of interfaces,
-- two interfaces that both have `Wan.ActiveLink` are the same one.
pub at_most_one_active :
    {standby : Bool} (w : World) {m : Machine PpState} (i j : ℕ)
    → IsWellFormed w.db
    → ((k : ℕ) → k < w.db.total → (load w.db k).wan.active_link ≢ true)
    → PpRun standby (pp_start w) m
    → i < m.world.db.total
    → j < m.world.db.total
    → (load m.world.db i).wan.active_link ≡ true
    → (load m.world.db j).wan.active_link ≡ true
    → i ≡ j
at_most_one_active w i j v a r h k e d =
    let f = PpRun-IsSound (pp_start-IsSound w v a) r in
    ground (arith, f.exclusive i h e, f.exclusive j k d)
