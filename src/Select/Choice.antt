-- ===== src/Select/Choice.antt =====
-- The two selections of source/WanManager/wanmgr_policy_fm_impl.c and wanmgr_policy_pp_impl.c meet
-- the specification of `Scan`, and leave the database as they found it, the mutex included.
use rdk_wanmanager.Common.{ℕ, zero, suc, ◌+◌, ◌≤◌, ◌≡◌, refl, Bool, true, false, minus_one, arith}
use rdk_wanmanager.Dml.{Iface}
use rdk_wanmanager.Store.Defs.{
  Database, iface_data_init, load, get_iface_ctrl_locked, iface_ctrl_release, iface_data_release,
}
use rdk_wanmanager.Store.Lock.{IsWellFormed, held, held-IsWellFormed, get_iface_data_locked_in}
use rdk_wanmanager.Select.Defs.{
  Best, Pair, no_best, consider_if, consider_pair, fixed_candidate, primary_candidate,
  secondary_candidate, total_ifaces, fixed_loop, fixed_select, pair_loop, priority_select,
}
use rdk_wanmanager.Select.Scan.{scan, Selected, scan-Selected}

total_ifaces_lem : (db : Database) → IsWellFormed db → total_ifaces db ≡ (db, db.total)
unfolding total_ifaces get_iface_ctrl_locked iface_ctrl_release
total_ifaces_lem db w = ground arith

fixed_loop-scan :
    (db : Database) (rounds i : ℕ) (best : Best)
    → IsWellFormed db
    → i + rounds ≤ db.total
    → fixed_loop rounds i (db, best) ≡ (db, scan fixed_candidate (load db) rounds i best)
unfolding fixed_loop scan load iface_data_release
fixed_loop-scan db zero i best w h = refl
fixed_loop-scan db (suc rounds) i best w h =
    rw (get_iface_data_locked_in db i w (omega arith))
      (fixed_loop-scan db rounds (i + 1) _ w (omega arith))

fixed_select-scan :
    (db : Database)
    → IsWellFormed db
    → fixed_select db ≡ (db, (scan fixed_candidate (load db) db.total 0 no_best).idx)
unfolding fixed_select
fixed_select-scan db w =
    rw (total_ifaces_lem db w) (rw (fixed_loop-scan db db.total 0 no_best w (omega arith)))

-- Fixed mode takes the enabled primary interface with the least priority between 0 and 254, the
-- first one of equals, and -1 if there is none; the database is unchanged.
pub fixed_select-Selected :
    (db : Database)
    → IsWellFormed db
    → ((fixed_select db).0 ≡ db) × Selected fixed_candidate (load db) db.total (fixed_select db).1
fixed_select-Selected db w =
    rw (fixed_select-scan db w) (refl, scan-Selected fixed_candidate (load db) db.total w.small)

-- The selection does not depend on the mutex being held.
pub fixed_select-held :
    (db : Database) → IsWellFormed db → (fixed_select (held db)).1 ≡ (fixed_select db).1
unfolding load
fixed_select-held db w =
    rw (fixed_select-scan (held db) (held-IsWellFormed db w)) (rw (fixed_select-scan db w))

consider_pair_lem :
    (f : Iface) (i : ℕ) (s : Pair)
    → consider_pair f i s ≡ record {
      primary = consider_if primary_candidate f i s.primary;
      secondary = consider_if secondary_candidate f i s.secondary;
    }
unfolding consider_pair
consider_pair_lem f i s = ground arith

pub fixed_select_db : (db : Database) → IsWellFormed db → (fixed_select db).0 ≡ db
fixed_select_db db w = (fixed_select-Selected db w).0

pair_loop-scan :
    (db : Database) (rounds i : ℕ) (s : Pair)
    → IsWellFormed db
    → i + rounds ≤ db.total
    → pair_loop rounds i (db, s) ≡ (
      db,
      record {
        primary = scan primary_candidate (load db) rounds i s.primary;
        secondary = scan secondary_candidate (load db) rounds i s.secondary;
      },
    )
unfolding pair_loop scan load iface_data_release
pair_loop-scan db zero i s w h = refl
pair_loop-scan db (suc rounds) i s w h =
    rw (get_iface_data_locked_in db i w (omega arith))
      (rw (consider_pair_lem (load db i) i s) (pair_loop-scan db rounds (i + 1) _ w (omega arith)))

priority_select-scan :
    (db : Database)
    → IsWellFormed db
    → priority_select true db ≡ (
      db,
      (scan primary_candidate (load db) db.total 0 no_best).idx,
      (scan secondary_candidate (load db) db.total 0 no_best).idx,
    )
unfolding priority_select
priority_select-scan db w =
    rw (total_ifaces_lem db w) (rw (pair_loop-scan db db.total 0 _ w (omega arith)))

-- With the WAN enabled, the primary priority policies take two interfaces among those that are
-- enabled and have a physical link: the primary one and the other one with the least priority
-- between 0 and 254, each the first of equals, each -1 if there is none; the database is unchanged.
pub priority_select-Selected :
    (db : Database)
    → IsWellFormed db
    → ((priority_select true db).0 ≡ db)
      × Selected primary_candidate (load db) db.total (priority_select true db).1
      × Selected secondary_candidate (load db) db.total (priority_select true db).2
priority_select-Selected db w = rw (priority_select-scan db w) (
  refl,
  scan-Selected primary_candidate (load db) db.total w.small,
  scan-Selected secondary_candidate (load db) db.total w.small,
)

-- With the WAN disabled they take none.
pub priority_select_disabled :
    (db : Database) → IsWellFormed db → priority_select false db ≡ (db, minus_one, minus_one)
unfolding priority_select
priority_select_disabled db w = rw (total_ifaces_lem db w)

-- Whether the WAN is enabled or not, the database is unchanged.
pub priority_select_db :
    (wan_enable : Bool) (db : Database) → IsWellFormed db → (priority_select wan_enable db).0 ≡ db
priority_select_db true db w = (priority_select-Selected db w).0
priority_select_db false db w = rw (priority_select_disabled db w)

-- No policy takes an interface that `WanMgr_IfaceData_Init` has just set up, whatever was there.
pub iface_data_init_not_selected :
    (f : Iface) (i : ℕ)
    → (fixed_candidate (iface_data_init f i) ≡ false)
      × (primary_candidate (iface_data_init f i) ≡ false)
      × (secondary_candidate (iface_data_init f i) ≡ false)
unfolding iface_data_init
iface_data_init_not_selected f i = (refl, refl, refl)
