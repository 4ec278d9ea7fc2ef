-- ===== src/Policy/Write.antt =====
-- The two assignments that the policies make through a pointer to an interface.
use rdk_wanmanager.Common.{ℕ, ◌<◌, ◌≡◌, refl, ◌≢◌, Bool}
use rdk_wanmanager.Dml.{WanStatus}
use rdk_wanmanager.Store.Defs.{Database, load}
use rdk_wanmanager.Store.Lock.{IsWellFormed, held}
use rdk_wanmanager.Store.Pointer.{load-store_self, load-store_ne, store-IsWellFormed}
use rdk_wanmanager.Policy.Control.{
  World, with_active_link, with_status, set_active_link, set_status,
}

pub load-held : (db : Database) (p : ℕ) → load (held db) p ≡ load db p
unfolding load
load-held db p = refl

module _ (w : World) (p : ℕ) (v : IsWellFormed w.db) where
  pub set_active_link-IsWellFormed : (b : Bool) → IsWellFormed (set_active_link w p b).db
  set_active_link-IsWellFormed b = store-IsWellFormed w.db p _ v

  pub set_status-IsWellFormed : (s : WanStatus) → IsWellFormed (set_status w p s).db
  set_status-IsWellFormed s = store-IsWellFormed w.db p _ v

  pub load-set_active_link :
      (b : Bool)
      → p < w.db.total
      → load (set_active_link w p b).db p ≡ with_active_link (load w.db p) b
  load-set_active_link b h = load-store_self w.db p _ v h

  pub load-set_status :
      (s : WanStatus) → p < w.db.total → load (set_status w p s).db p ≡ with_status (load w.db p) s
  load-set_status s h = load-store_self w.db p _ v h

pub load-set_active_link_ne :
    (w : World) (p j : ℕ) (b : Bool) → p ≢ j → load (set_active_link w p b).db j ≡ load w.db j
load-set_active_link_ne w p j b h = load-store_ne w.db p j _ h

pub load-set_status_ne :
    (w : World) (p j : ℕ) (s : WanStatus) → p ≢ j → load (set_status w p s).db j ≡ load w.db j
load-set_status_ne w p j s h = load-store_ne w.db p j _ h
