-- ===== src/Store/Pointer.antt =====
-- Reads and writes through pointers into the interface table.
use rdk_wanmanager.Common.{
  ℕ, ◌<◌, ◌≡◌, refl, ◌≢◌, Option, none, some, List, length-set, get_or-set_self, get_or-set_ne,
  arith,
}
use rdk_wanmanager.Dml.{Iface}
use rdk_wanmanager.Store.Defs.{Database, zero_iface, load, store}
use rdk_wanmanager.Store.Lock.{entries, IsWellFormed}

load-store_self_of :
    (db : Database) (fs : Option (List Iface)) (p : ℕ) (f : Iface)
    → p < entries fs
    → load (store (record db { ifaces = fs }) p f) p ≡ f
unfolding load store
load-store_self_of db none p f h = elim h [ ]
load-store_self_of db (some fs) p f h = get_or-set_self fs p f zero_iface h

pub load-store_self :
    (db : Database) (p : ℕ) (f : Iface) → IsWellFormed db → p < db.total → load (store db p f) p ≡ f
load-store_self db p f w h = load-store_self_of db db.ifaces p f (omega arith)

load-store_ne_of :
    (db : Database) (fs : Option (List Iface)) (p j : ℕ) (f : Iface)
    → p ≢ j
    → load (store (record db { ifaces = fs }) p f) j ≡ load (record db { ifaces = fs }) j
unfolding load store
load-store_ne_of db none p j f h = refl
load-store_ne_of db (some fs) p j f h = get_or-set_ne fs p j f zero_iface h

pub load-store_ne :
    (db : Database) (p j : ℕ) (f : Iface) → p ≢ j → load (store db p f) j ≡ load db j
load-store_ne db p j f h = load-store_ne_of db db.ifaces p j f h

entries-store_of :
    (db : Database) (fs : Option (List Iface)) (p : ℕ) (f : Iface)
    → entries (store (record db { ifaces = fs }) p f).ifaces ≡ entries fs
unfolding store
entries-store_of db none p f = refl
entries-store_of db (some fs) p f = length-set fs p f

pub entries-store :
    (db : Database) (p : ℕ) (f : Iface) → entries (store db p f).ifaces ≡ entries db.ifaces
entries-store db p f = entries-store_of db db.ifaces p f

pub store-IsWellFormed :
    (db : Database) (p : ℕ) (f : Iface) → IsWellFormed db → IsWellFormed (store db p f)
unfolding store
store-IsWellFormed db p f w = ground (arith, entries-store_of db db.ifaces p f)

-- What a write leaves alone.
pub store_frame :
    (db : Database) (p : ℕ) (f : Iface)
    → ((store db p f).total ≡ db.total)
      × ((store db p f).config ≡ db.config)
      × ((store db p f).iface_mutex ≡ db.iface_mutex)
      × ((store db p f).config_mutex ≡ db.config_mutex)
unfolding store
store_frame db p f = (refl, refl, refl, refl)
