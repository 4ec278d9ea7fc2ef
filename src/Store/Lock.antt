-- ===== src/Store/Lock.antt =====
-- What the accessors of the database return, and that they keep the mutex balanced.
use rdk_wanmanager.Common.{
  ℕ, suc, ◌≤◌, ◌<◌, ◌≡◌, refl, ◌⊎◌, true, Option, none, some, List, length, pos, minus_one, to_uint,
  int_limit, arith,
}
use rdk_wanmanager.Dml.{Iface}
use rdk_wanmanager.Store.Defs.{Database, get_iface_data_locked, iface_data_release}

-- The size of the memory behind `pIface`.
abbrev pub entries : Option (List Iface) → ℕ
entries none = 0
entries (some fs) = length fs

pub record IsWellFormed (db : Database) : Type 0 where
  pub backed : db.total ≡ entries db.ifaces
  pub small : db.total < int_limit
  pub usable : db.iface_mutex.is_usable ≡ true

-- The table with the mutex held once more.
abbrev pub held : Database → Database
held db = record db { iface_mutex = record db.iface_mutex { depth = suc db.iface_mutex.depth } }

pub held-IsWellFormed : (db : Database) → IsWellFormed db → IsWellFormed (held db)
held-IsWellFormed db v = ground arith

pub release-held : (db : Database) → iface_data_release (held db) ≡ db
unfolding iface_data_release
release-held db = refl

pub get_iface_data_locked_in :
    (db : Database) (i : ℕ)
    → IsWellFormed db
    → i < db.total
    → get_iface_data_locked db i ≡ (held db, some i)
unfolding get_iface_data_locked
get_iface_data_locked_in db i w h = ground arith

pub get_iface_data_locked_out :
    (db : Database) (i : ℕ)
    → IsWellFormed db
    → db.total ≤ i
    → get_iface_data_locked db i ≡ (db, none)
unfolding get_iface_data_locked
get_iface_data_locked_out db i w h = ground arith

-- Without any assumption: a pointer comes with the mutex held, and NULL leaves the mutex as it was.
pub get_iface_data_locked_cases :
    (db : Database) (i : ℕ)
    → (get_iface_data_locked db i ≡ (db, none))
      ⊎ ((get_iface_data_locked db i ≡ (held db, some i)) × (i < db.total))
unfolding get_iface_data_locked
get_iface_data_locked_cases db i = ground arith

-- The same for an index of type `INT`.
pub get_iface_data_locked_pos :
    (db : Database) (p : ℕ)
    → IsWellFormed db
    → p < db.total
    → get_iface_data_locked db (to_uint (pos p)) ≡ (held db, some p)
get_iface_data_locked_pos db p w h =
    let e : to_uint (pos p) ≡ p = omega (arith, w.small) in rw e (get_iface_data_locked_in db p w h)

pub get_iface_data_locked-none :
    (db : Database) → IsWellFormed db → get_iface_data_locked db (to_uint minus_one) ≡ (db, none)
get_iface_data_locked-none db w = get_iface_data_locked_out db _ w (omega (arith, w.small))
