-- ===== src/DataModel/RoundTrip.antt =====
-- The data model's Boolean setters and getters together.
use rdk_wanmanager.Common.{
  ℕ, ◌<◌, ◌≡◌, refl, sym, ap, ◌∙◌, subst, Bool, true, false, Option, none, some, if◌then◌else◌,
}
use native.Mathlib.Decide.{ℕ_discrete}
use rdk_wanmanager.Dml.{Iface}
use rdk_wanmanager.Store.Defs.{Database, load, store, iface_data_release}
use rdk_wanmanager.Store.Lock.{IsWellFormed, held, get_iface_data_locked_in}
use rdk_wanmanager.Store.Pointer.{load-store_self, load-store_ne, store-IsWellFormed}
use rdk_wanmanager.DataModel.Config.{
  access, read_at, write_new, write_at, BoolParam, bool_value, with_bool, get_bool, set_bool,
  ValidationParam, validation_value, with_validation, get_validation, set_validation,
}

-- The interface after a write of `o`, and whether something is written.
abbrev pub after : Iface → Option Iface → Iface
after f none = f
after f (some g) = g

abbrev pub is_write : Option Iface → Bool
is_write none = false
is_write (some g) = true

-- The index that the entry of a handle holds.
abbrev pub index_of : Database → ℕ → ℕ
index_of db e = (load db e).iface_idx

pub access_in :
    (db : Database) (e : ℕ)
    → IsWellFormed db
    → index_of db e < db.total
    → access db (some e) ≡ (held db, some (index_of db e))
unfolding access
access_in db e v h = get_iface_data_locked_in db (index_of db e) v h

module _ (db : Database) (e : ℕ) (v : IsWellFormed db) (h : index_of db e < db.total) where
  -- A write that keeps the index of the interface leaves the handle as good as it was.
  pub index-store :
      (f : Iface)
      → f.iface_idx ≡ index_of db (index_of db e)
      → index_of (store db (index_of db e) f) e ≡ index_of db e
  index-store f k = elim (ℕ_discrete (index_of db e) e) [
    | yes i ↦
        let q : ℕ = index_of db e in
        subst (λ x. (load (store db q f) x).iface_idx ≡ q) i
          (ap (λ f. f.iface_idx) (load-store_self db q f v h) ∙ k ∙ ap (index_of db) i)
    | no n ↦ ap (λ f. f.iface_idx) (load-store_ne db (index_of db e) e f n)
  ]

  pub read_in :
      {A : Type 0} (g : Iface → Option A)
      → read_at g (access db (some e)) ≡ (db, g (load db (index_of db e)))
  unfolding read_at iface_data_release load
  read_in g = ap (read_at g) (access_in db e v h)

  pub written : Option Iface → Database × Bool
  written none = (db, false)
  written (some f) = (store db (index_of db e) f, true)

  write_new_lem : (o : Option Iface) → write_new (held db) (index_of db e) o ≡ written o
  unfolding write_new written iface_data_release store
  write_new_lem none = refl
  write_new_lem (some f) = refl

  pub write_in :
      (w : Iface → Option Iface)
      → write_at w (access db (some e)) ≡ written (w (load db (index_of db e)))
  unfolding write_at load
  write_in w = ap (write_at w) (access_in db e v h) ∙ write_new_lem (w (load db (index_of db e)))

  written-IsWellFormed : (o : Option Iface) → IsWellFormed (written o).0
  unfolding written
  written-IsWellFormed none = v
  written-IsWellFormed (some f) = store-IsWellFormed db (index_of db e) f v

module _ (db : Database) (e : ℕ) (v : IsWellFormed db) (h : index_of db e < db.total) where
  pub index-store_total :
      (f : Iface)
      → f.iface_idx ≡ index_of db (index_of db e)
      → index_of (store db (index_of db e) f) e < (store db (index_of db e) f).total
  unfolding store
  index-store_total f k = subst (λ i. i < db.total) (sym (index-store db e v h f k)) h

  pub read_written :
      {A : Type 0} (g : Iface → Option A) (o : Option Iface)
      → (after (load db (index_of db e)) o).iface_idx ≡ index_of db (index_of db e)
      → read_at g (access (written db e v h o).0 (some e))
        ≡ ((written db e v h o).0, g (after (load db (index_of db e)) o))
  unfolding written
  read_written g none k = read_in db e v h g
  read_written g (some f) k =
      let db' : Database = store db (index_of db e) f in
      read_in db' e (store-IsWellFormed db (index_of db e) f v) (index-store_total f k) g
      ∙ ap (λ f. (db', g f))
          (ap (load db') (index-store db e v h f k) ∙ load-store_self db (index_of db e) f v h)

bool_kept :
    (p : BoolParam) (b : Bool) (f : Iface) → (after f (with_bool p b f)).iface_idx ≡ f.iface_idx
bool_kept BoolParam.enable b f = refl
bool_kept BoolParam.refresh b f = refl
bool_kept BoolParam.active_link b f = refl
bool_kept BoolParam.enable_dslite b f = refl
bool_kept BoolParam.enable_ipoe b f = refl
bool_kept BoolParam.enable_mapt b f = refl
bool_kept BoolParam.unknown b f = refl

bool_read :
    (p : BoolParam) (b : Bool) (f : Iface)
    → bool_value p (after f (with_bool p b f))
      ≡ (if is_write (with_bool p b f) then some b else none)
bool_read BoolParam.enable b f = refl
bool_read BoolParam.refresh b f = refl
bool_read BoolParam.active_link b f = refl
bool_read BoolParam.enable_dslite b f = refl
bool_read BoolParam.enable_ipoe b f = refl
bool_read BoolParam.enable_mapt b f = refl
bool_read BoolParam.unknown b f = refl

validation_kept :
    (p : ValidationParam) (b : Bool) (f : Iface)
    → (after f (with_validation p b f)).iface_idx ≡ f.iface_idx
validation_kept ValidationParam.discover_offer b f = refl
validation_kept ValidationParam.solicit_advertise b f = refl
validation_kept ValidationParam.rs_ra b f = refl
validation_kept ValidationParam.padi_pado b f = refl
validation_kept ValidationParam.unknown b f = refl

validation_read :
    (p : ValidationParam) (b : Bool) (f : Iface)
    → validation_value p (after f (with_validation p b f))
      ≡ (if is_write (with_validation p b f) then some b else none)
validation_read ValidationParam.discover_offer b f = refl
validation_read ValidationParam.solicit_advertise b f = refl
validation_read ValidationParam.rs_ra b f = refl
validation_read ValidationParam.padi_pado b f = refl
validation_read ValidationParam.unknown b f = refl

module _ (db : Database) (e : ℕ) (v : IsWellFormed db) (h : index_of db e < db.total) where
  written_ok : (o : Option Iface) → (written db e v h o).1 ≡ is_write o
  unfolding written
  written_ok none = refl
  written_ok (some f) = refl

  through :
      (w : Iface → Option Iface) (g : Iface → Option Bool) (b : Bool)
      → ((f : Iface) → (after f (w f)).iface_idx ≡ f.iface_idx)
      → ((f : Iface) → g (after f (w f)) ≡ (if is_write (w f) then some b else none))
      → let (db', ok) = write_at w (access db (some e)) in
        read_at g (access db' (some e)) ≡ (db', if ok then some b else none)
  through w g b kept reads =
      let f : Iface = load db (index_of db e) in
      let r : Database × Bool = written db e v h (w f) in
      subst (λ r. read_at g (access r.0 (some e)) ≡ (r.0, if r.1 then some b else none))
        (sym (write_in db e v h w))
        (read_written db e v h g (w f) (kept f)
          ∙ ap (λ x. (r.0, x))
              (reads f ∙ ap (λ c. if c then some b else none) (sym (written_ok (w f)))))

  -- A value goes through a parameter: after `WanIfCfg_SetParamBoolValue` with a handle of an interface,
  -- `WanIfCfg_GetParamBoolValue` of the same parameter gives the value, if the first one returned
  -- TRUE, and gives nothing otherwise; and so do the two functions of the validation. The reader
  -- leaves the table, and its lock, as the writer left it.
  pub read_back :
      (p : BoolParam) (q : ValidationParam) (b : Bool)
      → let (db1, ok) = set_bool db (some e) p b in
        let (db2, ok') = set_validation db (some e) q b in
        (get_bool db1 (some e) p ≡ (db1, if ok then some b else none))
        × (get_validation db2 (some e) q ≡ (db2, if ok' then some b else none))
  unfolding get_bool set_bool get_validation set_validation
  read_back p q b = (
    through (with_bool p b) (bool_value p) b (bool_kept p b) (bool_read p b),
    through (with_validation q b) (validation_value q) b (validation_kept q b)
        (validation_read q b),
  )
