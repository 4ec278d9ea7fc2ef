-- ===== src/Policy/Priority/Disturb.antt =====
-- Writes of other threads under the primary priority policy.
use rdk_wanmanager.Common.{ℕ, ◌<◌, ◌≡◌, refl, sym, subst, ◌⊎◌, inl, inr, true}
use native.Mathlib.Decide.{ℕ_discrete}
use rdk_wanmanager.Dml.{Iface}
use rdk_wanmanager.Store.Defs.{Database, load, store}
use rdk_wanmanager.Store.Lock.{IsWellFormed}
use rdk_wanmanager.Store.Pointer.{load-store_self, load-store_ne, store-IsWellFormed, store_frame}
use rdk_wanmanager.Policy.Priority.Steps.{IsDisturbance}

-- The flag is not set.
abbrev pub KeepsFlag : Iface → Iface → Type 0
KeepsFlag f g = g.wan.active_link ≡ true → f.wan.active_link ≡ true

-- At most one entry is written, and its flag is not set.
abbrev pub FlagWrite : Database → Database → Type 0
FlagWrite db db' =
    (db' ≡ db)
    ⊎ ((p : ℕ) × (p < db.total) × ((f : Iface) × (db' ≡ store db p f) × KeepsFlag (load db p) f))

module _ (db : Database) (v : IsWellFormed db) (p : ℕ) where
  own_flag :
      (f : Iface) (j : ℕ)
      → p < db.total
      → KeepsFlag (load db p) f
      → (load (store db p f) j).wan.active_link ≡ true
      → (load db j).wan.active_link ≡ true
  own_flag f j h l e = elim (ℕ_discrete p j) [
    | yes i ↦
        subst (λ x. (load db x).wan.active_link ≡ true) i
          (l (
            rw (sym (load-store_self db p f v h))
              (subst (λ x. (load (store db p f) x).wan.active_link ≡ true) (sym i) e)))
    | no n ↦ rw (sym (load-store_ne db p j f n)) e
  ]

pub FlagWrite-IsDisturbance :
    (db : Database) → IsWellFormed db → (db' : Database) → FlagWrite db db' → IsDisturbance db db'
unfolding store
FlagWrite-IsDisturbance db v db' (inl e) =
    rw e (record { well_formed = v; total = refl; no_new_flag = λ j e. e })
FlagWrite-IsDisturbance db v db' (inr (p, h, (f, e, l))) = rw e (record {
  well_formed = store-IsWellFormed db p f v;
  total = (store_frame db p f).0;
  no_new_flag = λ j e. own_flag db v p f j h l e;
})
