-- ===== src/Policy/Priority/Exclusive.antt =====
-- Primary priority: what the moves of the flag `Wan.ActiveLink` do to the table.
use rdk_wanmanager.Common.{
  ℕ, ◌<◌, ◌≡◌, refl, subst, sym, ap, ◌∙◌, ◌⊎◌, inl, inr, ◌≢◌, Bool, true, false, Option, none, some,
  ℤ, pos, minus_one, arith,
}
use native.Mathlib.Decide.{ℕ_discrete}
use rdk_wanmanager.Store.Defs.{Database, load, store}
use rdk_wanmanager.Store.Lock.{IsWellFormed}
use rdk_wanmanager.Policy.Control.{World, set_active_link}
use rdk_wanmanager.Policy.Write.{
  set_active_link-IsWellFormed, load-set_active_link, load-set_active_link_ne,
}
use rdk_wanmanager.Policy.Notions.{InRange}
use rdk_wanmanager.Policy.Priority.Defs.{clear_active}
use rdk_wanmanager.Policy.Priority.Links.{
  LinkMove, same, cleared, moved, clear_active-IsWellFormed, clear_active_total,
}

-- No interface but the active one has the flag.
abbrev pub IsExclusive : Database → ℤ → Type 0
IsExclusive db idx = (j : ℕ) → j < db.total → (load db j).wan.active_link ≡ true → idx ≡ pos j

-- The pointer and the index name the same interface.
abbrev pub Agree : ℕ → Option ℕ → ℤ → Type 0
Agree n active idx =
    ((active ≡ none) × (idx ≡ minus_one)) ⊎ ((p : ℕ) × (active ≡ some p) × (idx ≡ pos p) × (p < n))

set_flag :
    (w : World) (p j : ℕ) (b : Bool)
    → IsWellFormed w.db
    → p < w.db.total
    → (load (set_active_link w p b).db j).wan.active_link ≡ true
    → ((p ≡ j) × (b ≡ true)) ⊎ ((p ≢ j) × ((load w.db j).wan.active_link ≡ true))
set_flag w p j b v h e = elim (ℕ_discrete p j) [
  | yes i ↦ inl (
    i,
    sym (ap (λ f. f.wan.active_link) (load-set_active_link w p v b h))
        ∙ subst (λ x. (load (set_active_link w p b).db x).wan.active_link ≡ true) (sym i) e,
  )
  | no i ↦ inr (i, subst (λ f. f.wan.active_link ≡ true) (load-set_active_link_ne w p j b i) e)
]

no_flag :
    (w : World) (idx : ℤ) (j : ℕ)
    → IsExclusive w.db idx
    → idx ≡ minus_one
    → j < w.db.total
    → (load w.db j).wan.active_link ≢ true
no_flag w idx j x i h e = ground (arith, x j h e)

only_flag :
    (w : World) (idx : ℤ) (p j : ℕ)
    → IsExclusive w.db idx
    → idx ≡ pos p
    → j < w.db.total
    → (load w.db j).wan.active_link ≡ true
    → p ≡ j
only_flag w idx p j x i h e = ground (arith, x j h e)

clear_none :
    (w : World) (idx : ℤ) (active : Option ℕ) (j : ℕ)
    → active ≡ none
    → IsExclusive w.db idx
    → idx ≡ minus_one
    → j < w.db.total
    → (load (clear_active w active).db j).wan.active_link ≢ true
unfolding clear_active
clear_none w idx active j a x i h e =
    no_flag w idx j x i h (subst (λ y. (load (clear_active w y).db j).wan.active_link ≡ true) a e)

clear_some :
    (w : World) (idx : ℤ) (active : Option ℕ) (p j : ℕ)
    → active ≡ some p
    → IsWellFormed w.db
    → IsExclusive w.db idx
    → idx ≡ pos p
    → p < w.db.total
    → j < w.db.total
    → (load (clear_active w active).db j).wan.active_link ≢ true
unfolding clear_active
clear_some w idx active p j a v x i k h e =
    elim (set_flag w p j false v k
      (subst (λ y. (load (clear_active w y).db j).wan.active_link ≡ true) a e)) [
        | inl (_, t) ↦ ground arith
        | inr (n, t) ↦ n (only_flag w idx p j x i h t)
      ]

clear_all :
    (w : World) (active : Option ℕ) (idx : ℤ)
    → IsWellFormed w.db
    → Agree w.db.total active idx
    → IsExclusive w.db idx
    → (j : ℕ) → j < w.db.total
    → (load (clear_active w active).db j).wan.active_link ≢ true
clear_all w active idx v (inl (a, i)) x j h = clear_none w idx active j a x i h
clear_all w active idx v (inr (p, a, i, k)) x j h = clear_some w idx active p j a v x i k h

-- What every move leaves true.
pub record Moved (db : Database) (db' : Database) (idx' : ℤ) : Type 0 where
  pub well_formed : IsWellFormed db'
  pub total : db'.total ≡ db.total
  pub in_range : InRange db.total idx'
  pub exclusive : IsExclusive db' idx'
  pub config : db'.config ≡ db.config
  pub iface_mutex : db'.iface_mutex ≡ db.iface_mutex
  pub config_mutex : db'.config_mutex ≡ db.config_mutex

Agree-InRange : (n : ℕ) (active : Option ℕ) (idx : ℤ) → Agree n active idx → InRange n idx
Agree-InRange n active idx (inl (a, i)) = inl i
Agree-InRange n active idx (inr (p, a, i, k)) = inr (p, i, k)

clear_config :
    (w : World) (active : Option ℕ)
    → ((clear_active w active).db.config ≡ w.db.config)
      × ((clear_active w active).db.iface_mutex ≡ w.db.iface_mutex)
      × ((clear_active w active).db.config_mutex ≡ w.db.config_mutex)
unfolding clear_active store
clear_config w none = (refl, refl, refl)
clear_config w (some a) = (refl, refl, refl)

module _ (w : World) (active : Option ℕ) (idx : ℤ) (v : IsWellFormed w.db)
    (a : Agree w.db.total active idx) (x : IsExclusive w.db idx) where
  clear_active-Moved : Moved w.db (clear_active w active).db minus_one
  clear_active-Moved = record {
    well_formed = clear_active-IsWellFormed w active v;
    total = clear_active_total w active;
    in_range = inl refl;
    exclusive = λ j h e.
        absurd (clear_all w active idx v a x j (omega (arith, clear_active_total w active, h)) e);
    config = (clear_config w active).0;
    iface_mutex = (clear_config w active).1;
    config_mutex = (clear_config w active).2;
  }

  moved_exclusive :
      (q j : ℕ)
      → q < w.db.total
      → j < w.db.total
      → (load (set_active_link (clear_active w active) q true).db j).wan.active_link ≡ true
      → pos q ≡ pos j
  moved_exclusive q j h k e =
      elim (set_flag (clear_active w active) q j true (clear_active-IsWellFormed w active v)
        (omega (arith, clear_active_total w active, h)) e) [
          | inl (i, _) ↦ ap pos i
          | inr (_, t) ↦ absurd (clear_all w active idx v a x j k t)
        ]

  set_active_link-Moved :
      (q : ℕ)
      → q < w.db.total
      → Moved w.db (set_active_link (clear_active w active) q true).db (pos q)
  unfolding store
  set_active_link-Moved q h = record {
    well_formed =
        set_active_link-IsWellFormed (clear_active w active) q
          (clear_active-IsWellFormed w active v) true;
    total = clear_active_total w active;
    in_range = inr (q, refl, h);
    exclusive = λ j k e. moved_exclusive q j h (omega (arith, clear_active_total w active, k)) e;
    config = (clear_config w active).0;
    iface_mutex = (clear_config w active).1;
    config_mutex = (clear_config w active).2;
  }

  pub move-Moved :
      (db' : Database) (idx' : ℤ) → LinkMove w active idx db' idx' → Moved w.db db' idx'
  move-Moved db' idx' (same e i) =
      subst (λ y. Moved w.db y idx') (sym e)
        (subst (λ y. Moved w.db w.db y) (sym i)
          (record {
            well_formed = v;
            total = refl;
            in_range = Agree-InRange _ active idx a;
            exclusive = x;
            config = refl;
            iface_mutex = refl;
            config_mutex = refl;
          }))
  move-Moved db' idx' (cleared e i) =
      subst (λ y. Moved w.db y idx') (sym e)
        (subst (λ y. Moved w.db (clear_active w active).db y) (sym i) clear_active-Moved)
  move-Moved db' idx' (moved q h e i) =
      subst (λ y. Moved w.db y idx') (sym e)
        (subst (λ y. Moved w.db (set_active_link (clear_active w active) q true).db y) (sym i)
          (set_active_link-Moved q h))
