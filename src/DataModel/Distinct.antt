-- ===== src/DataModel/Distinct.antt =====
-- The checks of priority and type in the data model's setters.
use rdk_wanmanager.Common.{
  ℕ, ◌≤◌, ◌<◌, ◌≡◌, ◌≢◌, refl, sym, ap, ◌∙◌, subst, inl, inr, Bool, true, false, some,
  if◌then◌else◌, ℤ, pos, negsuc, eqb_ℤ, to_int, to_int_small, arith,
}
use native.Mathlib.Decide.{ℕ_discrete}
use rdk_wanmanager.Dml.{IfaceType, Iface}
use rdk_wanmanager.Store.Defs.{
  Database, load, store, get_iface_ctrl_locked, iface_ctrl_release, iface_data_release,
}
use rdk_wanmanager.Store.Lock.{IsWellFormed, held}
use rdk_wanmanager.Store.Pointer.{load-store_self, load-store_ne}
use rdk_wanmanager.Net.Conflict.{
  eqb_type, priority_then_type, check_given_priority_exists, check_given_type_exists,
}
use rdk_wanmanager.Net.Search.{
  conflicts, Verdict, check_priority-Verdict, check_type-check_priority,
}
use rdk_wanmanager.DataModel.Config.{access, entry_count, entry_count_of}
use rdk_wanmanager.DataModel.Numbers.{
  IntParam, with_priority, with_type, write_checked, set_int_at, set_int, UlongSetting, set_type_at,
  set_ulong_at, set_ulong,
}
use rdk_wanmanager.DataModel.RoundTrip.{index_of, access_in}

-- Every entry holds its own index, as `WanMgr_IfaceData_Init` writes it.
abbrev pub IsIndexed : Database → Type 0
IsIndexed db = (k : ℕ) → k < db.total → index_of db k ≡ k

-- Two interfaces of the same type with the same priority.
abbrev pub Clash : Database → ℕ → ℕ → Type 0
Clash db a b =
    ((load db a).wan.priority ≡ (load db b).wan.priority)
    × ((load db a).wan.type ≡ (load db b).wan.type)

eqb_type_refl : (t : IfaceType) → eqb_type t t ≡ true
eqb_type_refl IfaceType.unconfigured = refl
eqb_type_refl IfaceType.primary = refl
eqb_type_refl IfaceType.secondary = refl

eqb_ℤ_refl : (x : ℤ) → eqb_ℤ x x ≡ true
eqb_ℤ_refl (pos a) = ground arith
eqb_ℤ_refl (negsuc a) = ground arith

other : (b e : ℕ) → e ≢ b → eqb_ℤ (pos b) (pos e) ≡ false
other b e n = ground arith

-- Another interface with the priority and the type is found.
found :
    (db : Database) (e b : ℕ) (x : ℤ) (t : IfaceType)
    → e ≢ b
    → (load db b).wan.priority ≡ x
    → (load db b).wan.type ≡ t
    → conflicts (priority_then_type x t) (pos e) db b ≡ true
found db e b x t n p q =
    rw (other b e n) (rw p (rw q (rw (eqb_ℤ_refl x) (rw (eqb_type_refl t) refl))))

module _ (db : Database) (e : ℕ) (f : Iface) (v : IsWellFormed db) (h : e < db.total)
    (c : (j : ℕ)
      → 0 ≤ j
      → j < db.total
      → conflicts (priority_then_type f.wan.priority f.wan.type) (pos e) db j ≡ false) where
  -- The new interface clashes with no other one.
  apart :
      (b : ℕ)
      → b < db.total
      → e ≢ b
      → f.wan.priority ≡ (load db b).wan.priority
      → f.wan.type ≡ (load db b).wan.type
      → ⊥
  apart b l n p q =
      let t = found db e b f.wan.priority f.wan.type n (sym p) (sym q) in
      ground (arith, c b (omega arith) l, t)

  own_entry : (a : ℕ) → e ≡ a → load (store db e f) a ≡ f
  own_entry a i = subst (λ x. load (store db e f) x ≡ f) i (load-store_self db e f v h)

  -- With the new interface on one side there is no clash.
  own-Clash : (a b : ℕ) → b < db.total → e ≡ a → a ≢ b → Clash (store db e f) a b → ⊥
  own-Clash a b l i n (p, q) =
      let m : e ≢ b = λ t. n (sym i ∙ t) in
      let pa : f ≡ load (store db e f) a = sym (own_entry a i) in
      let pb : load (store db e f) b ≡ load db b = load-store_ne db e b f m in
      apart b l m (ap (λ f. f.wan.priority) pa ∙ p ∙ ap (λ f. f.wan.priority) pb)
        (ap (λ f. f.wan.type) pa ∙ q ∙ ap (λ f. f.wan.type) pb)

  Clash-store :
      (a b : ℕ) → a < db.total → b < db.total → a ≢ b → Clash (store db e f) a b → Clash db a b
  Clash-store a b k l n (p, q) = elim (ℕ_discrete e a) [
    | yes i ↦ absurd (own-Clash a b l i n (p, q))
    | no i ↦ elim (ℕ_discrete e b) [
      | yes j ↦ absurd (own-Clash b a k j (λ t. n (sym t)) (sym p, sym q))
      | no j ↦
          let pa : load db a ≡ load (store db e f) a = sym (load-store_ne db e a f i) in
          let pb : load (store db e f) b ≡ load db b = load-store_ne db e b f j in
          (
            ap (λ f. f.wan.priority) pa ∙ p ∙ ap (λ f. f.wan.priority) pb,
            ap (λ f. f.wan.type) pa ∙ q ∙ ap (λ f. f.wan.type) pb,
          )
    ]
  ]

-- A check that succeeds, and the write after it.
checked :
    (db : Database) (e : ℕ) (g : Iface → Iface) (z : Database → Database × Bool)
    → access db (some e) ≡ (held db, some e)
    → (d : Database) (exists success : Bool) → d ≡ db
    → success ≡ true
    → (if success
        then (if exists then (d, false) else write_checked g e (access d (some e)))
        else z d)
      ≡ (if exists then (db, false) else (store db e (g (load db e)), true))
unfolding write_checked load iface_data_release store
checked db e g z i d true true p q = ap (λ d. (d, false)) p
checked db e g z i d false true p q =
    ap (λ d. write_checked g e (access d (some e))) p ∙ ap (write_checked g e) i
checked db e g z i d exists false p q = ground arith

pub entry_count_lem : (db : Database) → IsWellFormed db → entry_count db ≡ (db, db.total)
unfolding entry_count entry_count_of get_iface_ctrl_locked iface_ctrl_release
entry_count_lem db v = ground arith

module _ (db : Database) (e : ℕ) (v : IsWellFormed db) (n : IsIndexed db) (h : e < db.total) where
  access_own : access db (some e) ≡ (held db, some e)
  access_own =
      subst (λ i. access db (some e) ≡ (held db, some i)) (n e h)
        (access_in db e v (subst (λ i. i < db.total) (sym (n e h)) h))

  own_index : to_int (index_of db e) ≡ pos e
  own_index = ap to_int (n e h) ∙ to_int_small e (omega (arith, v.small, h))

  -- The outcome of a checked write.
  abbrev pub written_unless : (Iface → Iface) → Bool → Database × Bool
  written_unless g exists = if exists then (db, false) else (store db e (g (load db e)), true)

  positive : 0 < db.total
  positive = omega (arith, h)

  -- The rest of a checked write, after the check.
  abbrev finish :
      (Iface → Iface) → (Database → Database × Bool) → Database × Bool × Bool → Database × Bool
  finish g z r =
      if r.2 then (if r.1 then (r.0, false) else write_checked g e (access r.0 (some e))) else z r.0

  set_int_lem :
      (x : ℤ)
      → set_int db (some e) IntParam.priority x
        ≡ written_unless
            (with_priority x)
            ((check_given_priority_exists (pos e) db.total x (load db e).wan.type db false).1)
  unfolding set_int set_int_at iface_data_release load
  set_int_lem x =
      let t : IfaceType = (load db e).wan.type in
      let z : Database → Database × Bool = λ d. (d, false) in
      let r : Database × Bool × Bool = check_given_priority_exists (pos e) db.total x t db false in
      let (d, s, _) = check_priority-Verdict (pos e) x t db false v positive in
      ap (set_int_at (some e) IntParam.priority x) access_own
      ∙ ap
          (λ c.
            finish (with_priority x) z
              (check_given_priority_exists (to_int (index_of db e)) c.1 x t c.0 false))
          (entry_count_lem db v)
      ∙ ap (λ i. finish (with_priority x) z (check_given_priority_exists i db.total x t db false))
          own_index
      ∙ checked db e (with_priority x) z access_own r.0 r.1 r.2 d s

  set_type_lem :
      (t : IfaceType)
      → set_ulong db (some e) (UlongSetting.type t)
        ≡ written_unless
            (with_type t)
            ((check_given_priority_exists (pos e) db.total (load db e).wan.priority t db false).1)
  unfolding set_ulong set_ulong_at set_type_at iface_data_release load
  set_type_lem t =
      let x : ℤ = (load db e).wan.priority in
      let z : Database → Database × Bool = λ d. (iface_data_release d, false) in
      let r : Database × Bool × Bool = check_given_priority_exists (pos e) db.total x t db false in
      let (d, s, _) = check_priority-Verdict (pos e) x t db false v positive in
      ap (set_ulong_at (some e) (UlongSetting.type t)) access_own
      ∙ ap
          (λ c.
            finish (with_type t) z
              (check_given_type_exists (to_int (index_of db e)) c.1 t x c.0 false))
          (entry_count_lem db v)
      ∙ ap (λ i. finish (with_type t) z (check_given_type_exists i db.total t x db false)) own_index
      ∙ ap (finish (with_type t) z) (check_type-check_priority (pos e) db.total x t db false)
      ∙ checked db e (with_type t) z access_own r.0 r.1 r.2 d s

-- No two interfaces of the same type have the same priority.
pub record IsDistinct (db : Database) : Type 0 where
  pub distinct : (a b : ℕ) → a < db.total → b < db.total → a ≢ b → Clash db a b → ⊥

module _ (db : Database) (e : ℕ) (v : IsWellFormed db) (n : IsIndexed db) (h : e < db.total)
    (k : IsDistinct db) where
  store-IsDistinct :
      (f : Iface)
      → Verdict (priority_then_type f.wan.priority f.wan.type) (pos e) db 0 db.total false false
      → IsDistinct (store db e f)
  unfolding store
  store-IsDistinct f (inl (s, _)) = ground arith
  store-IsDistinct f (inr (s, c)) = record {
    distinct = λ a b l m d x. k.distinct a b l m d (Clash-store db e f v h c a b l m d x);
  }

  written-IsDistinct :
      (g : Iface → Iface) (s : Bool)
      → Verdict
          (priority_then_type (g (load db e)).wan.priority (g (load db e)).wan.type)
          (pos e)
          db
          0
          db.total
          false
          s
      → IsDistinct (written_unless db e v n h g s).0
  written-IsDistinct g true c = k
  written-IsDistinct g false c = store-IsDistinct (g (load db e)) c

  -- The data model keeps priorities apart: on a well-formed table whose entries hold their own
  -- indices, if no two interfaces of the same type have the same priority, then neither
  -- `WanIfCfg_SetParamIntValue` of a priority nor `WanIfCfg_SetParamUlongValue` of a type makes two
  -- such interfaces, whatever the value and whichever the interface.
  pub setters-IsDistinct :
      (x : ℤ) (t : IfaceType)
      → IsDistinct (set_int db (some e) IntParam.priority x).0
        × IsDistinct (set_ulong db (some e) (UlongSetting.type t)).0
  setters-IsDistinct x t =
      let f : Iface = load db e in
      let (_, _, c) =
        check_priority-Verdict (pos e) x f.wan.type db false v (positive db e v n h) in
      let (_, _, d) =
        check_priority-Verdict (pos e) f.wan.priority t db false v (positive db e v n h) in
      (
        subst (λ r. IsDistinct r.0) (sym (set_int_lem db e v n h x))
            (written-IsDistinct (with_priority x) _ c),
        subst (λ r. IsDistinct r.0) (sym (set_type_lem db e v n h t))
            (written-IsDistinct (with_type t) _ d),
      )
