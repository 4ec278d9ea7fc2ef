-- ===== src/DataModel/Setters.antt =====
-- The data model's setters and the flag `Wan.ActiveLink`.
use rdk_wanmanager.Common.{
  ℕ, ◌<◌, ◌≡◌, refl, sym, ap, ◌∙◌, subst, ◌⊎◌, inl, inr, Bool, true, false, not, Option, none, some,
  if◌then◌else◌, ℤ, to_int, arith,
}
use rdk_wanmanager.Dml.{IfaceType, Iface}
use rdk_wanmanager.Store.Defs.{Database, load, store, iface_data_release}
use rdk_wanmanager.Store.Lock.{IsWellFormed, held, get_iface_data_locked_cases}
use rdk_wanmanager.Policy.Priority.Disturb.{KeepsFlag, FlagWrite}
use rdk_wanmanager.DataModel.Config.{
  access, write_new, write_at, BoolParam, with_bool, set_bool, ValidationParam, with_validation,
  set_validation,
}
use rdk_wanmanager.DataModel.Numbers.{
  IntParam, with_priority, with_type, write_checked, set_int_at, set_int, UlongSetting, set_type_at,
  set_ulong_at, set_ulong, PhySetting, with_phy, set_phy,
}
use rdk_wanmanager.DataModel.Distinct.{entry_count_lem}
use rdk_wanmanager.Net.Conflict.{check_given_priority_exists, check_given_type_exists}
use rdk_wanmanager.Net.Search.{check_priority-Verdict, check_type-check_priority}

access_cases :
    (db : Database) (e : Option ℕ)
    → (access db e ≡ (db, none)) ⊎ ((p : ℕ) × (access db e ≡ (held db, some p)) × (p < db.total))
unfolding access
access_cases db none = inl refl
access_cases db (some e) = elim (get_iface_data_locked_cases db (load db e).iface_idx) [
  | inl i ↦ inl i
  | inr (i, h) ↦ inr ((load db e).iface_idx, i, h)
]

-- What a write may do to the interface.
abbrev pub KeepsIf : Iface → Option Iface → Type 0
KeepsIf f none = Unit {0}
KeepsIf f (some g) = KeepsFlag f g

module _ (db : Database) where
  write_new-FlagWrite :
      (p : ℕ) (o : Option Iface)
      → p < db.total
      → KeepsIf (load db p) o
      → FlagWrite db (write_new (held db) p o).0
  unfolding write_new iface_data_release store
  write_new-FlagWrite p none h k = inl refl
  write_new-FlagWrite p (some f) h k = inr (p, h, (f, refl, k))

  write_at-FlagWrite :
      (w : Iface → Option Iface) (e : Option ℕ)
      → ((f : Iface) → KeepsIf f (w f))
      → FlagWrite db (write_at w (access db e)).0
  unfolding write_at load
  write_at-FlagWrite w e k = elim (access_cases db e) [
    | inl i ↦ inl (ap (λ a. (write_at w a).0) i)
    | inr (p, i, h) ↦
        subst (λ a. FlagWrite db (write_at w a).0) (sym i)
          (write_new-FlagWrite p (w (load db p)) h (k (load db p)))
  ]

  checked-FlagWrite :
      (g : Iface → Iface) (p : ℕ) (e : Option ℕ)
      → p < db.total
      → KeepsFlag (load db p) (g (load db p))
      → FlagWrite db (write_checked g p (access db e)).0
  unfolding write_checked iface_data_release store load
  checked-FlagWrite g p e h k = elim (access_cases db e) [
    | inl i ↦ inl (ap (λ a. (write_checked g p a).0) i)
    | inr (q, i, l) ↦
        subst (λ a. FlagWrite db (write_checked g p a).0) (sym i)
          (inr (p, h, (g (load db p), refl, k)))
  ]

  -- The rest of a checked write.
  rest-FlagWrite :
      (g : Iface → Iface) (z : Database → Database × Bool) (p : ℕ) (e : Option ℕ)
      → p < db.total
      → KeepsFlag (load db p) (g (load db p))
      → (d : Database) (exists success : Bool) → d ≡ db
      → success ≡ true
      → FlagWrite db
          (if success
            then (if exists then (d, false) else write_checked g p (access d e))
            else z d).0
  rest-FlagWrite g z p e h k d true true i s = inl i
  rest-FlagWrite g z p e h k d false true i s =
      subst (λ d. FlagWrite db (write_checked g p (access d e)).0) (sym i)
        (checked-FlagWrite g p e h k)
  rest-FlagWrite g z p e h k d exists false i s = ground arith

-- What follows the result of a check.
abbrev finish :
    Option ℕ
    → (Iface → Iface)
    → (Database → Database × Bool)
    → ℕ
    → Database × Bool × Bool
    → Database × Bool
finish e g z p r =
    if r.2 then (if r.1 then (r.0, false) else write_checked g p (access r.0 e)) else z r.0

module _ (db : Database) (v : IsWellFormed db) (e : Option ℕ) where
  priority-FlagWrite :
      (x : ℤ) (p : ℕ)
      → p < db.total
      → FlagWrite db (set_int_at e IntParam.priority x (held db, some p)).0
  unfolding set_int_at iface_data_release load
  priority-FlagWrite x p h =
      let f : Iface = load db p in
      let r : Database × Bool × Bool =
        check_given_priority_exists (to_int f.iface_idx) db.total x f.wan.type db false in
      let (d, s, _) =
        check_priority-Verdict (to_int f.iface_idx) x f.wan.type db false v (omega (arith, h)) in
      let z : Database → Database × Bool = λ d. (d, false) in
      subst
        (λ c.
          FlagWrite db
            (finish e (with_priority x) z p
              (check_given_priority_exists (to_int f.iface_idx) c.1 x f.wan.type c.0 false)).0)
        (sym (entry_count_lem db v))
        (rest-FlagWrite db (with_priority x) z p e h (λ a. a) r.0 r.1 r.2 d s)

  type-FlagWrite :
      (t : IfaceType) (p : ℕ) → p < db.total → FlagWrite db (set_type_at e t (held db) p).0
  unfolding set_type_at iface_data_release load
  type-FlagWrite t p h =
      let f : Iface = load db p in
      let r : Database × Bool × Bool =
        check_given_type_exists (to_int f.iface_idx) db.total t f.wan.priority db false in
      let same =
        check_type-check_priority (to_int f.iface_idx) db.total f.wan.priority t db false in
      let (d, s, _) =
        check_priority-Verdict (to_int f.iface_idx) f.wan.priority t db false v
          (omega (arith, h)) in
      let z : Database → Database × Bool = λ d. (iface_data_release d, false) in
      subst
        (λ c.
          FlagWrite db
            (finish e (with_type t) z p
              (check_given_type_exists (to_int f.iface_idx) c.1 t f.wan.priority c.0 false)).0)
        (sym (entry_count_lem db v))
        (rest-FlagWrite db (with_type t) z p e h (λ a. a) r.0 r.1 r.2 (ap (λ r. r.0) same ∙ d)
          (ap (λ r. r.2) same ∙ s))

  int_at-FlagWrite :
      (param : IntParam) (x : ℤ) (p : ℕ)
      → p < db.total
      → FlagWrite db (set_int_at e param x (held db, some p)).0
  unfolding set_int_at iface_data_release
  int_at-FlagWrite IntParam.priority x p h = priority-FlagWrite x p h
  int_at-FlagWrite IntParam.unknown x p h = inl refl

  ulong_at-FlagWrite :
      (u : UlongSetting) (p : ℕ)
      → p < db.total
      → FlagWrite db (set_ulong_at e u (held db, some p)).0
  unfolding set_ulong_at iface_data_release store load
  ulong_at-FlagWrite (UlongSetting.selection_timeout n) p h = inr (p, h, (_, refl, λ a. a))
  ulong_at-FlagWrite (UlongSetting.type t) p h = type-FlagWrite t p h
  ulong_at-FlagWrite (UlongSetting.link_status l) p h = inr (p, h, (_, refl, λ a. a))
  ulong_at-FlagWrite UlongSetting.unknown p h = inl refl

  set_int-FlagWrite : (param : IntParam) (x : ℤ) → FlagWrite db (set_int db e param x).0
  unfolding set_int set_int_at iface_data_release
  set_int-FlagWrite param x = elim (access_cases db e) [
    | inl i ↦ inl (ap (λ a. (set_int_at e param x a).0) i)
    | inr (p, i, h) ↦
        subst (λ a. FlagWrite db (set_int_at e param x a).0) (sym i) (int_at-FlagWrite param x p h)
  ]

  set_ulong-FlagWrite : (u : UlongSetting) → FlagWrite db (set_ulong db e u).0
  unfolding set_ulong set_ulong_at
  set_ulong-FlagWrite u = elim (access_cases db e) [
    | inl i ↦ inl (ap (λ a. (set_ulong_at e u a).0) i)
    | inr (p, i, h) ↦
        subst (λ a. FlagWrite db (set_ulong_at e u a).0) (sym i) (ulong_at-FlagWrite u p h)
  ]

-- A call of a setter, other than one that sets `Wan.ActiveLink`.
abbrev pub keeps_flag : BoolParam → Bool → Bool
keeps_flag BoolParam.active_link b = not b
keeps_flag BoolParam.enable b = true
keeps_flag BoolParam.refresh b = true
keeps_flag BoolParam.enable_dslite b = true
keeps_flag BoolParam.enable_ipoe b = true
keeps_flag BoolParam.enable_mapt b = true
keeps_flag BoolParam.unknown b = true

pub data Call : Type 0 where
  sets_bool : (p : BoolParam) (b : Bool) → keeps_flag p b ≡ true → Call
  sets_validation : ValidationParam → Bool → Call
  sets_int : IntParam → ℤ → Call
  sets_ulong : UlongSetting → Call
  sets_phy : PhySetting → Call

abbrev pub call_setter : Call → Option ℕ → Database → Database
call_setter (sets_bool p b k) e db = (set_bool db e p b).0
call_setter (sets_validation p b) e db = (set_validation db e p b).0
call_setter (sets_int p x) e db = (set_int db e p x).0
call_setter (sets_ulong u) e db = (set_ulong db e u).0
call_setter (sets_phy u) e db = (set_phy db e u).0

with_bool-KeepsIf :
    (p : BoolParam) (b : Bool) → keeps_flag p b ≡ true → (f : Iface) → KeepsIf f (with_bool p b f)
with_bool-KeepsIf BoolParam.active_link true k f = ground arith
with_bool-KeepsIf BoolParam.active_link false k f = λ a. ground arith
with_bool-KeepsIf BoolParam.enable b k f = λ a. a
with_bool-KeepsIf BoolParam.refresh b k f = λ a. a
with_bool-KeepsIf BoolParam.enable_dslite b k f = λ a. a
with_bool-KeepsIf BoolParam.enable_ipoe b k f = λ a. a
with_bool-KeepsIf BoolParam.enable_mapt b k f = λ a. a
with_bool-KeepsIf BoolParam.unknown b k f = tt

with_validation-KeepsIf :
    (p : ValidationParam) (b : Bool) (f : Iface) → KeepsIf f (with_validation p b f)
with_validation-KeepsIf ValidationParam.discover_offer b f = λ a. a
with_validation-KeepsIf ValidationParam.solicit_advertise b f = λ a. a
with_validation-KeepsIf ValidationParam.rs_ra b f = λ a. a
with_validation-KeepsIf ValidationParam.padi_pado b f = λ a. a
with_validation-KeepsIf ValidationParam.unknown b f = tt

with_phy-KeepsIf : (u : PhySetting) (f : Iface) → KeepsIf f (with_phy u f)
with_phy-KeepsIf (PhySetting.status s) f = λ a. a
with_phy-KeepsIf PhySetting.unknown f = tt

pub call_setter-FlagWrite :
    (db : Database)
    → IsWellFormed db
    → (c : Call) (e : Option ℕ) → FlagWrite db (call_setter c e db)
unfolding set_bool set_validation set_phy
call_setter-FlagWrite db v (sets_bool p b k) e =
    write_at-FlagWrite db (with_bool p b) e (with_bool-KeepsIf p b k)
call_setter-FlagWrite db v (sets_validation p b) e =
    write_at-FlagWrite db (with_validation p b) e (with_validation-KeepsIf p b)
call_setter-FlagWrite db v (sets_int p x) e = set_int-FlagWrite db v e p x
call_setter-FlagWrite db v (sets_ulong u) e = set_ulong-FlagWrite db v e u
call_setter-FlagWrite db v (sets_phy u) e =
    write_at-FlagWrite db (with_phy u) e (with_phy-KeepsIf u)
