-- ===== src/Store/Lookup.antt =====
-- The look-up by name, the start and the end of source/WanManager/wanmgr_data.c.
use rdk_wanmanager.Common.{
  ℕ, zero, suc, ◌+◌, ◌≤◌, ◌<◌, ◌≡◌, refl, subst, Bool, true, false, Option, none, some, arith,
  if◌then◌else◌,
}
use native.Mathlib.Decide.{ℕ_discrete}
use rdk_wanmanager.Dml.{CString, str_eq}
use rdk_wanmanager.Store.Defs.{
  Database, load, find_by_name, found_or_released, get_by_name_of, get_iface_data_by_name_locked,
  get_iface_ctrl_locked, iface_ctrl_release, data_init, data_delete, set_iface_ctrl_default,
  set_config_data_default, iface_ctrl_delete, get_config_data_locked, get_iface_data_locked,
}
use rdk_wanmanager.Store.Lock.{IsWellFormed, held}

-- Entry `j` has the name `name` in `Wan.Name`.
abbrev pub has_name : Database → CString → ℕ → Bool
has_name db name j = str_eq name (load db j).wan.name

-- `p` is the first of the entries from `i` to `n` with the name.
pub record IsFirst (db : Database) (name : CString) (i n p : ℕ) : Type 0 where
  pub from : i ≤ p
  pub below : p < n
  pub named : has_name db name p ≡ true
  pub first : (j : ℕ) → i ≤ j → j < p → has_name db name j ≡ false

-- What a search over the entries from `i` to `n` may answer.
abbrev pub Answer : Database → CString → ℕ → ℕ → Option ℕ → Type 0
Answer db name i n none = (j : ℕ) → i ≤ j → j < n → has_name db name j ≡ false
Answer db name i n (some p) = IsFirst db name i n p

skip_head :
    (db : Database) (name : CString) (i n : ℕ)
    → has_name db name i ≡ false
    → ((j : ℕ) → i + 1 ≤ j → j < n → has_name db name j ≡ false)
    → (j : ℕ) → i ≤ j
    → j < n
    → has_name db name j ≡ false
skip_head db name i n e a j h k = elim (ℕ_discrete i j) [
  | yes q ↦ subst (λ x. has_name db name x ≡ false) q e
  | no q ↦ a j (omega arith) k
]

Answer-skip :
    (db : Database) (name : CString) (i n : ℕ) (r : Option ℕ)
    → has_name db name i ≡ false
    → Answer db name (i + 1) n r
    → Answer db name i n r
Answer-skip db name i n none e a = skip_head db name i n e a
Answer-skip db name i n (some p) e a = record {
  from = omega (arith, a.from);
  below = a.below;
  named = a.named;
  first = skip_head db name i p e a.first;
}

Answer-if :
    (db : Database) (name : CString) (i n : ℕ) (r : Option ℕ) (b : Bool)
    → has_name db name i ≡ b
    → i < n
    → Answer db name (i + 1) n r
    → Answer db name i n (if b then some i else r)
Answer-if db name i n r true e h a = record {
  from = omega arith;
  below = h;
  named = e;
  first = λ j k l. ground arith;
}
Answer-if db name i n r false e h a = Answer-skip db name i n r e a

find_by_name_lem :
    (db : Database) (name : CString) (rounds i n : ℕ)
    → i + rounds ≡ n
    → Answer db name i n (find_by_name db name rounds i)
unfolding find_by_name
find_by_name_lem db name zero i n e = λ j h k. ground arith
find_by_name_lem db name (suc rounds) i n e =
    Answer-if db name i n (find_by_name db name rounds (i + 1)) (has_name db name i) refl
      (omega arith) (find_by_name_lem db name rounds (i + 1) n (omega arith))

-- What the caller gets: the table as it was and no entry, or the table locked and an entry.
abbrev pub Locked : Database → Option ℕ → Database → Type 0
Locked db none db' = db' ≡ db
Locked db (some p) db' = db' ≡ held db

none_allocated : (db : Database) (name : CString) (n : ℕ) → n ≡ 0 → find_by_name db name n 0 ≡ none
unfolding find_by_name
none_allocated db name zero e = refl
none_allocated db name (suc n) e = ground arith

by_name_lem :
    (db : Database) (name : CString)
    → IsWellFormed db
    → get_iface_data_by_name_locked db name
      ≡ found_or_released (held db) (find_by_name (held db) name db.total 0)
unfolding get_iface_data_by_name_locked get_by_name_of found_or_released get_iface_ctrl_locked
    iface_ctrl_release
by_name_lem db name v = ground (arith, none_allocated (held db) name db.total)

found_or_released_lem :
    (db : Database) (name : CString) (r : Option ℕ)
    → Answer db name 0 db.total r
    → let (db', q) = found_or_released (held db) r in
      (q ≡ r) × Answer db name 0 db.total q × Locked db q db'
unfolding found_or_released iface_ctrl_release
found_or_released_lem db name none a = (refl, a, refl)
found_or_released_lem db name (some p) a = (refl, a, refl)

held-Answer :
    (db : Database) (name : CString) (n : ℕ) (r : Option ℕ)
    → Answer (held db) name 0 n r
    → Answer db name 0 n r
unfolding load
held-Answer db name n none a = a
held-Answer db name n (some p) a = record {
  from = a.from;
  below = a.below;
  named = a.named;
  first = a.first;
}

-- `WanMgr_GetIfaceDataByName_locked` gives the first entry with the name, with the table locked
-- once more; or nothing, with the table as it was, if no entry has the name.
pub by_name_first :
    (db : Database) (name : CString)
    → IsWellFormed db
    → let (db', r) = get_iface_data_by_name_locked db name in
      Answer db name 0 db.total r × Locked db r db'
by_name_first db name v = rw (by_name_lem db name v) (
    let (_, a, l) = found_or_released_lem db name (find_by_name (held db) name db.total 0) (
      held-Answer db name db.total _
        (find_by_name_lem (held db) name db.total 0 db.total (omega arith))) in
    (a, l))

-- `WanMgr_Data_Init` makes a well-formed database with no interface, in which no look-up finds one.
data_init-IsWellFormed :
    (db : Database)
    → let db' = (data_init db) in
      IsWellFormed db'
      × ((i : ℕ) → get_iface_data_locked db' i ≡ (db', none))
      × ((name : CString) → get_iface_data_by_name_locked db' name ≡ (db', none))
unfolding data_init get_iface_data_locked get_iface_data_by_name_locked get_by_name_of
    found_or_released get_iface_ctrl_locked iface_ctrl_release find_by_name set_iface_ctrl_default
    set_config_data_default
data_init-IsWellFormed db =
    (record { backed = refl; small = omega arith; usable = refl }, λ i. ground arith, λ name. refl)

-- After `WanMgr_Data_Delete` no getter gives a pointer, and none of them locks anything.
data_delete_locked :
    (db : Database)
    → let db' = (data_delete db).0 in
      (get_config_data_locked db' ≡ none)
      × (get_iface_ctrl_locked db' ≡ none)
      × ((i : ℕ) → get_iface_data_locked db' i ≡ (db', none))
      × ((name : CString) → get_iface_data_by_name_locked db' name ≡ (db', none))
unfolding data_delete get_config_data_locked get_iface_data_locked get_iface_data_by_name_locked
    get_by_name_of found_or_released get_iface_ctrl_locked iface_ctrl_release iface_ctrl_delete
data_delete_locked db = (refl, refl, λ i. refl, λ name. refl)
