-- ===== src/Net/Search.antt =====
-- The two checks find a conflict exactly if there is one, and leave the table as it was.
use native.Mathlib.Decide.{ℕ_discrete}
use mathlib.Core.Path.{fun_ext}
use rdk_wanmanager.Common.{
  ℕ, zero, suc, ◌+◌, ◌≤◌, ◌<◌, ◌≡◌, refl, ap, subst, ◌⊎◌, inl, inr, Bool, true, false, not, ◌&&◌,
  if◌then◌else◌, ◌==◌, ℤ, pos, eqb_ℤ, arith,
}
use rdk_wanmanager.Dml.{IfaceType, Iface}
use rdk_wanmanager.Store.Defs.{Database, load, get_iface_data_locked, iface_data_release}
use rdk_wanmanager.Store.Lock.{IsWellFormed, get_iface_data_locked_in}
use rdk_wanmanager.Net.Conflict.{
  eqb_type, priority_then_type, type_then_priority, conflict_entry, conflict_loop, check_conflict,
  check_given_priority_exists, check_given_type_exists,
}

-- Entry `j` is another interface than `if_index`, and passes the test.
abbrev pub conflicts : (Iface → Bool) → ℤ → Database → ℕ → Bool
conflicts hit if_index db j = not (eqb_ℤ (pos j) if_index) && hit (load db j)

-- What the search over the entries from `i` to `n` gives for `*Status`, which was `status`.
abbrev pub Verdict : (Iface → Bool) → ℤ → Database → ℕ → ℕ → Bool → Bool → Type 0
Verdict hit if_index db i n status s =
    ((s ≡ true) × ((j : ℕ) × (i ≤ j) × (j < n) × (conflicts hit if_index db j ≡ true)))
    ⊎ ((s ≡ status) × ((j : ℕ) → i ≤ j → j < n → conflicts hit if_index db j ≡ false))

entry_lem :
    (hit : Iface → Bool) (if_index : ℤ) (db : Database) (i : ℕ)
    → IsWellFormed db
    → i < db.total
    → conflict_entry hit if_index i (get_iface_data_locked db i) ≡ (db, conflicts hit if_index db i)
unfolding conflict_entry load iface_data_release
entry_lem hit if_index db i v h = rw (get_iface_data_locked_in db i v h)

module _ (hit : Iface → Bool) (if_index : ℤ) (db : Database) (status : Bool) where
  Verdict-step :
      (i n : ℕ) (b : Bool) (rest : Database × Bool)
      → conflicts hit if_index db i ≡ b
      → i < n
      → (rest.0 ≡ db) × Verdict hit if_index db (i + 1) n status rest.1
      → let (db', s) = if b then (db, true) else rest in
        (db' ≡ db) × Verdict hit if_index db i n status s
  Verdict-step i n true rest e h r = (refl, inl (refl, (i, omega arith, h, e)))
  Verdict-step i n false rest e h (d, inl (s, (j, k, l, c))) = (d, inl (s, (j, omega arith, l, c)))
  Verdict-step i n false rest e h (d, inr (s, a)) = (
    d,
    inr (
      s,
      λ j k l. elim (ℕ_discrete i j) [
        | yes q ↦ subst (λ x. conflicts hit if_index db x ≡ false) q e
        | no q ↦ a j (omega arith) l
      ],
    ),
  )

  loop_lem :
      (rounds i n : ℕ)
      → IsWellFormed db
      → i + rounds ≡ n
      → n ≤ db.total
      → let (db', s) = conflict_loop hit if_index rounds i db status in
        (db' ≡ db) × Verdict hit if_index db i n status s
  unfolding conflict_loop
  loop_lem zero i n v e h = (refl, inr (refl, λ j k l. ground arith))
  loop_lem (suc rounds) i n v e h = rw (entry_lem hit if_index db i v (omega arith)) (
      Verdict-step i n (conflicts hit if_index db i)
        (conflict_loop hit if_index rounds (i + 1) db status) refl (omega arith)
        (loop_lem rounds (i + 1) n v (omega arith) h))

nonzero : (n : ℕ) → 0 < n → (n == 0) ≡ false
nonzero n h = ground arith

-- `WanManager_CheckGivenPriorityExists` over the whole table, which is not empty, succeeds, leaves
-- the table and its lock as they were, and sets `*Status` if another interface than `if_index` has
-- the priority and the type; if there is none it leaves `*Status` alone.
pub check_priority-Verdict :
    (if_index : ℤ) (priority : ℤ) (type : IfaceType) (db : Database) (status : Bool)
    → IsWellFormed db
    → 0 < db.total
    → let (db', s, success) =
        check_given_priority_exists if_index db.total priority type db status in
      (db' ≡ db)
      × (success ≡ true)
      × Verdict (priority_then_type priority type) if_index db 0 db.total status s
unfolding check_given_priority_exists check_conflict
check_priority-Verdict if_index priority type db status v h = rw (nonzero db.total h) (
    let (d, a) =
      loop_lem (priority_then_type priority type) if_index db status db.total 0 db.total v
        (omega arith) (omega arith) in
    (d, refl, a))

and_comm : (a b : Bool) → (a && b) ≡ (b && a)
and_comm a b = ground arith

tests_agree :
    (priority : ℤ) (type : IfaceType)
    → type_then_priority type priority ≡ priority_then_type priority type
tests_agree priority type =
    fun_ext (λ f. and_comm (eqb_type f.wan.type type) (eqb_ℤ f.wan.priority priority))

-- The two functions of source/WanManager/wanmgr_net_utils.c are one: given the same arguments, on
-- any database, they return the same and do the same.
pub check_type-check_priority :
    (if_index : ℤ) (total : ℕ) (priority : ℤ) (type : IfaceType) (db : Database) (status : Bool)
    → check_given_type_exists if_index total type priority db status
      ≡ check_given_priority_exists if_index total priority type db status
unfolding check_given_type_exists check_given_priority_exists
check_type-check_priority if_index total priority type db status =
    ap (λ hit. check_conflict hit if_index total db status) (tests_agree priority type)
