-- ===== src/Dhcpc/Table/Valid.antt =====
-- What the operations of a table keep of its instance numbers, and of each of its links.
use rdk_wanmanager.Common.{
  ℕ, suc, ◌≡◌, ◌<◌, ◌≤◌, refl, sym, [], Bool, true, false, subst, arith, Bool-cases, inl, inr,
}
use rdk_wanmanager.Dml.{CString}
use rdk_wanmanager.Dhcpc.Links.{Link, push_by_ins_num, pop_link, write_link}
use rdk_wanmanager.Dhcpc.Links.Order.{
  Above, AtMost, AtMost-le, get_by_ins_num-AtMost, push_by_ins_num-Above, push_by_ins_num-All,
  pop_link-Above, pop_link-All, write_link-Above, write_link-All,
}
use rdk_wanmanager.Dhcpc.Table.{
  Table, Kind, add_entry, del_entry, set_alias, commit_new, commit_old, rollback, next_number,
  ulong_mod,
}

-- The instance numbers are positive, ascend strictly, and have been counted.
pub record IsTable {A : Type 0} (t : Table A) : Type 0 where
  pub ordered : Above 0 t.links
  pub counted : AtMost t.max_instance t.links

-- The counter is not at its end.
abbrev pub HasRoom : {A : Type 0} → Table A → Type 0
HasRoom t = suc t.max_instance < ulong_mod

-- A function on links that keeps the number.
abbrev pub KeepsNumber : {A : Type 0} → (Link A → Link A) → Type 0
KeepsNumber f = (y : _) → (f y).instance_number ≡ y.instance_number

pub next_number_room : (m : ℕ) → suc m < ulong_mod → next_number m ≡ suc m
unfolding next_number
next_number_room m h = ground arith

module _ {A : Type 0} where
  pub pushed-IsTable :
      (t : Table A) (x : Link A)
      → IsTable t
      → t.max_instance < x.instance_number
      → IsTable (record t { links = push_by_ins_num t.links x; max_instance = x.instance_number })
  pushed-IsTable t x v h = record {
    ordered =
        push_by_ins_num-Above 0 t.links x v.ordered (omega arith)
          (get_by_ins_num-AtMost t.max_instance x.instance_number t.links v.counted h);
    counted =
        push_by_ins_num-All (λ y. y.instance_number ≤ x.instance_number) t.links x
          (AtMost-le t.max_instance x.instance_number t.links (omega arith) v.counted)
          (omega arith);
  }

  pub written-IsTable :
      (t : Table A) (n : ℕ) (f : Link A → Link A) (b : CString)
      → KeepsNumber f
      → IsTable t
      → IsTable (record t { links = write_link t.links n f; alias_backup = b })
  written-IsTable t n f b k v = record {
    ordered = write_link-Above f k 0 n t.links v.ordered;
    counted =
        write_link-All (λ y. y.instance_number ≤ t.max_instance) f n t.links
          (λ y h. subst (λ i. i ≤ t.max_instance) (sym (k y)) h) v.counted;
  }

  pub popped-IsTable :
      (t : Table A) (n : ℕ) → IsTable t → IsTable (record t { links = pop_link t.links n })
  popped-IsTable t n v = record {
    ordered = pop_link-Above 0 n t.links v.ordered;
    counted = pop_link-All (λ y. y.instance_number ≤ t.max_instance) n t.links v.counted;
  }

  pub del_entry-IsTable :
      (deleted : Bool) (x : Link A) (t : Table A) → IsTable t → IsTable (del_entry deleted x t).0
  unfolding del_entry
  del_entry-IsTable deleted x t v = elim (Bool-cases x.is_new) [
    | inl e ↦ rw e (popped-IsTable t x.instance_number v)
    | inr e ↦ elim (Bool-cases deleted) [
      | inl d ↦ rw (e, d) (popped-IsTable t x.instance_number v)
      | inr d ↦ rw (e, d) v
    ]
  ]

module _ {A : Type 0} (k : Kind A) where
  pub add_entry-IsTable :
      (blank : A) (t : Table A) → HasRoom t → IsTable t → IsTable (add_entry k blank t)
  unfolding add_entry
  add_entry-IsTable blank t h v =
      pushed-IsTable t
        (record {
          instance_number = next_number t.max_instance;
          is_new = true;
          content = k.named (next_number t.max_instance) (k.set_default blank);
        })
        v (omega (arith, next_number_room t.max_instance h))

  pub set_alias-IsTable :
      (s : CString) (x : Link A) (t : Table A) → IsTable t → IsTable (set_alias k s x t)
  unfolding set_alias
  set_alias-IsTable s x t v =
      written-IsTable t x.instance_number (λ y. record y { content = k.with_alias s y.content })
        (k.alias x.content) (λ y. refl) v

  pub commit_new-IsTable :
      (added : Bool) (x : Link A) (t : Table A) → IsTable t → IsTable (commit_new k added x t)
  unfolding commit_new
  commit_new-IsTable true x t v = written-IsTable t x.instance_number _ [] (λ y. refl) v
  commit_new-IsTable false x t v = written-IsTable t x.instance_number _ [] (λ y. refl) v

  pub commit_old-IsTable :
      (fetch : A → A) (x : Link A) (t : Table A) → IsTable t → IsTable (commit_old k fetch x t)
  unfolding commit_old
  commit_old-IsTable fetch x t v =
      written-IsTable t x.instance_number (λ y. record y { content = fetch y.content }) []
        (λ y. refl) v

  pub rollback-IsTable :
      (fetch : A → A) (x : Link A) (t : Table A) → IsTable t → IsTable (rollback k fetch x t)
  unfolding rollback
  rollback-IsTable fetch x t v = written-IsTable t x.instance_number _ [] (λ y. refl) v
