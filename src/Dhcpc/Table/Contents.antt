-- ===== src/Dhcpc/Table/Contents.antt =====
-- A predicate on the contents of a table's entries, kept by the operations of the table.
use rdk_wanmanager.Common.{ℕ, Bool, true, false, [], if◌then◌else◌, Bool-cases, inl, inr}
use rdk_wanmanager.Dml.{CString, is_empty}
use rdk_wanmanager.Dhcpc.Links.{Link, write_link}
use rdk_wanmanager.Dhcpc.Links.Order.{All, push_by_ins_num-All, pop_link-All, write_link-All}
use rdk_wanmanager.Dhcpc.Table.{
  Table, Kind, add_entry, del_entry, set_alias, commit_new, commit_old, rollback, restore_alias,
  next_number,
}

abbrev pub Contents : {A : Type 0} → (A → Type 0) → Table A → Type 0
Contents P t = All (λ y. P y.content) t.links

module _ {A : Type 0} (P : A → Type 0) where
  -- An all-or-nothing choice keeps what both sides keep.
  chosen : (b : Bool) (x y : A) → P x → P y → P (if b then x else y)
  chosen true x y p q = p
  chosen false x y p q = q

  pub del_entry-Contents :
      (deleted : Bool) (x : Link A) (t : Table A)
      → Contents P t
      → Contents P (del_entry deleted x t).0
  unfolding del_entry
  del_entry-Contents deleted x t v = elim (Bool-cases x.is_new) [
    | inl e ↦ rw e (pop_link-All (λ y. P y.content) x.instance_number t.links v)
    | inr e ↦ elim (Bool-cases deleted) [
      | inl d ↦ rw (e, d) (pop_link-All (λ y. P y.content) x.instance_number t.links v)
      | inr d ↦ rw (e, d) v
    ]
  ]

  pub written-Contents :
      (f : A → A) (n : ℕ) (t : Table A) (b : CString)
      → ((x : A) → P x → P (f x))
      → Contents P t
      → Contents P (record t {
        links = write_link t.links n (λ y. record y { content = f y.content });
        alias_backup = b;
      })
  written-Contents f n t b h v =
      write_link-All (λ y. P y.content) (λ y. record y { content = f y.content }) n t.links
        (λ y p. h y.content p) v

module _ {A : Type 0} (k : Kind A) (P : A → Type 0) where
  pub add_entry-Contents :
      (blank : A) (t : Table A)
      → ((n : ℕ) → P (k.named n (k.set_default blank)))
      → Contents P t
      → Contents P (add_entry k blank t)
  unfolding add_entry
  add_entry-Contents blank t h v =
      push_by_ins_num-All (λ y. P y.content) t.links
        (record {
          instance_number = next_number t.max_instance;
          is_new = true;
          content = k.named (next_number t.max_instance) (k.set_default blank);
        })
        v (h (next_number t.max_instance))

  module _ (alias_keeps : (s : CString) (x : A) → P x → P (k.with_alias s x)) where
    pub set_alias-Contents :
        (s : CString) (x : Link A) (t : Table A) → Contents P t → Contents P (set_alias k s x t)
    unfolding set_alias
    set_alias-Contents s x t v =
        written-Contents P (k.with_alias s) x.instance_number t (k.alias x.content) (alias_keeps s)
          v

    pub restored : (b : CString) (x : A) → P x → P (restore_alias k b x)
    unfolding restore_alias
    restored b x p = chosen P (is_empty b) x (k.with_alias b x) p (alias_keeps b x p)

    module _ (default_keeps : (x : A) → P x → P (k.set_default x)) where
      pub commit_new-Contents :
          (added : Bool) (x : Link A) (t : Table A)
          → Contents P t
          → Contents P (commit_new k added x t)
      unfolding commit_new
      commit_new-Contents true x t v =
          write_link-All (λ y. P y.content) (λ y. record y { is_new = false }) x.instance_number
            t.links (λ y p. p) v
      commit_new-Contents false x t v =
          written-Contents P (λ c. restore_alias k t.alias_backup (k.set_default c))
            x.instance_number t []
            (λ c p. restored t.alias_backup (k.set_default c) (default_keeps c p)) v

      pub rollback-Contents :
          (fetch : A → A) (x : Link A) (t : Table A)
          → ((x : A) → P x → P (fetch x))
          → Contents P t
          → Contents P (rollback k fetch x t)
      unfolding rollback
      rollback-Contents fetch x t h v =
          write_link-All (λ y. P y.content)
            (λ y.
              let c : A = restore_alias k t.alias_backup y.content in
              record y { content = if y.is_new then k.set_default c else fetch c })
            x.instance_number t.links
            (λ y p.
              let c : A = restore_alias k t.alias_backup y.content in
              let q : P c = restored t.alias_backup y.content p in
              chosen P y.is_new (k.set_default c) (fetch c) (default_keeps c q) (h c q))
            v

  pub commit_old-Contents :
      (fetch : A → A) (x : Link A) (t : Table A)
      → ((x : A) → P x → P (fetch x))
      → Contents P t
      → Contents P (commit_old k fetch x t)
  unfolding commit_old
  commit_old-Contents fetch x t h v = written-Contents P fetch x.instance_number t [] h v
