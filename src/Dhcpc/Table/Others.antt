-- ===== src/Dhcpc/Table/Others.antt =====
-- The links of a table that an operation is not about.
use rdk_wanmanager.Common.{
  ℕ, ◌≡◌, ◌≢◌, ◌∙◌, refl, Bool, true, false, [], ◌==◌, if◌then◌else◌, arith,
}
use rdk_wanmanager.Dml.{CString}
use rdk_wanmanager.Dhcpc.Links.{Link, get_by_ins_num, write_link, pop_link}
use rdk_wanmanager.Dhcpc.Links.Order.{Above}
use rdk_wanmanager.Dhcpc.Links.Map.{get-write, get-pop}
use rdk_wanmanager.Dhcpc.Table.{Table, Kind, set_alias, commit_new, commit_old, rollback, del_entry}
use rdk_wanmanager.Dhcpc.Table.Valid.{KeepsNumber}

-- The number `n` apart, the tables give the same links.
abbrev pub SameBut : {A : Type 0} → ℕ → Table A → Table A → Type 0
SameBut n t u = (j : ℕ) → n ≢ j → get_by_ins_num u.links j ≡ get_by_ins_num t.links j

if_other {ℓ} : {B : Type ℓ} (n j : ℕ) (x y : B) → n ≢ j → (if n == j then x else y) ≡ y
if_other n j x y h = ground (arith, h)

module _ {A : Type 0} where
  pub write-SameBut :
      (f : Link A → Link A)
      → KeepsNumber f
      → (n : ℕ) (t : Table A) (b : CString)
      → SameBut n t (record t { links = write_link t.links n f; alias_backup = b })
  write-SameBut f k n t b j h = get-write f k n j t.links ∙ if_other n j _ _ h

  pub pop-SameBut :
      (n : ℕ) (t : Table A)
      → Above 0 t.links
      → SameBut n t (record t { links = pop_link t.links n })
  pop-SameBut n t a j h = get-pop 0 n j t.links a ∙ if_other n j _ _ h

  either-SameBut :
      (b : Bool) (n : ℕ) (t : Table A) (u v : Table A × Bool)
      → SameBut n t u.0
      → SameBut n t v.0
      → SameBut n t (if b then u else v).0
  either-SameBut true n t u v p q = p
  either-SameBut false n t u v p q = q

  pub del_entry-SameBut :
      (deleted : Bool) (x : Link A) (t : Table A)
      → Above 0 t.links
      → SameBut x.instance_number t (del_entry deleted x t).0
  unfolding del_entry
  del_entry-SameBut deleted x t a =
      let p = pop-SameBut x.instance_number t a in
      either-SameBut x.is_new x.instance_number t _ _ p
        (either-SameBut deleted x.instance_number t _ (t, false) p (λ j h. refl))

module _ {A : Type 0} (k : Kind A) (x : Link A) (t : Table A) where
  pub set_alias-SameBut : (s : CString) → SameBut x.instance_number t (set_alias k s x t)
  unfolding set_alias
  set_alias-SameBut s = write-SameBut _ (λ y. refl) x.instance_number t (k.alias x.content)

  pub commit_new-SameBut : (added : Bool) → SameBut x.instance_number t (commit_new k added x t)
  unfolding commit_new
  commit_new-SameBut true = write-SameBut _ (λ y. refl) x.instance_number t []
  commit_new-SameBut false = write-SameBut _ (λ y. refl) x.instance_number t []

  pub commit_old-SameBut : (fetch : A → A) → SameBut x.instance_number t (commit_old k fetch x t)
  unfolding commit_old
  commit_old-SameBut fetch = write-SameBut _ (λ y. refl) x.instance_number t []

  pub rollback-SameBut : (fetch : A → A) → SameBut x.instance_number t (rollback k fetch x t)
  unfolding rollback
  rollback-SameBut fetch = write-SameBut _ (λ y. refl) x.instance_number t []
