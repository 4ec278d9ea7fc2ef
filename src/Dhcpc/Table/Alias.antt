-- ===== src/Dhcpc/Table/Alias.antt =====
-- What the check of an alias finds.
use rdk_wanmanager.Common.{
  ℕ, ◌≡◌, ◌≢◌, ◌<◌, ◌⊎◌, inl, inr, refl, ◌∙◌, Bool, true, false, not, ◌&&◌, some, List, [], ◌∷◌,
  ◌==◌, if◌then◌else◌, arith, Bool-cases, ap,
}
use rdk_wanmanager.Dml.{CString, str_eq, str_eq_refl, str_eq_sound, is_empty}
use rdk_wanmanager.Dhcpc.Links.{Link, get_by_ins_num}
use rdk_wanmanager.Dhcpc.Links.Order.{Above}
use rdk_wanmanager.Dhcpc.Table.{Table, Kind, clash, validate_alias, Validated, valid, refused_alias}

module _ {A : Type 0} (alias : A → CString) (s : CString) (n : ℕ) where
  -- A link other than `n` with the alias `s`, and that there is none.
  abbrev pub HasClash : List (Link A) → Type 0
  HasClash ys =
      (j : ℕ) × (y : Link A) × (get_by_ins_num ys j ≡ some y) × (n ≢ j) × (alias y.content ≡ s)

  abbrev pub HasNoClash : List (Link A) → Type 0
  HasNoClash ys = (j : ℕ) (y : Link A) → get_by_ins_num ys j ≡ some y → n ≢ j → alias y.content ≢ s

  found-lt :
      (lo j : ℕ) (ys : List (Link A)) (z : Link A)
      → Above lo ys
      → get_by_ins_num ys j ≡ some z
      → lo < j
  unfolding get_by_ins_num
  found-lt lo j [] z a e = cc
  found-lt lo j (y ∷ ys) z a e = elim (Bool-cases (y.instance_number == j)) [
    | inl t ↦ ground (arith, a.0)
    | inr t ↦ ground (arith, a.0, found-lt y.instance_number j ys z a.1)
  ]

  head : (y : Link A) (ys : List (Link A)) → get_by_ins_num (y ∷ ys) y.instance_number ≡ some y
  unfolding get_by_ins_num
  head y ys = ground arith

  later :
      (lo : ℕ) (y : Link A) (ys : List (Link A))
      → Above lo (y ∷ ys)
      → HasClash ys
      → HasClash (y ∷ ys)
  unfolding get_by_ins_num
  later lo y ys a (j, z, e, d, q) =
      (j, z, ground (arith, found-lt y.instance_number j ys z a.1 e), d, q)

  no_later :
      (y : Link A) (ys : List (Link A))
      → HasNoClash ys
      → (str_eq (alias y.content) s && not (y.instance_number == n)) ≡ false
      → HasNoClash (y ∷ ys)
  unfolding get_by_ins_num
  no_later y ys h t j z e d q = elim (Bool-cases (y.instance_number == j)) [
    | inl i ↦
        let w : y ≡ z = ground arith in
        let m : str_eq (alias y.content) s ≡ true =
          ap (λ z. str_eq (alias z.content) s) w ∙ ap (λ a. str_eq a s) q ∙ str_eq_refl s in
        ground (arith, m)
    | inr i ↦ h j z (ground arith) d q
  ]

  Cases : Bool → List (Link A) → Type 0
  Cases b ys = ((b ≡ true) × HasClash ys) ⊎ ((b ≡ false) × HasNoClash ys)

  none_found : HasNoClash []
  unfolding get_by_ins_num
  none_found j y e d q = cc

  differs :
      (y : Link A) (b : Bool) → (b && not (y.instance_number == n)) ≡ true → n ≢ y.instance_number
  differs y b e = ground arith

  matches : (y : Link A) (b : Bool) → (str_eq (alias y.content) s && b) ≡ true → alias y.content ≡ s
  matches y b e = str_eq_sound (alias y.content) s (ground arith)

  cons-Cases :
      (lo : ℕ) (y : Link A) (ys : List (Link A))
      → Above lo (y ∷ ys)
      → (b : Bool) → (str_eq (alias y.content) s && not (y.instance_number == n)) ≡ b
      → Cases (clash alias s n ys) ys
      → Cases (if b then true else clash alias s n ys) (y ∷ ys)
  unfolding Cases
  cons-Cases lo y ys a true e c = inl (
    refl,
    (
      y.instance_number,
      y,
      head y ys,
      differs y (str_eq (alias y.content) s) e,
      matches y (not (y.instance_number == n)) e,
    ),
  )
  cons-Cases lo y ys a false e (inl (c, h)) = inl (c, later lo y ys a h)
  cons-Cases lo y ys a false e (inr (c, h)) = inr (c, no_later y ys h e)

  pub clash_cases :
      (lo : ℕ) (ys : List (Link A))
      → Above lo ys
      → ((clash alias s n ys ≡ true) × HasClash ys) ⊎ ((clash alias s n ys ≡ false) × HasNoClash ys)
  unfolding clash Cases
  clash_cases lo [] a = inr (refl, none_found)
  clash_cases lo (y ∷ ys) a = cons-Cases lo y ys a _ refl (clash_cases y.instance_number ys a.1)

-- What the answer of Validate says of an alias: it is refused exactly if an alias has been saved and another link has
-- the same alias.
abbrev pub AliasCases : {A : Type 0} → Kind A → Link A → Table A → Validated → Type 0
AliasCases k x t w =
    ((w ≡ refused_alias)
      × (is_empty t.alias_backup ≡ false)
      × HasClash k.alias (k.alias x.content) x.instance_number t.links)
    ⊎ ((w ≡ valid)
        × ((is_empty t.alias_backup ≡ true)
            ⊎ HasNoClash k.alias (k.alias x.content) x.instance_number t.links))

module _ {A : Type 0} (k : Kind A) (x : Link A) (t : Table A) where
  decided :
      (b : Bool)
      → is_empty t.alias_backup ≡ b
      → (c : Bool)
      → ((c ≡ true) × HasClash k.alias (k.alias x.content) x.instance_number t.links)
        ⊎ ((c ≡ false) × HasNoClash k.alias (k.alias x.content) x.instance_number t.links)
      → AliasCases k x t (if not b && c then refused_alias else valid)
  decided true e c h = inr (refl, inl e)
  decided false e true (inl (p, h)) = inl (refl, e, h)
  decided false e true (inr (p, h)) = cc
  decided false e false (inl (p, h)) = cc
  decided false e false (inr (p, h)) = inr (refl, inr h)

  pub validate_alias-AliasCases : Above 0 t.links → AliasCases k x t (validate_alias k x t)
  unfolding validate_alias
  validate_alias-AliasCases a =
      decided (is_empty t.alias_backup) refl
        (clash k.alias (k.alias x.content) x.instance_number t.links)
        (clash_cases k.alias (k.alias x.content) x.instance_number 0 t.links a)
