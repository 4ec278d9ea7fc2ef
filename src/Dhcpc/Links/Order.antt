-- ===== src/Dhcpc/Links/Order.antt =====
-- The order of the links of a list, and a predicate on all of them.
use rdk_wanmanager.Common.{
  ℕ, ◌≡◌, ◌<◌, ◌≤◌, refl, none, List, [], ◌∷◌, Bool-cases, inl, inr, arith, ltb, ltb→lt, ◌==◌, some,
  subst,
}
use rdk_wanmanager.Dhcpc.Links.{Link, push_by_ins_num, get_by_ins_num, pop_link, write_link}

module _ {A : Type 0} where
  -- The numbers ascend strictly from above `lo`.
  abbrev pub Above : ℕ → List (Link A) → Type 0
  Above lo [] = Unit
  Above lo (y ∷ ys) = (lo < y.instance_number) × Above y.instance_number ys

  abbrev pub All : (Link A → Type 0) → List (Link A) → Type 0
  All P [] = Unit
  All P (y ∷ ys) = P y × All P ys

  abbrev pub AtMost : ℕ → List (Link A) → Type 0
  AtMost m ys = All (λ y. y.instance_number ≤ m) ys

  pub Above-le : (lo lo' : ℕ) (ys : List (Link A)) → lo ≤ lo' → Above lo' ys → Above lo ys
  Above-le lo lo' [] h a = tt
  Above-le lo lo' (y ∷ ys) h a = (omega (arith, a.0), a.1)

  pub AtMost-le : (m m' : ℕ) (ys : List (Link A)) → m ≤ m' → AtMost m ys → AtMost m' ys
  AtMost-le m m' [] h a = tt
  AtMost-le m m' (y ∷ ys) h a = (omega (arith, a.0), AtMost-le m m' ys h a.1)

  -- A number above all is the number of no link.
  pub get_by_ins_num-AtMost :
      (m n : ℕ) (ys : List (Link A)) → AtMost m ys → m < n → get_by_ins_num ys n ≡ none
  unfolding get_by_ins_num
  get_by_ins_num-AtMost m n [] a h = refl
  get_by_ins_num-AtMost m n (y ∷ ys) a h = ground (arith, a.0, get_by_ins_num-AtMost m n ys a.1 h)

  pub push_by_ins_num-Above :
      (lo : ℕ) (ys : List (Link A)) (x : Link A)
      → Above lo ys
      → lo < x.instance_number
      → get_by_ins_num ys x.instance_number ≡ none
      → Above lo (push_by_ins_num ys x)
  unfolding push_by_ins_num get_by_ins_num
  push_by_ins_num-Above lo [] x a h f = (h, tt)
  push_by_ins_num-Above lo (y ∷ ys) x a h f =
      elim (Bool-cases (ltb x.instance_number y.instance_number)) [
        | inl e ↦ rw e (h, (ltb→lt _ _ e, a.1))
        | inr e ↦
            rw e
              (a.0, push_by_ins_num-Above y.instance_number ys x a.1 (ground arith) (ground arith))
      ]

  pub push_by_ins_num-All :
      (P : Link A → Type 0) (ys : List (Link A)) (x : Link A)
      → All P ys
      → P x
      → All P (push_by_ins_num ys x)
  unfolding push_by_ins_num
  push_by_ins_num-All P [] x a p = (p, tt)
  push_by_ins_num-All P (y ∷ ys) x a p =
      elim (Bool-cases (ltb x.instance_number y.instance_number)) [
        | inl e ↦ rw e (p, a)
        | inr e ↦ rw e (a.0, push_by_ins_num-All P ys x a.1 p)
      ]

  pub pop_link-Above : (lo n : ℕ) (ys : List (Link A)) → Above lo ys → Above lo (pop_link ys n)
  unfolding pop_link
  pop_link-Above lo n [] a = tt
  pop_link-Above lo n (y ∷ ys) a = elim (Bool-cases (y.instance_number == n)) [
    | inl e ↦ rw e (Above-le lo y.instance_number ys (omega (arith, a.0)) a.1)
    | inr e ↦ rw e (a.0, pop_link-Above y.instance_number n ys a.1)
  ]

  pub pop_link-All :
      (P : Link A → Type 0) (n : ℕ) (ys : List (Link A)) → All P ys → All P (pop_link ys n)
  unfolding pop_link
  pop_link-All P n [] a = tt
  pop_link-All P n (y ∷ ys) a = elim (Bool-cases (y.instance_number == n)) [
    | inl e ↦ rw e a.1
    | inr e ↦ rw e (a.0, pop_link-All P n ys a.1)
  ]

  pub write_link-Above :
      (f : Link A → Link A) (k : (y : Link A) → (f y).instance_number ≡ y.instance_number)
      (lo n : ℕ) (ys : List (Link A))
      → Above lo ys
      → Above lo (write_link ys n f)
  unfolding write_link
  write_link-Above f k lo n [] a = tt
  write_link-Above f k lo n (y ∷ ys) a = elim (Bool-cases (y.instance_number == n)) [
    | inl e ↦ rw e (rw (k y) a)
    | inr e ↦ rw e (a.0, write_link-Above f k y.instance_number n ys a.1)
  ]

  -- A write keeps what it keeps at the link it is made to.
  pub write_link-All :
      (P : Link A → Type 0) (f : Link A → Link A) (n : ℕ) (ys : List (Link A))
      → ((y : Link A) → P y → P (f y))
      → All P ys
      → All P (write_link ys n f)
  unfolding write_link
  write_link-All P f n [] h a = tt
  write_link-All P f n (y ∷ ys) h a = elim (Bool-cases (y.instance_number == n)) [
    | inl e ↦ rw e (h y a.0, a.1)
    | inr e ↦ rw e (a.0, write_link-All P f n ys h a.1)
  ]

  pub get_by_ins_num-All :
      (P : Link A → Type 0) (n : ℕ) (ys : List (Link A)) {x : Link A}
      → All P ys
      → get_by_ins_num ys n ≡ some x
      → P x
  unfolding get_by_ins_num
  get_by_ins_num-All P n [] a e = cc
  get_by_ins_num-All P n (y ∷ ys) a e = elim (Bool-cases (y.instance_number == n)) [
    | inl t ↦ subst P (ground arith) a.0
    | inr t ↦ get_by_ins_num-All P n ys a.1 (ground arith)
  ]
