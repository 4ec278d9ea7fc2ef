-- ===== src/Dhcpc/Links/Map.antt =====
-- The list of links as a map from instance numbers.
use rdk_wanmanager.Common.{
  ℕ, suc, ◌≡◌, ◌<◌, refl, Option, none, some, List, [], ◌∷◌, arith, ◌==◌, if◌then◌else◌, length,
}
use rdk_wanmanager.Dhcpc.Links.{Link, push_by_ins_num, get_by_ins_num, pop_link, write_link}
use rdk_wanmanager.Dhcpc.Links.Order.{Above}

abbrev pub at {ℓ κ} : {A : Type ℓ} {B : Type κ} → (A → B) → Option A → Option B
at f none = none
at f (some x) = some (f x)

module _ {A : Type 0} where
  pub get-push :
      (ys : List (Link A)) (x : Link A) (j : ℕ)
      → get_by_ins_num ys x.instance_number ≡ none
      → get_by_ins_num (push_by_ins_num ys x) j
        ≡ (if x.instance_number == j then some x else get_by_ins_num ys j)
  unfolding get_by_ins_num push_by_ins_num
  get-push [] x j h = refl
  get-push (y ∷ ys) x j h = ground (arith, get-push ys x j)

  pub get-Above :
      (lo j : ℕ) (ys : List (Link A)) → Above lo ys → j < suc lo → get_by_ins_num ys j ≡ none
  unfolding get_by_ins_num
  get-Above lo j [] a h = refl
  get-Above lo j (y ∷ ys) a h =
      ground (arith, a.0, get-Above y.instance_number j ys a.1 (omega (arith, a.0)))

  pub get-pop :
      (lo n j : ℕ) (ys : List (Link A))
      → Above lo ys
      → get_by_ins_num (pop_link ys n) j ≡ (if n == j then none else get_by_ins_num ys j)
  unfolding get_by_ins_num pop_link
  get-pop lo n j [] a = ground arith
  get-pop lo n j (y ∷ ys) a =
      ground
        (arith, a.0, get-pop y.instance_number n j ys a.1, get-Above y.instance_number j ys a.1)

  pub get-write :
      (f : Link A → Link A)
      → ((y : Link A) → (f y).instance_number ≡ y.instance_number)
      → (n j : ℕ) (ys : List (Link A))
      → get_by_ins_num (write_link ys n f) j
        ≡ (if n == j then at f (get_by_ins_num ys j) else get_by_ins_num ys j)
  unfolding get_by_ins_num write_link
  get-write f k n j [] = ground arith
  get-write f k n j (y ∷ ys) = ground (arith, k y, get-write f k n j ys)

  pub length-push :
      (ys : List (Link A)) (x : Link A) → length (push_by_ins_num ys x) ≡ suc (length ys)
  unfolding push_by_ins_num
  length-push [] x = refl
  length-push (y ∷ ys) x = ground (arith, length-push ys x)

  -- A link that is there has the number it is found by.
  pub get_by_ins_num-number :
      (n : ℕ) (ys : List (Link A)) (x : Link A)
      → get_by_ins_num ys n ≡ some x
      → x.instance_number ≡ n
  unfolding get_by_ins_num
  get_by_ins_num-number n [] x e = cc
  get_by_ins_num-number n (y ∷ ys) x e = ground (arith, get_by_ins_num-number n ys x)

  pub get-write_self :
      (f : Link A → Link A)
      → ((y : Link A) → (f y).instance_number ≡ y.instance_number)
      → (n m : ℕ) (ys : List (Link A)) (x : Link A) → get_by_ins_num ys n ≡ some x
      → m ≡ n
      → get_by_ins_num (write_link ys m f) n ≡ some (f x)
  get-write_self f k n m ys x e p = ground (arith, get-write f k m n ys, e, p)
