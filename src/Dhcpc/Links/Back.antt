-- ===== src/Dhcpc/Links/Back.antt =====
-- A link with a number above all goes to the back of the list.
use rdk_wanmanager.Common.{
  ℕ, ◌≡◌, ◌<◌, ◌≤◌, refl, List, [], ◌∷◌, ◌++◌, arith, suc, ◌==◌, if◌then◌else◌,
}
use rdk_wanmanager.Dhcpc.Links.{Link, push_by_ins_num}
use rdk_wanmanager.Dhcpc.Links.Order.{All}

module _ {A : Type 0} where
  abbrev pub Below : ℕ → List (Link A) → Type 0
  Below n ys = All (λ y. y.instance_number < n) ys

  pub push-Below :
      (ys : List (Link A)) (x : Link A)
      → Below x.instance_number ys
      → push_by_ins_num ys x ≡ ys ++ (x ∷ [])
  unfolding push_by_ins_num
  push-Below [] x b = refl
  push-Below (y ∷ ys) x b = ground (arith, b.0, push-Below ys x b.1)

  pub Below-append :
      (n : ℕ) (ys : List (Link A)) (x : Link A)
      → Below n ys
      → x.instance_number < n
      → Below n (ys ++ (x ∷ []))
  Below-append n [] x b h = (h, tt)
  Below-append n (y ∷ ys) x b h = (b.0, Below-append n ys x b.1 h)

  pub Below-le : (n m : ℕ) (ys : List (Link A)) → n ≤ m → Below n ys → Below m ys
  Below-le n m [] h b = tt
  Below-le n m (y ∷ ys) h b = (omega (arith, b.0), Below-le n m ys h b.1)

  -- The round of a loop that takes the links in their order and skips the number 0.
  pub pushed_at_end :
      (lo : ℕ) (acc : List (Link A)) (x : Link A)
      → Below (suc lo) acc
      → lo < x.instance_number
      → (if x.instance_number == 0 then acc else push_by_ins_num acc x) ≡ acc ++ (x ∷ [])
  pushed_at_end lo acc x b h =
      ground (arith, push-Below acc x (Below-le (suc lo) x.instance_number acc h b))
