-- ===== src/Dml/Equal.antt =====
-- The comparison of C strings against equality.
use rdk_wanmanager.Common.{ℕ, ◌≡◌, refl, true, [], ◌∷◌, arith}
use rdk_wanmanager.Dml.Text.{CString, str_eq}

pub str_eq_refl : (s : CString) → str_eq s s ≡ true
str_eq_refl [] = refl
str_eq_refl (x ∷ xs) = ground (arith, str_eq_refl xs)

cons_eq : (x y : ℕ) (xs ys : CString) → x ≡ y → xs ≡ ys → x ∷ xs ≡ y ∷ ys
cons_eq x y xs ys p q = rw p (rw q refl)

pub str_eq_sound : (s t : CString) → str_eq s t ≡ true → s ≡ t
str_eq_sound [] [] e = refl
str_eq_sound [] (y ∷ ys) e = ground arith
str_eq_sound (x ∷ xs) [] e = ground arith
str_eq_sound (x ∷ xs) (y ∷ ys) e =
    cons_eq x y xs ys (ground arith) (str_eq_sound xs ys (ground arith))
