-- ===== src/Dml/Text.antt =====
-- C strings: the bytes before the NUL.
use rdk_wanmanager.Common.{ℕ, Bool, true, false, List, [], ◌∷◌, ◌&&◌, ◌||◌, ◌==◌, if◌then◌else◌}

abbrev pub CString : Type 0
CString = List ℕ

-- `strcmp(a, b) == 0`.
abbrev pub str_eq : CString → CString → Bool
str_eq [] [] = true
str_eq [] (y ∷ ys) = false
str_eq (x ∷ xs) [] = false
str_eq (x ∷ xs) (y ∷ ys) = x == y && str_eq xs ys

-- `strncmp(s, p, strlen(p)) == 0`.
abbrev pub is_prefix : CString → CString → Bool
is_prefix [] s = true
is_prefix (x ∷ xs) [] = false
is_prefix (x ∷ xs) (y ∷ ys) = x == y && is_prefix xs ys

-- `strstr(s, p) != NULL`.
abbrev pub contains : CString → CString → Bool
contains p [] = is_prefix p []
contains p (x ∷ xs) = is_prefix p (x ∷ xs) || contains p xs

-- `*s == '\0'`.
abbrev pub is_empty : CString → Bool
is_empty [] = true
is_empty (x ∷ xs) = false

-- The bytes before the first `c`, all of them if there is none: `strcspn` is the length.
abbrev pub before : ℕ → CString → CString
before c [] = []
before c (x ∷ xs) = if x == c then [] else x ∷ before c xs

abbrev pub has_byte : ℕ → CString → Bool
has_byte c [] = false
has_byte c (x ∷ xs) = x == c || has_byte c xs
