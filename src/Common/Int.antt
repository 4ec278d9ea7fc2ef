-- ===== src/Common/Int.antt =====
-- The C type `INT` as an integer, and the conversions between `INT` and `UINT` (32 bits).
use Prim.Native.Nat.{ℕ, ◌-◌, ◌%◌, ◌<◌}
use mathlib.Core.Path.{◌≡◌}
use mathlib.Core.Bool.{Bool, true, false}
use native.Mathlib.Omega.{arith}
use rdk_wanmanager.Common.Tests.{ltb, ◌==◌, if◌then◌else◌}

-- `negsuc n` is -(n + 1).
pub data ℤ : Type 0 where
  pos : ℕ → ℤ
  negsuc : ℕ → ℤ

abbrev pub minus_one : ℤ
minus_one = negsuc 0

-- `a < b`, `0 <= a` and `a == b` on `INT`.
abbrev pub ltb_ℤ : ℤ → ℤ → Bool
ltb_ℤ (pos a) (pos b) = ltb a b
ltb_ℤ (pos a) (negsuc b) = false
ltb_ℤ (negsuc a) (pos b) = true
ltb_ℤ (negsuc a) (negsuc b) = ltb b a

abbrev pub is_nonneg : ℤ → Bool
is_nonneg (pos a) = true
is_nonneg (negsuc a) = false

abbrev pub eqb_ℤ : ℤ → ℤ → Bool
eqb_ℤ (pos a) (pos b) = a == b
eqb_ℤ (pos a) (negsuc b) = false
eqb_ℤ (negsuc a) (pos b) = false
eqb_ℤ (negsuc a) (negsuc b) = a == b

abbrev pub u32_mod : ℕ
u32_mod = 4294967296

-- 2 ^ 31, the first value that `INT` does not hold.
abbrev pub int_limit : ℕ
int_limit = 2147483648

-- `(UINT) i` for an `INT`.
abbrev pub to_uint : ℤ → ℕ
to_uint (pos a) = a % u32_mod
to_uint (negsuc a) = u32_mod - 1 - a % u32_mod

-- `(INT) i` for a `UINT`: the upper half of the range becomes negative.
abbrev pub to_int : ℕ → ℤ
to_int n = if ltb n int_limit then pos n else negsuc (u32_mod - 1 - n)

pub to_int_small : (n : ℕ) → n < int_limit → to_int n ≡ pos n
to_int_small n h = ground arith

pub to_uint-to_int : (n : ℕ) → n < int_limit → to_uint (to_int n) ≡ n
to_uint-to_int n h = ground arith
