-- ===== src/Common/Int.antt =====
-- Signed 64-bit integers: the number that a bit pattern below 2 ^ 64 stands for, and back.
use Prim.Native.Nat.{ℕ, ◌-◌, ◌%◌, ◌^◌, ◌<◌}
use mathlib.Core.Path.{◌≡◌, refl}
use mathlib.Core.Bool.{Bool, true, false, not}
use native.Mathlib.Omega.{arith}
use pprofessor.Common.Tests.{ltb, leb, ◌==◌, if◌then◌else◌}

-- `negsuc n` is -(n + 1).
pub data ℤ : Type 0 where
  pos : ℕ → ℤ
  negsuc : ℕ → ℤ

abbrev pub u64_mod : ℕ
u64_mod = 2 ^ 64

abbrev pub i64_max : ℕ
i64_max = 2 ^ 63 - 1

abbrev pub IsU64 : ℕ → Type 0
IsU64 v = v < 2 ^ 64

abbrev pub IsI64 : ℤ → Type 0
IsI64 (pos n) = n < 2 ^ 63
IsI64 (negsuc n) = n < 2 ^ 63

-- `value as u64` and `value as i64`.
abbrev pub as_u64 : ℤ → ℕ
as_u64 (pos n) = n % 2 ^ 64
as_u64 (negsuc n) = 2 ^ 64 - 1 - n % 2 ^ 64

abbrev pub as_i64 : ℕ → ℤ
as_i64 v = if ltb v (2 ^ 63) then pos v else negsuc (2 ^ 64 - 1 - v)

abbrev pub is_zero_ℤ : ℤ → Bool
is_zero_ℤ (pos n) = leb n 0
is_zero_ℤ (negsuc n) = false

pub as_u64-IsU64 : (z : ℤ) → IsU64 (as_u64 z)
as_u64-IsU64 (pos n) = omega arith
as_u64-IsU64 (negsuc n) = omega arith

pub as_i64-as_u64 : (z : ℤ) → IsI64 z → as_i64 (as_u64 z) ≡ z
as_i64-as_u64 (pos n) h = ground arith
as_i64-as_u64 (negsuc n) h = ground arith

pub as_i64-IsI64 : (v : ℕ) → IsU64 v → IsI64 (as_i64 v)
as_i64-IsI64 v h = ground arith

pub as_u64-eq-zero : (z : ℤ) → IsI64 z → as_u64 z ≡ 0 → z ≡ pos 0
as_u64-eq-zero (pos n) h e = ground arith
as_u64-eq-zero (negsuc n) h e = ground arith

pub is_zero-as_u64 : (z : ℤ) → IsI64 z → (as_u64 z == 0) ≡ is_zero_ℤ z
is_zero-as_u64 (pos n) h = ground arith
is_zero-as_u64 (negsuc n) h = ground arith

-- `u64::from(flag)`, read back by `value != 0`.
abbrev pub bool_u64 : Bool → ℕ
bool_u64 true = 1
bool_u64 false = 0

pub bool_u64-IsU64 : (b : Bool) → IsU64 (bool_u64 b)
bool_u64-IsU64 true = omega arith
bool_u64-IsU64 false = omega arith

pub not-bool_u64 : (b : Bool) → not (bool_u64 b == 0) ≡ b
not-bool_u64 true = refl
not-bool_u64 false = refl

pub bool_u64-eq-zero : (b : Bool) → bool_u64 b ≡ 0 → b ≡ false
bool_u64-eq-zero true e = ground arith
bool_u64-eq-zero false e = refl

pub is_zero-bool_u64 : (b : Bool) → (bool_u64 b == 0) ≡ not b
is_zero-bool_u64 true = refl
is_zero-bool_u64 false = refl
