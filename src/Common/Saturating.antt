-- ===== src/Common/Saturating.antt =====
-- Signed 64-bit integers: `saturating_add` and `saturating_abs`.
use Prim.Native.Nat.{zero, suc, ◌+◌, ◌-◌, ◌≤◌}
use mathlib.Core.Path.{◌≡◌}
use native.Mathlib.Omega.{arith}
use pprofessor.Common.Int.{ℤ, pos, negsuc, i64_max, IsI64}
use pprofessor.Common.Tests.{ltb, leb, if◌then◌else◌}

infixl 40 ◌+ℤ◌
abbrev pub ◌+ℤ◌ : ℤ → ℤ → ℤ
pos a +ℤ pos b = pos (a + b)
pos a +ℤ negsuc b = if ltb b a then pos (a - suc b) else negsuc (b - a)
negsuc a +ℤ pos b = if ltb a b then pos (b - suc a) else negsuc (a - b)
negsuc a +ℤ negsuc b = negsuc (suc (a + b))

-- The nearest number of 64 bits.
abbrev pub saturate : ℤ → ℤ
saturate (pos n) = pos (if leb n i64_max then n else i64_max)
saturate (negsuc n) = negsuc (if leb n i64_max then n else i64_max)

unfoldable pub saturating_add : ℤ → ℤ → ℤ
saturating_add a b = saturate (a +ℤ b)

abbrev pub negated : ℤ → ℤ
negated (pos zero) = pos 0
negated (pos (suc n)) = negsuc n
negated (negsuc n) = pos (suc n)

abbrev pub absolute : ℤ → ℤ
absolute (pos n) = pos n
absolute (negsuc n) = pos (suc n)

unfoldable pub saturating_abs : ℤ → ℤ
saturating_abs a = saturate (absolute a)

unfoldable pub saturating_sub : ℤ → ℤ → ℤ
saturating_sub a b = saturate (a +ℤ negated b)

pub saturating_add-IsI64 : (a b : ℤ) → IsI64 (saturating_add a b)
unfolding saturating_add
saturating_add-IsI64 (pos a) (pos b) = ground arith
saturating_add-IsI64 (pos a) (negsuc b) = ground arith
saturating_add-IsI64 (negsuc a) (pos b) = ground arith
saturating_add-IsI64 (negsuc a) (negsuc b) = ground arith

-- The order of the integers.
infix 4 ◌≤ℤ◌
abbrev pub ◌≤ℤ◌ : ℤ → ℤ → Type 0
pos a ≤ℤ pos b = a ≤ b
pos a ≤ℤ negsuc b = ⊥
negsuc a ≤ℤ pos b = Unit {0}
negsuc a ≤ℤ negsuc b = b ≤ a

-- With a number that is not negative the sum is not below the other number, nor below the sum with a
-- smaller one.
pub ≤ℤ-saturating_add : (x y v : ℤ) → x ≤ℤ y → IsI64 y → pos 0 ≤ℤ v → x ≤ℤ saturating_add y v
unfolding saturating_add
≤ℤ-saturating_add (pos x) (pos y) (pos v) l f h = ground arith
≤ℤ-saturating_add (negsuc x) (pos y) (pos v) l f h = tt
≤ℤ-saturating_add (negsuc x) (negsuc y) (pos v) l f h = ground arith
≤ℤ-saturating_add (pos x) (negsuc y) v l f h = absurd l
≤ℤ-saturating_add x y (negsuc v) l f h = absurd h

pub saturating_add_mono : (x y v : ℤ) → x ≤ℤ y → saturating_add x v ≤ℤ saturating_add y v
unfolding saturating_add
saturating_add_mono (pos x) (pos y) (pos v) l = ground arith
saturating_add_mono (pos x) (pos y) (negsuc v) l = ground arith
saturating_add_mono (negsuc x) (pos y) (pos v) l = ground arith
saturating_add_mono (negsuc x) (pos y) (negsuc v) l = ground arith
saturating_add_mono (negsuc x) (negsuc y) (pos v) l = ground arith
saturating_add_mono (negsuc x) (negsuc y) (negsuc v) l = ground arith
saturating_add_mono (pos x) (negsuc y) v l = absurd l

pub saturating_abs-eq_self : (v : ℤ) → pos 0 ≤ℤ v → IsI64 v → saturating_abs v ≡ v
unfolding saturating_abs
saturating_abs-eq_self (pos v) h f = ground arith
saturating_abs-eq_self (negsuc v) h f = absurd h
