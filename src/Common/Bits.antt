-- ===== src/Common/Bits.antt =====
-- Bit operations as arithmetic: masks of one byte by tables, and a disjoint `|` as a sum.
use Prim.Native.Nat.{
  ℕ, zero, suc, ◌+◌, ◌*◌, ◌/◌, ◌%◌, ◌^◌, ◌≤◌, ◌<◌, min, max, bit_and, bit_or, digits,
  bit_and-bitwise, bit_or-bitwise,
}
use mathlib.Core.Path.{◌≡◌, refl, ap}
use mathlib.Core.Bool.{Bool, true, false}
use native.Mathlib.Omega.{arith}
use native.Mathlib.Nat.{pow-suc}
use pprofessor.Common.Tests.{◌==◌, ==_iff, if◌then◌else◌}

unfoldable pub every : ℕ → (ℕ → Bool) → Bool
every zero test = true
every (suc n) test = if test n then every n test else false

pub every_at : (test : ℕ → Bool) (n i : ℕ) → i < n → every n test ≡ true → test i ≡ true
unfolding every
every_at test zero i lt h = absurd (omega arith)
every_at test (suc n) i lt h = ground (arith, every_at test n i)

pub top_bit : (b : ℕ) → b < 256 → bit_and b 0x80 ≡ b / 128 * 128
unfolding every
top_bit b h = (==_iff _ _).0 (every_at (λ x. bit_and x 0x80 == x / 128 * 128) 256 b h refl)

pub set_top_bit : (b : ℕ) → b < 128 → bit_or b 0x80 ≡ b + 128
unfolding every
set_top_bit b h = (==_iff _ _).0 (every_at (λ x. bit_or x 0x80 == x + 128) 128 b h refl)

-- The recursion on digits that the native operations stand for: `base` is the result where the left
-- number has run out, and `law` says that it agrees with one more digit.
module _ (base : ℕ → ℕ) (op : ℕ → ℕ → ℕ)
    (law : (y : ℕ) → base y ≡ base (y / 2) * 2 + op 0 (y % 2)) where
  digits_enough : (x y k l : ℕ) → x ≤ k → x ≤ l → digits base op k x y ≡ digits base op l x y
  digits_enough zero y zero zero hk hl = refl
  digits_enough zero y zero (suc l) hk hl = refl
  digits_enough zero y (suc k) zero hk hl = refl
  digits_enough zero y (suc k) (suc l) hk hl = refl
  digits_enough (suc x) y zero l hk hl = absurd (omega arith)
  digits_enough (suc x) y (suc k) zero hk hl = absurd (omega arith)
  digits_enough (suc x) y (suc k) (suc l) hk hl =
      omega (arith, digits_enough (suc x / 2) (y / 2) k l (omega arith) (omega arith))

  one_digit :
      (x y : ℕ)
      → op (x % 2) (y % 2) + digits base op (x / 2) (x / 2) (y / 2) * 2 ≡ digits base op x x y
  one_digit zero y = omega (arith, law y)
  one_digit (suc x) y =
      omega (arith, digits_enough (suc x / 2) (y / 2) x (suc x / 2) (omega arith) (omega arith))

zero-bit_or : (b : ℕ) → bit_or 0 b ≡ b
zero-bit_or b = bit_or-bitwise 0 b

or_digit : (x y : ℕ) → max (x % 2) (y % 2) + bit_or (x / 2) (y / 2) * 2 ≡ bit_or x y
or_digit x y = omega (
  arith,
  bit_or-bitwise x y,
  bit_or-bitwise (x / 2) (y / 2),
  one_digit (λ t. t) max (λ t. omega arith) x y,
)

and_digit : (x y : ℕ) → min (x % 2) (y % 2) + bit_and (x / 2) (y / 2) * 2 ≡ bit_and x y
and_digit x y = omega (
  arith,
  bit_and-bitwise x y,
  bit_and-bitwise (x / 2) (y / 2),
  one_digit (λ t. 0) min (λ t. omega arith) x y,
)

bit_and-zero : (x k : ℕ) → x ≤ k → bit_and x 0 ≡ 0
bit_and-zero zero k hk = refl
bit_and-zero (suc x) zero hk = absurd (omega arith)
bit_and-zero (suc x) (suc k) hk =
    omega (arith, and_digit (suc x) 0, bit_and-zero (suc x / 2) k (omega arith))

bit_and_low1 : (v : ℕ) → bit_and v 1 ≡ v % 2
bit_and_low1 v = omega (arith, and_digit v 1, bit_and-zero (v / 2) (v / 2) (omega arith))

bit_and_low2 : (v : ℕ) → bit_and v 3 ≡ v % 4
bit_and_low2 v = omega (arith, and_digit v 3, bit_and_low1 (v / 2))

bit_and_low3 : (v : ℕ) → bit_and v 7 ≡ v % 8
bit_and_low3 v = omega (arith, and_digit v 7, bit_and_low2 (v / 2))

bit_and_low4 : (v : ℕ) → bit_and v 15 ≡ v % 16
bit_and_low4 v = omega (arith, and_digit v 15, bit_and_low3 (v / 2))

bit_and_low5 : (v : ℕ) → bit_and v 31 ≡ v % 32
bit_and_low5 v = omega (arith, and_digit v 31, bit_and_low4 (v / 2))

bit_and_low6 : (v : ℕ) → bit_and v 63 ≡ v % 64
bit_and_low6 v = omega (arith, and_digit v 63, bit_and_low5 (v / 2))

-- `v & 0x7f`, for a number of any size.
pub bit_and_low7 : (v : ℕ) → bit_and v 0x7f ≡ v % 128
bit_and_low7 v = omega (arith, and_digit v 127, bit_and_low6 (v / 2))

-- Where the low bits of the right side are clear, `|` adds.
pub bit_or-disjoint : (k a g : ℕ) → a < 2 ^ k → bit_or a (g * 2 ^ k) ≡ a + g * 2 ^ k
bit_or-disjoint zero zero g h = omega (arith, zero-bit_or (g * 1))
bit_or-disjoint zero (suc a) g h = absurd (omega arith)
bit_or-disjoint (suc k) a g h =
    let half : g * 2 ^ suc k ≡ g * 2 ^ k * 2 = omega (arith, ap (λ (t : ℕ). g * t) (pow-suc 2 k)) in
    let e : g * 2 ^ suc k / 2 ≡ g * 2 ^ k = omega arith in
    omega (
      arith,
      or_digit a (g * 2 ^ suc k),
      ap (λ (t : ℕ). bit_or (a / 2) t) e,
      bit_or-disjoint k (a / 2) g (omega (arith, pow-suc 2 k)),
      half,
    )
