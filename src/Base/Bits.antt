-- ===== src/Base/Bits.antt =====
-- `|` of disjoint bit fields and `&` with a mask of low ones, as arithmetic.
use Prim.Native.Nat.{
  ℕ, zero, suc, ◌+◌, ◌*◌, ◌/◌, ◌%◌, ◌≤◌, ◌<◌, min, max, digits, bit_and, bit_or, bit_and-bitwise,
  bit_or-bitwise,
}
use mathlib.Core.Path.{◌≡◌, refl}
use native.Mathlib.Omega.{arith}

-- More fuel than the first number needs changes no digit.
module _ (rest : ℕ → ℕ) (digit : ℕ → ℕ → ℕ) where
  enough_digits :
      (a b fuel more : ℕ)
      → a ≤ fuel
      → a ≤ more
      → digits rest digit fuel a b ≡ digits rest digit more a b
  enough_digits zero b zero zero h k = refl
  enough_digits zero b (suc fuel) zero h k = refl
  enough_digits zero b zero (suc more) h k = refl
  enough_digits zero b (suc fuel) (suc more) h k = refl
  enough_digits (suc a) b zero more h k = absurd (omega arith)
  enough_digits (suc a) b (suc fuel) zero h k = absurd (omega arith)
  enough_digits (suc a) b (suc fuel) (suc more) h k =
      omega (arith, enough_digits (suc a / 2) (b / 2) fuel more (omega arith) (omega arith))

or_step : (a b : ℕ) → bit_or a b ≡ bit_or (a / 2) (b / 2) * 2 + max (a % 2) (b % 2)
or_step zero b = omega (arith, bit_or-bitwise 0 b, bit_or-bitwise 0 (b / 2))
or_step (suc a) b = omega (
  arith,
  bit_or-bitwise (suc a) b,
  bit_or-bitwise (suc a / 2) (b / 2),
  enough_digits (λ y. y) max (suc a / 2) (b / 2) a (suc a / 2) (omega arith) (omega arith),
)

and_step : (a b : ℕ) → bit_and a b ≡ bit_and (a / 2) (b / 2) * 2 + min (a % 2) (b % 2)
and_step zero b = omega (arith, bit_and-bitwise 0 b, bit_and-bitwise 0 (b / 2))
and_step (suc a) b = omega (
  arith,
  bit_and-bitwise (suc a) b,
  bit_and-bitwise (suc a / 2) (b / 2),
  enough_digits (λ y. zero) min (suc a / 2) (b / 2) a (suc a / 2) (omega arith) (omega arith),
)

or-zero_fuel : (n a : ℕ) → a ≤ n → bit_or a 0 ≡ a
or-zero_fuel n zero h = refl
or-zero_fuel zero (suc a) h = absurd (omega arith)
or-zero_fuel (suc n) (suc a) h =
    omega (arith, or_step (suc a) 0, or-zero_fuel n (suc a / 2) (omega arith))

and-zero_fuel : (n a : ℕ) → a ≤ n → bit_and a 0 ≡ 0
and-zero_fuel n zero h = refl
and-zero_fuel zero (suc a) h = absurd (omega arith)
and-zero_fuel (suc n) (suc a) h =
    omega (arith, and_step (suc a) 0, and-zero_fuel n (suc a / 2) (omega arith))

or_three : (a b : ℕ) → b < 8 → bit_or (a * 8) b ≡ a * 8 + b
or_three a b h =
    ground
      (arith, or_step (a * 8) b, or_step (a * 4) (b / 2), or_step (a * 2) (b / 4), or-zero_fuel a a)

or_six : (a b : ℕ) → b < 64 → bit_or (a * 64) b ≡ a * 64 + b
or_six a b h = ground (
  arith,
  or_step (a * 64) b,
  or_step (a * 32) (b / 2),
  or_step (a * 16) (b / 4),
  or_three a (b / 8),
)

-- A field of nine bits below another.
pub or_nine : (a b : ℕ) → b < 512 → bit_or (a * 512) b ≡ a * 512 + b
or_nine a b h = ground (
  arith,
  or_step (a * 512) b,
  or_step (a * 256) (b / 2),
  or_step (a * 128) (b / 4),
  or_six a (b / 8),
)

and_three : (a : ℕ) → bit_and a 7 ≡ a % 8
and_three a =
    ground
      (arith, and_step a 7, and_step (a / 2) 3, and_step (a / 4) 1, and-zero_fuel (a / 8) (a / 8))

and_six : (a : ℕ) → bit_and a 63 ≡ a % 64
and_six a =
    ground (arith, and_step a 63, and_step (a / 2) 31, and_step (a / 4) 15, and_three (a / 8))

-- The low nine bits.
pub and_nine : (a : ℕ) → bit_and a 511 ≡ a % 512
and_nine a =
    ground (arith, and_step a 511, and_step (a / 2) 255, and_step (a / 4) 127, and_six (a / 8))
