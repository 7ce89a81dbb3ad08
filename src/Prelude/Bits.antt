-- ===== src/Prelude/Bits.antt =====
-- `bit_or` at variables.
use Prim.Native.Nat.{
  ℕ, zero, suc, ◌+◌, ◌*◌, ◌/◌, ◌%◌, ◌≤◌, ◌<◌, max, bit_or, digits, bit_or-bitwise, bit_and,
  bit_and-bitwise, min,
}
use mathlib.Core.Path.{◌≡◌, refl}
use native.Mathlib.Omega.{arith}

abbrev or_digits : ℕ → ℕ → ℕ → ℕ
or_digits n a b = digits (λ b. b) max n a b

or_digits_fuel : (n m a b : ℕ) → a ≤ n → a ≤ m → or_digits n a b ≡ or_digits m a b
or_digits_fuel zero zero a b p q = refl
or_digits_fuel zero (suc m) zero b p q = refl
or_digits_fuel zero (suc m) (suc a) b p q = absurd (omega arith)
or_digits_fuel (suc n) zero zero b p q = refl
or_digits_fuel (suc n) zero (suc a) b p q = absurd (omega arith)
or_digits_fuel (suc n) (suc m) zero b p q = refl
or_digits_fuel (suc n) (suc m) (suc a) b p q =
    omega (arith, or_digits_fuel n m (suc a / 2) (b / 2) (omega arith) (omega arith))

zero-bit_or : (b : ℕ) → bit_or 0 b ≡ b
zero-bit_or b = bit_or-bitwise 0 b

bit_or_step : (a b : ℕ) → bit_or a b ≡ bit_or (a / 2) (b / 2) * 2 + max (a % 2) (b % 2)
bit_or_step zero b = omega (arith, zero-bit_or b, zero-bit_or (b / 2))
bit_or_step (suc a) b = omega (
  arith,
  bit_or-bitwise (suc a) b,
  bit_or-bitwise (suc a / 2) (b / 2),
  or_digits_fuel a (suc a / 2) (suc a / 2) (b / 2) (omega arith) (omega arith),
)

bit_or-zero_fuel : (n a : ℕ) → a ≤ n → bit_or a 0 ≡ a
bit_or-zero_fuel n zero h = refl
bit_or-zero_fuel zero (suc a) h = absurd (omega arith)
bit_or-zero_fuel (suc n) (suc a) h =
    omega (arith, bit_or_step (suc a) 0, bit_or-zero_fuel n (suc a / 2) (omega arith))

-- An even number takes the lowest bit of the other.
bit_or-even : (a' a v w : ℕ) → a' ≡ a * 2 → w ≡ v / 2 → bit_or a' v ≡ bit_or a w * 2 + v % 2
bit_or-even a' a v w e f =
    let half : a ≡ a' / 2 = omega arith in rw (half, f) (omega (arith, bit_or_step a' v))

-- Five bits more at the end of a number.
pub bit_or-five : (a v : ℕ) → v < 32 → bit_or (a * 32) v ≡ a * 32 + v
bit_or-five a v h =
    let rest : v / 2 / 2 / 2 / 2 / 2 ≡ 0 = omega arith in
    omega (
      arith,
      bit_or-even (a * 32) (a * 16) v (v / 2) (omega arith) refl,
      bit_or-even (a * 16) (a * 8) (v / 2) (v / 2 / 2) (omega arith) refl,
      bit_or-even (a * 8) (a * 4) (v / 2 / 2) (v / 2 / 2 / 2) (omega arith) refl,
      bit_or-even (a * 4) (a * 2) (v / 2 / 2 / 2) (v / 2 / 2 / 2 / 2) (omega arith) refl,
      bit_or-even (a * 2) a (v / 2 / 2 / 2 / 2) 0 (omega arith) (omega arith),
      bit_or-zero_fuel a a (omega arith),
    )

and_digits-le : (n a b : ℕ) → digits (λ _. zero) min n a b ≤ b
and_digits-le zero a b = omega arith
and_digits-le (suc n) zero b = omega arith
and_digits-le (suc n) (suc a) b = omega (arith, and_digits-le n (suc a / 2) (b / 2))

-- A mask bounds what it lets through.
pub bit_and-le : (a b : ℕ) → bit_and a b ≤ b
bit_and-le a b = omega (arith, bit_and-bitwise a b, and_digits-le a a b)
