-- ===== src/Endian/Bits.antt =====
-- `bit_or` of numbers whose digits stand in different places is their sum.
use Prim.Native.Nat.{bit_or, digits, bit_or-bitwise, max}
use cppserver.Prelude.{ℕ, zero, suc, ◌+◌, ◌*◌, ◌/◌, ◌%◌, ◌^◌, ◌≤◌, ◌<◌, ◌≡◌, refl, ap, arith}

abbrev or_digits : ℕ → ℕ → ℕ → ℕ
or_digits n a b = digits (λ c. c) max n a b

-- More rounds than the first number has digits change nothing.
or_digits_rounds : (n m a b : ℕ) → a ≤ n → a ≤ m → or_digits n a b ≡ or_digits m a b
or_digits_rounds zero zero a b p q = refl
or_digits_rounds zero (suc m) zero b p q = refl
or_digits_rounds zero (suc m) (suc a) b p q = absurd (omega arith)
or_digits_rounds (suc n) zero zero b p q = refl
or_digits_rounds (suc n) zero (suc a) b p q = absurd (omega arith)
or_digits_rounds (suc n) (suc m) zero b p q = refl
or_digits_rounds (suc n) (suc m) (suc a) b p q =
    omega (arith, or_digits_rounds n m (suc a / 2) (b / 2) (omega arith) (omega arith))

zero-bit_or : (b : ℕ) → bit_or 0 b ≡ b
zero-bit_or b = bit_or-bitwise 0 b

or_step : (a b : ℕ) → bit_or a b ≡ bit_or (a / 2) (b / 2) * 2 + max (a % 2) (b % 2)
or_step zero b = omega (arith, zero-bit_or b, zero-bit_or (b / 2))
or_step (suc a) b = omega (
  arith,
  bit_or-bitwise (suc a) b,
  bit_or-bitwise (suc a / 2) (b / 2),
  or_digits_rounds a (suc a / 2) (suc a / 2) (b / 2) (omega arith) (omega arith),
)

bit_or-zero_rounds : (n a : ℕ) → a ≤ n → bit_or a 0 ≡ a
bit_or-zero_rounds n zero h = zero-bit_or 0
bit_or-zero_rounds zero (suc a) h = absurd (omega arith)
bit_or-zero_rounds (suc n) (suc a) h =
    omega (arith, or_step (suc a) 0, bit_or-zero_rounds n (suc a / 2) (omega arith))

twice-power : (a k : ℕ) → a * 2 ^ suc k ≡ a * 2 ^ k * 2
twice-power a k = grind arith

half-power : (a k : ℕ) → a * 2 ^ suc k / 2 ≡ a * 2 ^ k
half-power a k = omega (arith, twice-power a k)

-- The digits of the first number stand above those of the second.
pub bit_or-eq-add : (k a b : ℕ) → b < 2 ^ k → bit_or (a * 2 ^ k) b ≡ a * 2 ^ k + b
bit_or-eq-add zero a b h =
    let b_eq : b ≡ 0 = omega arith in
    rw b_eq (omega (arith, bit_or-zero_rounds (a * 1) (a * 1) (omega arith)))
bit_or-eq-add (suc k) a b h =
    let half : a * 2 ^ suc k / 2 ≡ a * 2 ^ k = half-power a k in
    omega (
      arith,
      or_step (a * 2 ^ suc k) b,
      ap (λ c. bit_or c (b / 2)) half,
      half,
      twice-power a k,
      bit_or-eq-add k a (b / 2) (omega arith),
    )
