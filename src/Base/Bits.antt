-- ===== src/Base/Bits.antt =====
-- The bits of a native number, and what `bit_or` does to them.
use Prim.Native.Nat.{
  ℕ, zero, suc, ◌+◌, ◌*◌, ◌/◌, ◌%◌, ◌^◌, ◌≤◌, max, digits, bit_or, bit_or-bitwise,
}
use mathlib.Core.Path.{◌≡◌, refl, sym, ◌∙◌, ap}
use native.Mathlib.Nat.{pow-succ', div-div-eq-div-mul, div-one, zero-div}
use native.Mathlib.Omega.{arith}
use apsystems_sunspec.Base.Bools.{◌==◌, if◌then◌else◌}

abbrev or_digits : ℕ → ℕ → ℕ → ℕ
or_digits n a b = digits (λ b. b) max n a b

or_digits_fuel : (n m a b : ℕ) → a ≤ n → a ≤ m → or_digits n a b ≡ or_digits m a b
or_digits_fuel zero zero a b p q = refl
or_digits_fuel zero (suc m) zero b p q = refl
or_digits_fuel zero (suc m) (suc a) b p q = absurd (omega arith)
or_digits_fuel (suc n) zero zero b p q = refl
or_digits_fuel (suc n) zero (suc a) b p q = absurd (omega arith)
or_digits_fuel (suc n) (suc m) zero b p q = refl
or_digits_fuel (suc n) (suc m) (suc a) b p q =
    omega (arith, or_digits_fuel n m (suc a / 2) (b / 2) (omega arith) (omega arith))

zero-bit_or : (b : ℕ) → bit_or 0 b ≡ b
zero-bit_or b = bit_or-bitwise 0 b

pub bit_or_step : (a b : ℕ) → bit_or a b ≡ bit_or (a / 2) (b / 2) * 2 + max (a % 2) (b % 2)
bit_or_step zero b = omega (arith, zero-bit_or b, zero-bit_or (b / 2))
bit_or_step (suc a) b = omega (
  arith,
  bit_or-bitwise (suc a) b,
  bit_or-bitwise (suc a / 2) (b / 2),
  or_digits_fuel a (suc a / 2) (suc a / 2) (b / 2) (omega arith) (omega arith),
)

-- The bit `k`.
abbrev pub bit : ℕ → ℕ → ℕ
bit a k = a / 2 ^ k % 2

div_pow_suc : (a k : ℕ) → a / 2 ^ suc k ≡ a / 2 / 2 ^ k
div_pow_suc a k = ap (λ m. a / m) (pow-succ' 2 k) ∙ sym (div-div-eq-div-mul a 2 (2 ^ k))

bit-suc : (a k : ℕ) → bit a (suc k) ≡ bit (a / 2) k
bit-suc a k = ap (λ m. m % 2) (div_pow_suc a k)

bit-zero : (a : ℕ) → bit a 0 ≡ a % 2
bit-zero a = ap (λ m. m % 2) (div-one a)

half : (a b : ℕ) → bit_or a b / 2 ≡ bit_or (a / 2) (b / 2)
half a b = omega (arith, bit_or_step a b)

half_pow : (j : ℕ) → 2 ^ suc j / 2 ≡ 2 ^ j
half_pow j = omega (arith, pow-succ' 2 j)

-- Each bit of `bit_or` is the greater of the two.
pub bit-bit_or : (a b k : ℕ) → bit (bit_or a b) k ≡ max (bit a k) (bit b k)
bit-bit_or a b zero =
    rw (bit-zero (bit_or a b), bit-zero a, bit-zero b) (omega (arith, bit_or_step a b))
bit-bit_or a b (suc k) =
    rw (bit-suc (bit_or a b) k, bit-suc a k, bit-suc b k)
      (ap (λ m. bit m k) (half a b) ∙ bit-bit_or (a / 2) (b / 2) k)

-- The one bit of a power of two.
pub bit-pow : (j k : ℕ) → bit (2 ^ j) k ≡ (if j == k then 1 else 0)
bit-pow zero zero = refl
bit-pow zero (suc k) = bit-suc 1 k ∙ ap (λ m. m % 2) (zero-div (2 ^ k)) ∙ ground arith
bit-pow (suc j) zero = rw (bit-zero (2 ^ suc j)) (ground (arith, pow-succ' 2 j))
bit-pow (suc j) (suc k) =
    rw (bit-suc (2 ^ suc j) k) (ap (λ m. bit m k) (half_pow j) ∙ bit-pow j k ∙ ground arith)
