-- ===== src/Base/Strconv/RoundTrip.antt =====
-- Atoi reads back what Itoa prints.
use Prim.Native.Nat.{ℕ, zero, suc, ◌+◌, ◌-◌, ◌/◌, ◌%◌, ◌^◌, ◌≤◌, ◌<◌}
use mathlib.Core.Path.{◌≡◌, refl}
use mathlib.Core.Bool.{true, false}
use mathlib.Core.List.{[], ◌∷◌}
use mathlib.Core.Option.{some}
use mathlib.Core.Logic.{◌≢◌, ◌⊎◌, inr}
use native.Mathlib.Omega.{arith}
use apsystems_sunspec.Base.Text.{Str}
use apsystems_sunspec.Base.Lists.{All, All-imp}
use apsystems_sunspec.Base.Int.{ℤ, pos, negsuc}
use apsystems_sunspec.Base.Strconv.{digits_before, itoa, atoi_digits, atoi_unsigned, ranged, atoi}

-- Reading the digits of `n` before a text leaves `n` to be continued.
atoi_digits-digits_before :
    (fuel n : ℕ) (rest : Str)
    → n < fuel
    → atoi_digits 0 (digits_before fuel n rest) ≡ atoi_digits n rest
unfolding digits_before atoi_digits
atoi_digits-digits_before zero n rest h = absurd (omega arith)
atoi_digits-digits_before (suc fuel) n rest h =
    ground (arith, atoi_digits-digits_before fuel (n / 10) ((48 + n % 10) ∷ rest))

-- The range of an int of that size.
abbrev pub IsInt : ℕ → ℤ → Type 0
IsInt bits (pos n) = n < 2 ^ (bits - 1)
IsInt bits (negsuc n) = n < 2 ^ (bits - 1)

abbrev pub IsDigit : ℕ → Type 0
IsDigit c = (48 ≤ c) × (c ≤ 57)

digits_before-All :
    (fuel n : ℕ) (acc : Str) → All IsDigit acc → All IsDigit (digits_before fuel n acc)
unfolding digits_before
digits_before-All zero n acc h = h
digits_before-All (suc fuel) n acc h = ground (
  arith,
  h,
  digits_before-All fuel (n / 10) ((48 + n % 10) ∷ acc) ((omega arith, omega arith), h),
)

-- At least one digit is put before the others.
digits_before-≢[] : (fuel n : ℕ) (acc : Str) → acc ≢ [] ⊎ (0 < fuel) → digits_before fuel n acc ≢ []
unfolding digits_before
digits_before-≢[] zero n acc h = ground (arith, h)
digits_before-≢[] (suc fuel) n acc h =
    ground (arith, digits_before-≢[] fuel (n / 10) ((48 + n % 10) ∷ acc))

atoi-digits :
    (bits : ℕ) (s : Str)
    → s ≢ []
    → All IsDigit s
    → atoi bits s ≡ ranged bits false (atoi_digits 0 s)
unfolding atoi atoi_unsigned
atoi-digits bits [] h d = absurd (h refl)
atoi-digits bits (c ∷ s) h d = ground (arith, d.0)

atoi-minus :
    (bits : ℕ) (s : Str) → s ≢ [] → atoi bits (b'-' ∷ s) ≡ ranged bits true (atoi_digits 0 s)
unfolding atoi atoi_unsigned
atoi-minus bits [] h = absurd (h refl)
atoi-minus bits (c ∷ s) h = refl

ranged-IsInt-pos : (bits n : ℕ) → n < 2 ^ (bits - 1) → ranged bits false (some n) ≡ some (pos n)
ranged-IsInt-pos bits n h = ground (arith, h)

ranged-IsInt-negsuc :
    (bits n : ℕ) → n < 2 ^ (bits - 1) → ranged bits true (some (n + 1)) ≡ some (negsuc n)
ranged-IsInt-negsuc bits n h = ground (arith, h)

some_number : (n : ℕ) → atoi_digits n [] ≡ some n
unfolding atoi_digits
some_number n = refl

-- Atoi reads an integer of its size back from what Itoa prints of it.
pub atoi-itoa : (bits : ℕ) (z : ℤ) → IsInt bits z → atoi bits (itoa z) ≡ some z
unfolding itoa
atoi-itoa bits (pos n) h =
    rw
      (
        atoi-digits bits (digits_before (n + 1) n [])
            (digits_before-≢[] (n + 1) n [] (inr (omega arith)))
            (digits_before-All (n + 1) n [] tt),
        atoi_digits-digits_before (n + 1) n [] (omega arith),
        some_number n,
      )
      (ranged-IsInt-pos bits n h)
atoi-itoa bits (negsuc n) h =
    rw
      (
        atoi-minus bits (digits_before (n + 2) (n + 1) [])
            (digits_before-≢[] (n + 2) (n + 1) [] (inr (omega arith))),
        atoi_digits-digits_before (n + 2) (n + 1) [] (omega arith),
        some_number (n + 1),
      )
      (ranged-IsInt-negsuc bits n h)

-- What is printed of a number has no white space and no comma.
pub itoa-IsPlain : (z : ℤ) → All (λ c. (32 < c) × (c ≢ 44)) (itoa z)
unfolding itoa
itoa-IsPlain (pos n) =
    All-imp _ _ (digits_before (n + 1) n []) (λ c d. ground (arith, d))
      (digits_before-All (n + 1) n [] tt)
itoa-IsPlain (negsuc n) = (
  (omega arith, ground arith),
  All-imp _ _ (digits_before (n + 2) (n + 1) []) (λ c d. ground (arith, d))
      (digits_before-All (n + 2) (n + 1) [] tt),
)
