-- ===== src/Base/Strconv.antt =====
-- Go's strconv.Itoa and strconv.Atoi. The width of an int is an argument, `bits`.
pub mod RoundTrip
use Prim.Native.Nat.{ℕ, zero, suc, ◌+◌, ◌-◌, ◌*◌, ◌/◌, ◌%◌, ◌^◌}
use mathlib.Core.Path.{◌≡◌, refl}
use mathlib.Core.Bool.{Bool, true, false, ◌&&◌}
use mathlib.Core.List.{List, [], ◌∷◌, ◌++◌}
use mathlib.Core.Option.{Option, none, some}
use apsystems_sunspec.Base.Bools.{ltb, leb, ◌==◌, if◌then◌else◌}
use apsystems_sunspec.Base.Text.{Str, codes}
use apsystems_sunspec.Base.Int.{ℤ, pos, negsuc, sub_ℕ}

-- The digits of `n` before those in `acc`.
digits_before : ℕ → ℕ → Str → Str
digits_before zero n acc = acc
digits_before (suc fuel) n acc =
    let d = 48 + n % 10 in
    let rest = digits_before fuel (n / 10) (d ∷ acc) in if n / 10 == 0 then d ∷ acc else rest

unfoldable pub itoa : ℤ → Str
unfolding digits_before
itoa (pos n) = digits_before (n + 1) n []
itoa (negsuc n) = b'-' ∷ digits_before (n + 2) (n + 1) []

-- The number that the digits of a text continue.
atoi_digits : ℕ → Str → Option ℕ
atoi_digits n [] = some n
atoi_digits n (c ∷ s) =
    let rest = atoi_digits (n * 10 + (c - 48)) s in if leb 48 c && leb c 57 then rest else none

-- At least one digit, and nothing else.
atoi_unsigned : Str → Option ℕ
unfolding atoi_digits
atoi_unsigned [] = none
atoi_unsigned (c ∷ s) = atoi_digits 0 (c ∷ s)

-- The range of an int.
abbrev pub in_range : ℕ → Bool → ℕ → Bool
in_range bits negative n = if negative then leb n (2 ^ (bits - 1)) else ltb n (2 ^ (bits - 1))

abbrev ranged : ℕ → Bool → Option ℕ → Option ℤ
ranged bits negative none = none
ranged bits negative (some n) =
    if in_range bits negative n then some (if negative then sub_ℕ 0 n else pos n) else none

unfoldable pub atoi : ℕ → Str → Option ℤ
unfolding atoi_unsigned
atoi bits [] = none
atoi bits (c ∷ s) =
    if c == b'-'
    then ranged bits true (atoi_unsigned s)
    else if c == b'+'
    then ranged bits false (atoi_unsigned s)
    else ranged bits false (atoi_unsigned (c ∷ s))

itoa_of_negative : itoa (negsuc 104) ≡ codes "-105"
unfolding itoa
itoa_of_negative = refl

atoi_of_texts :
    (atoi 32 (codes "-105") ≡ some (negsuc 104))
    × (atoi 32 (codes "2147483648") ≡ none)
    × (atoi 64 (codes "+2147483648") ≡ some (pos 2147483648))
    × (atoi 32 (codes "1x") ≡ none)
    × (atoi 32 (codes "-") ≡ none)
unfolding atoi
atoi_of_texts = (refl, refl, refl, refl, refl)
