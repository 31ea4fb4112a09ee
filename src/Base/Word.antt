-- ===== src/Base/Word.antt =====
-- Machine words: conversions to fixed widths, with their wrap-around written out.
use Prim.Native.Nat.{ℕ, ◌-◌, ◌%◌, ◌<◌}
use mathlib.Core.Path.{◌≡◌, refl}
use native.Mathlib.Omega.{arith}
use apsystems_sunspec.Base.Bools.{ltb, if◌then◌else◌}
use apsystems_sunspec.Base.Int.{ℤ, pos, negsuc}

-- uint8(n), uint16(n) and uint32(n) of an unsigned value.
abbrev pub u8 : ℕ → ℕ
u8 n = n % 256

abbrev pub u16 : ℕ → ℕ
u16 n = n % 65536

abbrev pub u32 : ℕ → ℕ
u32 n = n % 4294967296

-- uint16(z) of a signed value: its low 16 bits in two's complement.
unfoldable pub u16_of_ℤ : ℤ → ℕ
u16_of_ℤ (pos n) = n % 65536
u16_of_ℤ (negsuc n) = 65535 - n % 65536

-- int32(z): the value that the low 32 bits stand for.
unfoldable pub i32_of_ℤ : ℤ → ℤ
i32_of_ℤ (pos n) =
    let m = n % 4294967296 in if ltb m 2147483648 then pos m else negsuc (4294967295 - m)
i32_of_ℤ (negsuc n) =
    let m = n % 4294967296 in if ltb m 2147483648 then negsuc m else pos (4294967295 - m)

pub u16_of_ℤ-lt : (z : ℤ) → u16_of_ℤ z < 65536
unfolding u16_of_ℤ
u16_of_ℤ-lt (pos n) = omega arith
u16_of_ℤ-lt (negsuc n) = omega arith

minus_one : u16_of_ℤ (negsuc 0) ≡ 0xFFFF
unfolding u16_of_ℤ
minus_one = refl

wraps : i32_of_ℤ (pos 0xFFFF_FFFF) ≡ negsuc 0
unfolding i32_of_ℤ
wraps = refl
