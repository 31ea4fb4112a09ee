-- ===== src/Floats.antt =====
-- IEEE floating point, which no file of the repository implements: the type of float64 values, the
-- operations that the Go code applies to them, and float32 for the models 111 to 114.
use apsystems_sunspec.Base.{ℕ, Bool}
use apsystems_sunspec.Base.Int.{ℤ}

pub record Floats : Type 1 where
  pub F : Type 0
  -- The decimal constant m / 10 ^ k, as the compiler rounds it.
  pub lit : ℕ → ℕ → F
  -- float64(z)
  pub of_ℤ : ℤ → F
  pub add : F → F → F
  pub sub : F → F → F
  pub mul : F → F → F
  pub div : F → F → F
  pub abs : F → F
  pub lt : F → F → Bool
  pub le : F → F → Bool
  -- The conversions uint16(x), uint32(x), uint64(x) and int(x).
  pub to_u16 : F → ℕ
  pub to_u32 : F → ℕ
  pub to_u64 : F → ℕ
  pub to_int : F → ℤ
  -- float32: the conversions into it, its division, its sign test, and math.Float32bits.
  pub F32 : Type 0
  pub to_f32 : F → F32
  pub f32_of_ℤ : ℤ → F32
  pub f32_div : F32 → F32 → F32
  pub f32_pos : F32 → Bool
  pub f32_bits : F32 → ℕ
