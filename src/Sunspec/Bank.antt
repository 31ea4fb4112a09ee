-- ===== src/Sunspec/Bank.antt =====
-- internal/sunspec/encoder.go: the register bank, how it is read, and how it is filled.
-- An emitter, which in the source only appends to `bank.Regs`, is modelled by the registers that it
-- appends, and calls of `put16` in a row by their list.
pub mod Reads
pub mod Text
use apsystems_sunspec.Base.{
  ℕ, zero, suc, ◌+◌, ◌-◌, ◌*◌, ◌/◌, ◌%◌, ◌^◌, Bool, false, List, [], ◌∷◌, Str, length, get_or, drop,
  ltb, leb, ◌==◌, if◌then◌else◌,
}
use apsystems_sunspec.Base.Int.{ℤ, pos, negsuc, ltb_ℤ}
use apsystems_sunspec.Base.Word.{u16, u16_of_ℤ}

-- The registers are 16-bit words; the first stands at the address `base`.
pub record Bank : Type 0 where
  pub regs : List ℕ
  pub base : ℕ

abbrev pub base_register : ℕ
base_register = 40000

-- The register at an address, or 0 outside the bank.
unfoldable pub at : Bank → ℕ → ℕ
at b addr =
    if ltb addr b.base
    then 0
    else let idx = addr - b.base in if leb (length b.regs) idx then 0 else get_or b.regs idx 0

-- The loop of Slice from the index `i`, with `n` rounds left; the address is a uint16.
unfoldable pub slice_from : Bank → ℕ → ℕ → ℕ → List ℕ
slice_from b addr i zero = []
slice_from b addr i (suc n) = at b (u16 (addr + i)) ∷ slice_from b addr (i + 1) n

unfoldable pub slice : Bank → ℕ → ℕ → List ℕ
unfolding slice_from at
slice b addr count = slice_from b addr 0 count

unfoldable pub contains : Bank → ℕ → ℕ → Bool
contains b addr count =
    if count == 0
    then false
    else if ltb addr b.base
    then false
    else leb (addr + count) (b.base + length b.regs)

-- putAcc32: uint16(v >> 16), then uint16(v).
abbrev pub acc32 : ℕ → List ℕ
acc32 v = u16 (v / 2 ^ 16) ∷ u16 v ∷ []

-- putString: the two bytes of each register, from a buffer that is zero past the string.
unfoldable pub put_string : Str → ℕ → List ℕ
put_string s zero = []
put_string s (suc n) = (get_or s 0 0 * 256 + get_or s 1 0) ∷ put_string (drop 2 s) n

abbrev pub not_impl_u16 : ℕ
not_impl_u16 = 0xFFFF

abbrev pub not_impl_s16 : ℕ
not_impl_s16 = 0x8000

abbrev pub not_impl_u32 : ℕ
not_impl_u32 = 0xFFFFFFFF

-- A scale factor is an int8, sign-extended to 16 bits.
abbrev pub scale_factor : ℤ → ℕ
scale_factor (pos n) = n
scale_factor (negsuc n) = 65535 - n

unfoldable pub clamp_i32 : ℤ → ℤ → ℤ → ℤ
clamp_i32 v lo hi = if ltb_ℤ v lo then lo else if ltb_ℤ hi v then hi else v

abbrev pub end_model_id : ℕ
end_model_id = 0xFFFF
