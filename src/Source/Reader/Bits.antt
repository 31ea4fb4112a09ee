-- ===== src/Source/Reader/Bits.antt =====
-- parseEventBits of internal/source/sqlite.go against apsBit of internal/sunspec/events.go.
use Prim.Native.Nat.{bit_or}
use native.Mathlib.Nat.{zero-div}
use apsystems_sunspec.Base.{
  ℕ, zero, suc, ◌+◌, ◌-◌, ◌/◌, ◌%◌, ◌^◌, ◌<◌, ◌≡◌, refl, Bool, false, ◌&&◌, ◌||◌, [], ◌∷◌, Str,
  get_or, leb, ◌==◌, if◌then◌else◌, arith,
}
use apsystems_sunspec.Base.Bits.{bit, bit-bit_or, bit-pow}
use apsystems_sunspec.Source.Inverter.{EventBits}
use apsystems_sunspec.Source.Reader.{set_bit, parse_bits_from, parse_event_bits}
use apsystems_sunspec.Source.Snapshot.{no_bits}
use apsystems_sunspec.Sunspec.Events.{aps}

bit_or-pow : (a j k : ℕ) → (bit (bit_or a (2 ^ j)) k == 1) ≡ ((bit a k == 1) || j == k)
bit_or-pow a j k = ground (arith, bit-bit_or a (2 ^ j) k, bit-pow j k)

-- Setting a bit sets that bit, and no other.
aps-set_bit :
    (out : EventBits) (i n : ℕ)
    → i < 128
    → n < 128
    → aps (set_bit out (i / 32) (i % 32)) n ≡ (aps out n || i == n)
unfolding aps set_bit
aps-set_bit out i n hi hn = ground (
  arith,
  hi,
  hn,
  bit_or-pow out.bits0 (i % 32) (n % 32),
  bit_or-pow out.bits1 (i % 32) (n % 32),
  bit_or-pow out.bits2 (i % 32) (n % 32),
  bit_or-pow out.bits3 (i % 32) (n % 32),
)

-- The byte `n` of the bitstring is '1'.
abbrev pub is_one : Str → ℕ → Bool
is_one s n = get_or s n 0 == b'1'

is_one-after :
    (c : ℕ) (s : Str) (n : ℕ) → is_one (c ∷ s) n ≡ (if n == 0 then c == b'1' else is_one s (n - 1))
is_one-after c s zero = refl
is_one-after c s (suc n) = ground arith

aps-parse_bits_from :
    (i : ℕ) (out : EventBits) (s : Str) (n : ℕ)
    → n < 128
    → aps (parse_bits_from i out s) n ≡ (aps out n || leb i n && is_one s (n - i))
unfolding parse_bits_from
aps-parse_bits_from i out [] n h = ground arith
aps-parse_bits_from i out (c ∷ s) n h = ground (
  arith,
  h,
  is_one-after c s (n - i),
  aps-set_bit out i n,
  aps-parse_bits_from (i + 1) (if c == b'1' then set_bit out (i / 32) (i % 32) else out) s n h,
)

aps-no_bits : (n : ℕ) → aps no_bits n ≡ false
unfolding aps
aps-no_bits n = ground (arith, zero-div (2 ^ (n % 32)))

-- For each of the 128 bits, apsBit of what parseEventBits makes of a bitstring of any length is
-- whether the byte of that number is there and is '1'.
pub aps-parse_event_bits :
    (eve : Str) (n : ℕ) → n < 128 → aps (parse_event_bits eve) n ≡ is_one eve n
unfolding parse_event_bits
aps-parse_event_bits eve n h = ground (arith, aps-parse_bits_from 0 no_bits eve n h, aps-no_bits n)
