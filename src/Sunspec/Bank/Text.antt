-- ===== src/Sunspec/Bank/Text.antt =====
-- `putString` of internal/sunspec/encoder.go, and what a client decodes from its registers.
use apsystems_sunspec.Base.{
  ℕ, zero, suc, ◌+◌, ◌*◌, ◌/◌, ◌%◌, ◌<◌, ◌≡◌, refl, ap, List, [], ◌∷◌, Str, All, length, drop,
  arith,
}
use apsystems_sunspec.Sunspec.Bank.{put_string}

abbrev pub IsByte : ℕ → Type 0
IsByte b = b < 256

-- The bytes of the registers, the high one first.
unfoldable pub bytes_of : List ℕ → Str
bytes_of [] = []
bytes_of (r ∷ rs) = r / 256 ∷ r % 256 ∷ bytes_of rs

-- The first `n` bytes of a string, with zeros behind its end.
unfoldable pub padded : ℕ → Str → Str
padded zero s = []
padded (suc n) [] = 0 ∷ padded n []
padded (suc n) (b ∷ s) = b ∷ padded n s

pub length-put_string : (s : Str) (n : ℕ) → length (put_string s n) ≡ n
unfolding put_string
length-put_string s zero = refl
length-put_string s (suc n) = ap suc (length-put_string (drop 2 s) n)

-- A string field of `n` registers decodes to the string, cut to `2 * n` bytes or padded with zeros
-- to that many, for any string of bytes.
pub bytes_of-put_string :
    (s : Str) (n : ℕ) → All IsByte s → bytes_of (put_string s n) ≡ padded (2 * n) s
unfolding bytes_of put_string padded
bytes_of-put_string s zero h = refl
bytes_of-put_string [] (suc n) h =
    let e : 2 * suc n ≡ suc (suc (2 * n)) = omega arith in
    rw e (ap (λ t. 0 ∷ 0 ∷ t) (bytes_of-put_string [] n h))
bytes_of-put_string (a ∷ []) (suc n) h =
    let e : 2 * suc n ≡ suc (suc (2 * n)) = omega arith in
    let hi : (a * 256 + 0) / 256 ≡ a = omega arith in
    let lo : (a * 256 + 0) % 256 ≡ 0 = omega arith in
    rw (e, hi, lo) (ap (λ t. a ∷ 0 ∷ t) (bytes_of-put_string [] n tt))
bytes_of-put_string (a ∷ b ∷ s) (suc n) h =
    let e : 2 * suc n ≡ suc (suc (2 * n)) = omega arith in
    let hi : (a * 256 + b) / 256 ≡ a = omega arith in
    let lo : (a * 256 + b) % 256 ≡ b = omega arith in
    rw (e, hi, lo) (ap (λ t. a ∷ b ∷ t) (bytes_of-put_string s n h.1.1))
