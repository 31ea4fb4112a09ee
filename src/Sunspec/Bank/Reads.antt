-- ===== src/Sunspec/Bank/Reads.antt =====
-- What a client reads: `Slice` and `Contains` of internal/sunspec/encoder.go.
use apsystems_sunspec.Base.{
  ℕ, zero, suc, ◌+◌, ◌-◌, ◌≤◌, ◌<◌, ◌≡◌, refl, ap, true, List, [], ◌∷◌, length, get_or, take, drop,
  arith,
}
use apsystems_sunspec.Base.Word.{u16}
use apsystems_sunspec.Sunspec.Bank.{Bank, at, slice_from, slice, contains}

-- Inside the bank an address reads its register.
pub at-get_or : (b : Bank) (i : ℕ) → i < length b.regs → at b (b.base + i) ≡ get_or b.regs i 0
unfolding at
at-get_or b i h = let e : b.base + i - b.base ≡ i = omega arith in rw e (ground arith)

drop_at : (k : ℕ) (xs : List ℕ) → k < length xs → drop k xs ≡ get_or xs k 0 ∷ drop (suc k) xs
drop_at zero [] h = absurd (omega arith)
drop_at zero (x ∷ xs) h = refl
drop_at (suc k) [] h = absurd (omega arith)
drop_at (suc k) (x ∷ xs) h = drop_at k xs (omega arith)

slice_from-take :
    (b : Bank) (off i n k : ℕ)
    → k ≡ off + i
    → k + n ≤ length b.regs
    → b.base + length b.regs ≤ 65536
    → slice_from b (b.base + off) i n ≡ take n (drop k b.regs)
unfolding slice_from
slice_from-take b off i zero k e fits fit16 = refl
slice_from-take b off i (suc n) k e fits fit16 =
    let a : u16 (b.base + off + i) ≡ b.base + k = omega arith in
    rw (a, at-get_or b k (omega arith), drop_at k b.regs (omega arith))
      (ap (◌∷◌ (get_or b.regs k 0))
        (slice_from-take b off (i + 1) n (suc k) (omega arith) (omega arith) fit16))

contains_bounds :
    (b : Bank) (addr count : ℕ)
    → contains b addr count ≡ true
    → (1 ≤ count) × (b.base ≤ addr) × (addr + count ≤ b.base + length b.regs)
unfolding contains
contains_bounds b addr count h = ground arith

-- A read that `Contains` accepts returns exactly the registers of the bank from that address on, as
-- many as were asked for, in a bank that ends within the 16-bit address space.
pub slice-contained :
    (b : Bank) (addr count : ℕ)
    → contains b addr count ≡ true
    → b.base + length b.regs ≤ 65536
    → slice b addr count ≡ take count (drop (addr - b.base) b.regs)
unfolding slice
slice-contained b addr count h fit16 =
    let bounds = contains_bounds b addr count h in
    let e : b.base + (addr - b.base) ≡ addr = omega arith in
    rw (← e) (
      slice_from-take b (addr - b.base) 0 count (b.base + (addr - b.base) - b.base) (omega arith)
        (omega arith) fit16)

-- However far a read reaches, it has as many registers as were asked for.
pub length-slice_from : (b : Bank) (addr i n : ℕ) → length (slice_from b addr i n) ≡ n
unfolding slice_from
length-slice_from b addr i zero = refl
length-slice_from b addr i (suc n) = ap suc (length-slice_from b addr (i + 1) n)
