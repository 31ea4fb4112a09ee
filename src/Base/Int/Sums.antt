-- ===== src/Base/Int/Sums.antt =====
-- The laws of the addition of integers.
use mathlib.Core.Path.{◌≡◌}
use native.Mathlib.Omega.{arith}
use apsystems_sunspec.Base.Int.{ℤ, pos, negsuc, ◌+ℤ◌}

pub add_zero : (z : ℤ) → z +ℤ pos 0 ≡ z
unfolding ◌+ℤ◌
add_zero (pos n) = ground arith
add_zero (negsuc n) = ground arith

pub add_assoc : (x y z : ℤ) → x +ℤ y +ℤ z ≡ x +ℤ (y +ℤ z)
unfolding ◌+ℤ◌
add_assoc (pos x) (pos y) (pos z) = ground arith
add_assoc (pos x) (pos y) (negsuc z) = ground arith
add_assoc (pos x) (negsuc y) (pos z) = ground arith
add_assoc (pos x) (negsuc y) (negsuc z) = ground arith
add_assoc (negsuc x) (pos y) (pos z) = ground arith
add_assoc (negsuc x) (pos y) (negsuc z) = ground arith
add_assoc (negsuc x) (negsuc y) (pos z) = ground arith
add_assoc (negsuc x) (negsuc y) (negsuc z) = ground arith

pub zero_add : (z : ℤ) → pos 0 +ℤ z ≡ z
unfolding ◌+ℤ◌
zero_add (pos n) = ground arith
zero_add (negsuc n) = ground arith
