-- ===== src/Base/Int64.antt =====
-- Go's fixed-width integers: int64 as the integers with wrap-around, uint64 as the numbers
-- below 2 ^ 64.
use Prim.Native.Nat.{ℕ, ◌+◌, ◌-◌, ◌*◌, ◌/◌, ◌%◌, ◌^◌, ◌≤◌, ◌<◌}
use mathlib.Core.Path.{◌≡◌}
use native.Mathlib.Omega.{arith}
use gnoracle.Base.Tests.{ltb, if◌then◌else◌}
use gnoracle.Base.Int.{ℤ, pos, negsuc, pos_part, neg_part, ◌+ℤ◌, ◌-ℤ◌, ◌*ℤ◌, quot}

abbrev pub two63 : ℕ
two63 = 2 ^ 63

abbrev pub two64 : ℕ
two64 = 2 ^ 64

-- The integer that a bit pattern stands for.
abbrev pub of_bits : ℕ → ℤ
of_bits r = if ltb r two63 then pos r else negsuc (two64 - 1 - r)

-- The bit pattern of an integer reduced to 64 bits: the conversion to uint64.
abbrev pub to_uint64 : ℤ → ℕ
to_uint64 (pos n) = n % two64
to_uint64 (negsuc n) = two64 - 1 - n % two64

-- The value that int64 arithmetic keeps of an exact result.
unfoldable pub to_int64 : ℤ → ℤ
to_int64 z = of_bits (to_uint64 z)

-- The range of int64.
pub record IsInt64 (z : ℤ) : Type 0 where
  pub above : neg_part z ≤ two63
  pub below : pos_part z < two63

unfoldable pub add64 : ℤ → ℤ → ℤ
unfolding to_int64 ◌+ℤ◌
add64 a b = to_int64 (a +ℤ b)

unfoldable pub sub64 : ℤ → ℤ → ℤ
unfolding to_int64 ◌-ℤ◌
sub64 a b = to_int64 (a -ℤ b)

unfoldable pub mul64 : ℤ → ℤ → ℤ
unfolding to_int64 ◌*ℤ◌
mul64 a b = to_int64 (a *ℤ b)

unfoldable pub div64 : ℤ → ℤ → ℤ
unfolding to_int64 quot
div64 a b = to_int64 (quot a b)

-- In range nothing wraps around.
pub to_int64_exact : (z : ℤ) → IsInt64 z → to_int64 z ≡ z
unfolding to_int64
to_int64_exact z h = ground arith

pub to_int64-IsInt64 : (z : ℤ) → IsInt64 (to_int64 z)
unfolding to_int64
to_int64-IsInt64 z = ground arith

pub to_int64-to_int64 : (z : ℤ) → to_int64 (to_int64 z) ≡ to_int64 z
to_int64-to_int64 z = to_int64_exact (to_int64 z) (to_int64-IsInt64 z)

pub add64_exact : (a b : ℤ) → IsInt64 (a +ℤ b) → add64 a b ≡ a +ℤ b
unfolding add64
add64_exact a b h = to_int64_exact (a +ℤ b) h

pub sub64_exact : (a b : ℤ) → IsInt64 (a -ℤ b) → sub64 a b ≡ a -ℤ b
unfolding sub64
sub64_exact a b h = to_int64_exact (a -ℤ b) h

pub mul64_exact : (a b : ℤ) → IsInt64 (a *ℤ b) → mul64 a b ≡ a *ℤ b
unfolding mul64
mul64_exact a b h = to_int64_exact (a *ℤ b) h

pub add64_pos : (a b : ℕ) → a + b < two63 → add64 (pos a) (pos b) ≡ pos (a + b)
unfolding add64
add64_pos a b h = ground arith

pub mul64_pos : (a b : ℕ) → a * b < two63 → mul64 (pos a) (pos b) ≡ pos (a * b)
unfolding mul64
mul64_pos a b h = ground arith

pub div64_pos : (a b : ℕ) → a / b < two63 → div64 (pos a) (pos b) ≡ pos (a / b)
unfolding div64
div64_pos a b h = ground arith
