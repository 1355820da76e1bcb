-- ===== src/Fixed.antt =====
-- The fixed-point functions of threads/thread.c (17.14 format, `F` is 2^14). An `int` wraps around
-- at 32 bits; `mulxy` and `divxy` compute in 64 bits, which their operands cannot overflow, and
-- convert the result to `int`. A division by zero traps, and so does INT_MIN / -1: both are `none`.
pub mod Convert
pub mod Scale
use pintos.Prelude.{ℕ, ◌^◌, Bool, ◌&&◌, ◌||◌, Option, none, some, ltb, leb, ◌==◌, if◌then◌else◌}
use pintos.Prelude.Int.{ℤ, pos, negsuc, ◌+ℤ◌, ◌-ℤ◌, ◌*ℤ◌, quot, wrap32, ltb_ℤ, pos_part, neg_part}

-- The macro F.
abbrev pub f_one : ℤ
f_one = pos 16384

abbrev pub is_zero : ℤ → Bool
is_zero a = (pos_part a == 0) && (neg_part a == 0)

unfoldable pub con_ntof : ℤ → ℤ
con_ntof n = wrap32 (n *ℤ f_one)

unfoldable pub con_xton_zero : ℤ → ℤ
con_xton_zero x = quot x f_one

unfoldable pub con_xton_near : ℤ → ℤ
con_xton_near x =
    if ltb_ℤ (pos 0) x
    then quot (wrap32 (x +ℤ quot f_one (pos 2))) f_one
    else quot (wrap32 (x -ℤ quot f_one (pos 2))) f_one

unfoldable pub addxy : ℤ → ℤ → ℤ
addxy x y = wrap32 (x +ℤ y)

unfoldable pub subxy : ℤ → ℤ → ℤ
subxy x y = wrap32 (x -ℤ y)

unfoldable pub addxn : ℤ → ℤ → ℤ
addxn x n = wrap32 (x +ℤ wrap32 (n *ℤ f_one))

unfoldable pub subxn : ℤ → ℤ → ℤ
subxn x n = wrap32 (x -ℤ wrap32 (n *ℤ f_one))

unfoldable pub mulxy : ℤ → ℤ → ℤ
mulxy x y = wrap32 (quot (x *ℤ y) f_one)

unfoldable pub mulxn : ℤ → ℤ → ℤ
mulxn x n = wrap32 (x *ℤ n)

unfoldable pub divxy : ℤ → ℤ → Option ℤ
divxy x y = if is_zero y then none else some (wrap32 (quot (x *ℤ f_one) y))

unfoldable pub divxn : ℤ → ℤ → Option ℤ
divxn x n =
    if is_zero n || ((neg_part x == 2 ^ 31) && (neg_part n == 1)) then none else some (quot x n)
