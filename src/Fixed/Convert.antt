-- ===== src/Fixed/Convert.antt =====
-- Conversions between integers and fixed point in threads/thread.c.
use pintos.Prelude.{ℕ, ◌+◌, ◌*◌, ◌≤◌, ◌<◌, ◌≡◌, arith}
use pintos.Prelude.Int.{
  ℤ, pos, negsuc, ◌+ℤ◌, ◌-ℤ◌, ◌*ℤ◌, quot, wrap32, pos_part, neg_part, IsInt32, wrap32-IsInt32,
}
use pintos.Fixed.{f_one, con_ntof, con_xton_zero, con_xton_near, addxn, subxn}

-- The integers that fixed point can hold: |n| * 2^14 fits an `int`.
pub record IsWhole (n : ℤ) : Type 0 where
  pub upper : pos_part n < 131072
  pub lower : neg_part n < 131072

con_ntof-pos : (n : ℕ) → n < 131072 → con_ntof (pos n) ≡ pos (n * 16384)
unfolding con_ntof ◌*ℤ◌ wrap32
con_ntof-pos n h = ground arith

con_ntof-negsuc : (n : ℕ) → n + 1 < 131072 → con_ntof (negsuc n) ≡ negsuc (n * 16384 + 16383)
unfolding con_ntof ◌*ℤ◌ wrap32
con_ntof-negsuc n h = ground arith

-- Converting an integer to fixed point and back, with either rounding, gives the integer again,
-- for every integer that fixed point can hold.
pub con_xton-con_ntof :
    (n : ℤ) → IsWhole n → (con_xton_zero (con_ntof n) ≡ n) × (con_xton_near (con_ntof n) ≡ n)
unfolding con_xton_zero con_xton_near quot ◌+ℤ◌ ◌-ℤ◌ wrap32
con_xton-con_ntof (pos n) h = ground (arith, con_ntof-pos n)
con_xton-con_ntof (negsuc n) h = ground (arith, con_ntof-negsuc n)

-- `r` is an integer nearest to `x / F`: the distance from `x` to `r * F` is at most `F / 2`.
pub record IsNearest (x r : ℤ) : Type 0 where
  pub below : pos_part x + 16384 * neg_part r ≤ 16384 * pos_part r + neg_part x + 8192
  pub above : 16384 * pos_part r + neg_part x ≤ pos_part x + 16384 * neg_part r + 8192

-- `con_xton_near` rounds to a nearest integer, whenever adding or subtracting F / 2 does not
-- overflow.
pub con_xton_near-IsNearest :
    (x : ℤ)
    → pos_part x + 8192 < 2147483648
    → neg_part x + 8192 ≤ 2147483648
    → IsNearest x (con_xton_near x)
unfolding con_xton_near quot ◌+ℤ◌ ◌-ℤ◌ wrap32
con_xton_near-IsNearest (pos n) h k = ground arith
con_xton_near-IsNearest (negsuc n) h k = ground arith

wrap32_sub_add : (x m : ℤ) → IsInt32 x → IsInt32 m → wrap32 (wrap32 (x +ℤ m) -ℤ m) ≡ x
unfolding wrap32 ◌+ℤ◌ ◌-ℤ◌
wrap32_sub_add (pos x) (pos m) h k = ground arith
wrap32_sub_add (pos x) (negsuc m) h k = ground arith
wrap32_sub_add (negsuc x) (pos m) h k = ground arith
wrap32_sub_add (negsuc x) (negsuc m) h k = ground arith

-- `subxn` undoes `addxn` on every `int`, also where the sum wraps around.
pub subxn-addxn : (x n : ℤ) → IsInt32 x → subxn (addxn x n) n ≡ x
unfolding addxn subxn
subxn-addxn x n h = wrap32_sub_add x (wrap32 (n *ℤ f_one)) h (wrap32-IsInt32 (n *ℤ f_one))
