-- ===== src/Thread/Mlfqs/Decay.antt =====
-- The decay of recent_cpu: recalc_cpu() of threads/thread.c.
use native.Mathlib.Nat.{div-lt_iff_lt-mul, le-div_iff_mul-le, mul-le-mul_right}
use pintos.Prelude.{ℕ, suc, ◌+◌, ◌*◌, ◌/◌, ◌≤◌, ◌<◌, ◌≡◌, refl, some, arith}
use pintos.Prelude.Int.{
  ℤ, pos, negsuc, pos_part, neg_part, ◌+ℤ◌, ◌*ℤ◌, wrap32, IsInt32, mul-pos-pos, mul-pos-neg,
  quot-pos-pos, quot-neg-pos, wrap32-pos, +ℤ-pos, negsuc-neg, wrap32-neg, pos_part-neg,
  neg_part-neg,
}
use pintos.Fixed.{con_ntof, addxn, mulxy, divxy}
use pintos.Thread.{Thread}
use pintos.Thread.Mlfqs.{decay, next_cpu}

two : con_ntof (pos 2) ≡ pos 32768
unfolding con_ntof ◌*ℤ◌ wrap32
two = refl

doubled : (a : ℕ) → 2 * a < 2147483648 → mulxy (con_ntof (pos 2)) (pos a) ≡ pos (2 * a)
unfolding mulxy
doubled a h =
    rw (two, mul-pos-pos, quot-pos-pos)
      (let e : 32768 * a / 16384 ≡ 2 * a = omega arith in rw e (wrap32-pos (2 * a) h))

one_more : (b : ℕ) → b + 16384 < 2147483648 → addxn (pos b) (pos 1) ≡ pos (b + 16384)
unfolding addxn
one_more b h =
    rw (mul-pos-pos, wrap32-pos (1 * 16384) (omega arith), +ℤ-pos) (wrap32-pos (b + 16384) h)

ratio-lt : (b : ℕ) → b * 16384 / (b + 16384) < 16384
ratio-lt b =
    (div-lt_iff_lt-mul {k = b + 16384} {x = b * 16384} {y = 16384} (omega arith)).1 (omega arith)

-- With a load average that is not negative and below 2^30 the coefficient exists.
decay-pos :
    (a : ℕ)
    → 2 * a + 16384 < 2147483648
    → decay (pos a) ≡ some (pos (2 * a * 16384 / (2 * a + 16384)))
unfolding decay divxy
decay-pos a h =
    let c = 2 * a * 16384 / (2 * a + 16384) in
    let l : c < 16384 = ratio-lt (2 * a) in
    rw (doubled a (omega arith), one_more (2 * a) h)
      (rw (mul-pos-pos, quot-pos-pos, wrap32-pos c (omega arith)) (ground arith))

scaled-le : (c x : ℕ) → c < 16384 → c * x / 16384 ≤ x
scaled-le c x h = let m : c * x ≤ 16384 * x = grind arith in omega arith

-- With the coefficient b / (b + 1), in fixed-point numbers.
scaled_ratio-le : (b x : ℕ) → b * 16384 / (b + 16384) * x / 16384 ≤ b * x / (b + 16384)
scaled_ratio-le b x =
    let c = b * 16384 / (b + 16384) in
    let q = c * x / 16384 in
    let below : q * 16384 ≤ c * x = omega arith in
    let ratio : c * (b + 16384) ≤ b * 16384 =
      (le-div_iff_mul-le {k = b + 16384} {x = c} {y = b * 16384} (omega arith)).0 (omega arith) in
    let one_side : q * 16384 * (b + 16384) ≤ c * x * (b + 16384) = mul-le-mul_right _ below in
    let other_side : c * (b + 16384) * x ≤ b * 16384 * x = mul-le-mul_right _ ratio in
    (le-div_iff_mul-le {k = b + 16384} {x = q} {y = b * x} (omega arith)).1 (omega arith)

-- A product with a coefficient below one.
mulxy_parts :
    (c : ℕ) (x : ℤ)
    → c < 16384
    → IsInt32 x
    → (pos_part (mulxy (pos c) x) ≡ c * pos_part x / 16384)
      × (neg_part (mulxy (pos c) x) ≡ c * neg_part x / 16384)
unfolding mulxy
mulxy_parts c (pos x) h i =
    let b = scaled-le c x h in
    rw (mul-pos-pos, quot-pos-pos)
      (rw (wrap32-pos (c * x / 16384) (omega (arith, i.upper))) (refl, omega arith))
mulxy_parts c (negsuc x) h i =
    let b = scaled-le c (suc x) h in
    rw (negsuc-neg x, mul-pos-neg, quot-neg-pos)
      (rw (wrap32-neg (c * suc x / 16384) (omega (arith, i.lower)))
        (rw (pos_part-neg, neg_part-neg) (omega arith, refl)))

-- The sum of a fixed-point number and an integer, where nothing overflows.
addxn_parts :
    (x n : ℤ)
    → pos_part x + 16384 * pos_part n < 2147483648
    → neg_part x + 16384 * neg_part n ≤ 2147483648
    → (pos_part (addxn x n) ≤ pos_part x + 16384 * pos_part n)
      × (neg_part (addxn x n) ≤ neg_part x + 16384 * neg_part n)
unfolding addxn ◌*ℤ◌ ◌+ℤ◌ wrap32
addxn_parts (pos x) (pos n) h k = ground arith
addxn_parts (pos x) (negsuc n) h k = ground arith
addxn_parts (negsuc x) (pos n) h k = ground arith
addxn_parts (negsuc x) (negsuc n) h k = ground arith

-- recalc_cpu() decays: with a load average that is not negative, the new recent_cpu of a thread exists
-- (no division traps) and lies, on either side of zero, no further than the old one times
-- 2 * load_avg / (2 * load_avg + 1), moved by the nice value: 16384 is the fixed-point 1. The old one
-- moved by the nice value, and twice the load average, must fit an `int`.
pub next_cpu_bounds :
    (load : ℤ) (t : Thread)
    → neg_part load ≡ 0
    → 2 * pos_part load + 16384 < 2147483648
    → pos_part t.recent_cpu + 16384 * pos_part t.nice < 2147483648
    → neg_part t.recent_cpu + 16384 * neg_part t.nice ≤ 2147483648
    → (c : ℤ) × (next_cpu load t ≡ some c)
      × (pos_part c
          ≤ 2 * pos_part load * pos_part t.recent_cpu / (2 * pos_part load + 16384)
            + 16384 * pos_part t.nice)
      × (neg_part c
          ≤ 2 * pos_part load * neg_part t.recent_cpu / (2 * pos_part load + 16384)
            + 16384 * neg_part t.nice)
unfolding next_cpu
next_cpu_bounds (pos a) t z h u l =
    let c = 2 * a * 16384 / (2 * a + 16384) in
    let less : c < 16384 = ratio-lt (2 * a) in
    let x = t.recent_cpu in
    let (p, q) = mulxy_parts c x less (record { upper = omega arith; lower = omega arith }) in
    let up = scaled-le c (pos_part x) less in
    let down = scaled-le c (neg_part x) less in
    let up' = scaled_ratio-le (2 * a) (pos_part x) in
    let down' = scaled_ratio-le (2 * a) (neg_part x) in
    let (p', q') = addxn_parts (mulxy (pos c) x) t.nice (omega arith) (omega arith) in
    (addxn (mulxy (pos c) x) t.nice, rw (decay-pos a h) refl, omega arith, omega arith)
next_cpu_bounds (negsuc a) t z h u l = absurd (omega arith)
