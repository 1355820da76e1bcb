-- ===== src/Thread/Mlfqs/Load.antt =====
-- The load average: recalc_load() of threads/thread.c.
use pintos.Prelude.{ℕ, ◌+◌, ◌*◌, ◌/◌, ◌≤◌, ◌<◌, ◌≡◌, refl, some, arith}
use pintos.Prelude.Int.{
  ℤ, pos, negsuc, pos_part, neg_part, ◌*ℤ◌, quot, wrap32, mul-pos-pos, quot-pos-pos, wrap32-pos,
  +ℤ-pos,
}
use pintos.Fixed.{con_ntof, addxy, mulxy, mulxn, divxn}
use pintos.Thread.Mlfqs.{next_load}

-- The load is never negative, and never above the number of threads that can be ready.
pub record IsLoad (load : ℤ) (n : ℕ) : Type 0 where
  pub nonneg : neg_part load ≡ 0
  pub bound : pos_part load ≤ 16384 * n

weight_old : divxn (con_ntof (pos 59)) (pos 60) ≡ some (pos 16110)
unfolding divxn con_ntof ◌*ℤ◌ wrap32 quot
weight_old = refl

weight_new : divxn (con_ntof (pos 1)) (pos 60) ≡ some (pos 273)
unfolding divxn con_ntof ◌*ℤ◌ wrap32 quot
weight_new = refl

next_load-pos :
    (a r : ℕ)
    → 16110 * a / 16384 + 273 * r < 2147483648
    → next_load (pos a) (pos r) ≡ some (pos (16110 * a / 16384 + 273 * r))
unfolding next_load mulxy mulxn addxy
next_load-pos a r h =
    rw (weight_old, weight_new, next_load)
      (rw (mul-pos-pos, quot-pos-pos, mul-pos-pos)
        (rw
          (wrap32-pos (16110 * a / 16384) (omega arith), wrap32-pos (273 * r) (omega arith), +ℤ-pos)
          (rw (wrap32-pos (16110 * a / 16384 + 273 * r) h))))

-- recalc_load() neither traps nor overflows, and it keeps the load average between 0 and the largest
-- number of threads that were ready at once, as fixed-point numbers, whenever that is below 2^17.
pub next_load-IsLoad :
    (load : ℤ) (r n : ℕ)
    → n < 131072
    → r ≤ n
    → IsLoad load n
    → (l : ℤ) × (next_load load (pos r) ≡ some l) × IsLoad l n
next_load-IsLoad (pos a) r n h k i = (
  pos (16110 * a / 16384 + 273 * r),
  next_load-pos a r (bounded a r n h k i.bound),
  record { nonneg = refl; bound = kept a r n k i.bound },
)
  where
    bounded :
        (a r n : ℕ) → n < 131072 → r ≤ n → a ≤ 16384 * n → 16110 * a / 16384 + 273 * r < 2147483648
    bounded a r n h k b = omega arith

    kept : (a r n : ℕ) → r ≤ n → a ≤ 16384 * n → 16110 * a / 16384 + 273 * r ≤ 16384 * n
    kept a r n k b = omega arith
next_load-IsLoad (negsuc a) r n h k i = absurd (omega (arith, i.nonneg))
