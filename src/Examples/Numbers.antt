-- ===== src/Examples/Numbers.antt =====
-- Fixed-point numbers, the load average and recent_cpu of threads/thread.c, at concrete values.
use pintos.Prelude.{◌≤◌, ◌≡◌, refl, some, arith}
use pintos.Prelude.Int.{ℤ, pos, pos_part, neg_part}
use pintos.Examples.{a_thread}
use pintos.Thread.{ready, Thread}
use pintos.Thread.Mlfqs.{next_cpu, next_load}
use pintos.Thread.Mlfqs.Decay.{next_cpu_bounds}
use pintos.Thread.Mlfqs.Load.{IsLoad, next_load-IsLoad}

abbrev nice_thread : Thread
nice_thread = record (a_thread 2 ready (pos 31)) { nice = pos 5; recent_cpu = pos 40000 }

next_cpu_bounds_example :
    (c : ℤ) × (next_cpu (pos 30000) nice_thread ≡ some c) × (pos_part c ≤ 113340) × (neg_part c ≤ 0)
next_cpu_bounds_example =
    next_cpu_bounds (pos 30000) nice_thread refl (omega arith) (omega arith) (omega arith)

next_load-IsLoad_example : (l : ℤ) × (next_load (pos 30000) (pos 2) ≡ some l) × IsLoad l 3
next_load-IsLoad_example =
    next_load-IsLoad (pos 30000) 2 3 (omega arith) (omega arith)
      (record { nonneg = refl; bound = omega arith })
