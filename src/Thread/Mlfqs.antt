-- ===== src/Thread/Mlfqs.antt =====
-- The timer tick and the multi-level feedback queue: thread_tick(), inc_recent_cpu(), recalc_pri(),
-- recalc_cpu(), getReadyThread() and recalc_load().
pub mod Load
pub mod Decay
pub mod Resort
use mathlib.Core.Option
use pintos.Prelude.{
  length, leb, ◌==◌, if◌then◌else◌, ℕ, zero, suc, ◌+◌, ◌%◌, ◌^◌, Bool, true, false, not, Option,
  none, some, List, [], ◌∷◌, map,
}
use pintos.Prelude.Int.{ℤ, pos, ltb_ℤ, eq_ℤ}
use pintos.Fixed.{con_ntof, addxy, addxn, mulxy, mulxn, divxy, divxn}
use pintos.KernelList.{KernelList}
use pintos.Thread.{
  Donate, Thread, Kernel, null, time_slice, put, write, compare_pri, Act, pure, and_then, ◌>>=◌,
  ◌>>◌, modify, gets, thread_current,
}
use pintos.Thread.Donation.{lift, mlfqs_calc_pri, check_current_thread_priority}
use pintos.Thread.Fields.{compare_all}

-- A traversal of the list of all threads that may trap.
unfoldable pub fold_threads : (ℕ → Act (Unit {0})) → List ℕ → Act (Unit {0})
fold_threads body [] = pure tt
fold_threads body (t ∷ ts) = body t >> fold_threads body ts

unfoldable pub inc_recent_cpu : Act (Unit {0})
inc_recent_cpu = do
  t ← thread_current
  modify (λ k.
      if t == k.idle_thread
      then k
      else write k t (record (k.thread t) { recent_cpu = addxn (k.thread t).recent_cpu (pos 1) }))

-- (2 * load_avg) / (2 * load_avg + 1)
unfoldable pub decay : ℤ → Option ℤ
decay load = divxy (mulxy (con_ntof (pos 2)) load) (addxn (mulxy (con_ntof (pos 2)) load) (pos 1))

-- The new recent_cpu of a thread.
unfoldable pub next_cpu : ℤ → Thread → Option ℤ
next_cpu load t = Option.map (λ c. addxn (mulxy c t.recent_cpu) t.nice) (decay load)

unfoldable pub recalc_cpu_of : ℕ → Act (Unit {0})
recalc_cpu_of t = do
  idle ← gets (λ k. k.idle_thread)
  c ← (λ k.
      lift (if t == idle then some (k.thread t).recent_cpu else next_cpu k.load_avg (k.thread t)) k)
  modify (λ k. write k t (record (k.thread t) { recent_cpu = c }))

unfoldable pub recalc_cpu : Act (Unit {0})
unfolding fold_threads recalc_cpu_of
recalc_cpu k = fold_threads recalc_cpu_of k.all_list k

-- The ready threads and the running one, if it is not the idle thread.
unfoldable pub get_ready_thread : Act ℕ
get_ready_thread = do
  cur ← thread_current
  gets (λ k. if cur == k.idle_thread then length k.ready_list else length k.ready_list + 1)

-- 59/60 * load_avg + 1/60 * ready threads.
unfoldable pub next_load : ℤ → ℤ → Option ℤ
next_load load n = elim (divxn (con_ntof (pos 59)) (pos 60)) [
  | none ↦ none
  | some a ↦ Option.map (λ b. addxy (mulxy a load) (mulxn b n)) (divxn (con_ntof (pos 1)) (pos 60))
]

unfoldable pub recalc_load : Act (Unit {0})
recalc_load = do
  n ← get_ready_thread
  l ← (λ k. lift (next_load k.load_avg (pos n)) k)
  modify (λ k. record k { load_avg = l })

-- The largest of a priority and those of the donators, in the order of the list.
raised : (ℕ → Thread) → ℤ → List Donate → ℤ
raised f p [] = p
raised f p (d ∷ ds) =
    raised f (if ltb_ℤ p (f d.donator).priority then (f d.donator).priority else p) ds

module _ (lib : KernelList) where
  -- A changed priority is stored, and the run queue sorted again.
  unfoldable pub store_priority : ℕ → ℤ → Kernel → Kernel
  store_priority t p k = if eq_ℤ (k.thread t).priority p then k else record k {
    thread = put k.thread t (record (k.thread t) { priority = p });
    ready_list =
        lib.sort (compare_pri (put k.thread t (record (k.thread t) { priority = p }))) k.ready_list;
  }

  unfoldable pub recalc_pri_of : ℕ → Act (Unit {0})
  recalc_pri_of t = do
    idle ← gets (λ k. k.idle_thread)
    p ← (λ k.
        lift (if t == idle then some (k.thread t).priority else mlfqs_calc_pri (k.thread t)) k)
    modify (store_priority t p)

  -- The body of the loop without the multi-level feedback queue.
  recalc_donated_of : ℕ → Act (Unit {0})
  recalc_donated_of t = modify (λ k.
      let p = raised k.thread (k.thread t).priority (k.thread t).donate_list in
      write k t (record (k.thread t) { priority = p }))

  -- The list of all threads is sorted through `allelem`, so by the words that compare_all reads.
  donation_rounds : ℕ → Act (Unit {0})
  donation_rounds zero = pure tt
  donation_rounds (suc n) = do
    modify (λ k. record k { all_list = lib.sort (compare_all k.thread) k.all_list })
    (λ k. fold_threads recalc_donated_of k.all_list k)
    donation_rounds n

  unfoldable pub recalc_pri : Act (Unit {0})
  unfolding fold_threads recalc_pri_of donation_rounds recalc_donated_of raised
  recalc_pri k = elim k.mlfqs [
    | false ↦ donation_rounds (length k.all_list) k
    | true ↦
        and_then (fold_threads recalc_pri_of k.all_list k) (λ _. check_current_thread_priority lib)
  ]

-- The statistics of a tick.
unfoldable pub count_tick : ℕ → Kernel → Kernel
count_tick t k =
    if t == k.idle_thread
    then record k { idle_ticks = k.idle_ticks + 1 }
    else if not ((k.thread t).pagedir == null)
    then record k { user_ticks = k.user_ticks + 1 }
    else record k { kernel_ticks = k.kernel_ticks + 1 }

-- A thread whose slice is used up gives way when the interrupt returns.
unfoldable pub count_slice : Kernel → Kernel
count_slice k =
    let n = (k.thread_ticks + 1) % 2 ^ 32 in
    record k {
      thread_ticks = n;
      yield_on_return = if leb time_slice n then true else k.yield_on_return;
    }

-- Only if the test holds.
abbrev pub when : Bool → Act (Unit {0}) → Act (Unit {0})
when true m = m
when false m = pure tt

-- `now` is timer_ticks(), `freq` TIMER_FREQ of devices/timer.h.
module _ (lib : KernelList) (freq : ℕ) where
  unfoldable pub thread_tick : ℕ → Act (Unit {0})
  thread_tick now = do
    t ← thread_current
    modify (count_tick t)
    modify count_slice
    mlfqs ← gets (λ k. k.mlfqs)
    when mlfqs (
        inc_recent_cpu
        >> when (now % freq == 0) (recalc_cpu >> recalc_load)
        >> when (now % 4 == 0) (recalc_pri lib))
