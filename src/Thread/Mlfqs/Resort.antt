-- ===== src/Thread/Mlfqs/Resort.antt =====
-- recalc_pri() of threads/thread.c and the run queue.
use pintos.Prelude.{
  ◌==◌, Bool-cases, ℕ, ◌≡◌, inl, inr, true, Option, none, some, List, [], ◌∷◌, arith,
}
use pintos.Prelude.Int.{ℤ, eq_ℤ}
use pintos.KernelList.{KernelList}
use pintos.Thread.{and_then, ◌>>◌, Returns, Kernel, put, is_thread, compare_pri, Act}
use pintos.Thread.Donation.{check_current_thread_priority}
use pintos.Thread.Donation.Preempt.{check_current_priority-Inv}
use pintos.Thread.Donation.Set.{mlfqs_calc_pri-some}
use pintos.Thread.Lists.{compare_pri-IsOrder}
use pintos.Thread.Mlfqs.{fold_threads, store_priority, recalc_pri_of, recalc_pri}
use pintos.Thread.Sched.Inv.{Inv}

module _ (lib : KernelList) where
  pub store_priority-Inv : (t : ℕ) (p : ℤ) (k : Kernel) → Inv k → Inv (store_priority lib t p k)
  unfolding store_priority is_thread
  store_priority-Inv t p k i = elim (Bool-cases (eq_ℤ (k.thread t).priority p)) [
    | inl e ↦ rw e i
    | inr e ↦
        let f = put k.thread t (record (k.thread t) { priority = p }) in
        rw e (record {
          queue = record {
            sorted = lib.sort-IsSorted (compare_pri f) k.ready_list (compare_pri-IsOrder f);
            once =
                λ a. omega (arith, lib.count-sort (compare_pri f) k.ready_list a, i.queue.once a);
            is_ready = λ a h.
                ground (arith, lib.count-sort (compare_pri f) k.ready_list a, i.queue.is_ready a);
            valid = λ a h.
                ground (arith, lib.count-sort (compare_pri f) k.ready_list a, i.queue.valid a);
            idle_valid = ground (arith, i.queue.idle_valid);
          };
          runs = ground (arith, i.runs);
          current_valid = ground (arith, i.current_valid);
          sole = λ a h r. ground (arith, i.sole a h);
        })
  ]

  recalc_pri_of-Inv :
      (t : ℕ) (k : Kernel) → Inv k → Returns (λ _ k'. Inv k') (recalc_pri_of lib t k)
  unfolding recalc_pri_of
  recalc_pri_of-Inv t k i =
      let (p, e) = mlfqs_calc_pri-some (k.thread t) in
      elim (Bool-cases (t == k.idle_thread)) [
        | inl h ↦ rw h (store_priority-Inv t (k.thread t).priority k i)
        | inr h ↦ rw (h, e) (store_priority-Inv t p k i)
      ]

  Returns-then :
      (m n : Act (Unit {0})) (P Q : Kernel → Type 0) (k : Kernel)
      → Returns (λ _ k'. P k') (m k)
      → ((k' : Kernel) → P k' → Returns (λ _ k''. Q k'') (n k'))
      → Returns (λ _ k'. Q k') ((m >> n) k)
  Returns-then m n P Q k h f = by_result (m k) h
    where
      by_result :
          (r : Option (Unit {0} × Kernel))
          → Returns (λ _ k'. P k') r
          → Returns (λ _ k'. Q k') (and_then r (λ _. n))
      by_result none h = h
      by_result (some (u, k')) h = f k' h

  recalc_each-Inv :
      (ts : List ℕ) (k : Kernel)
      → Inv k
      → Returns (λ _ k'. Inv k') (fold_threads (recalc_pri_of lib) ts k)
  unfolding fold_threads
  recalc_each-Inv [] k i = i
  recalc_each-Inv (t ∷ ts) k i =
      Returns-then (recalc_pri_of lib t) (fold_threads (recalc_pri_of lib) ts) Inv Inv k
        (recalc_pri_of-Inv t k i) (λ k' i'. recalc_each-Inv ts k' i')

  pub recalc_pri-mlfqs :
      (k : Kernel)
      → k.mlfqs ≡ true
      → recalc_pri lib k
        ≡ and_then
            (fold_threads (recalc_pri_of lib) k.all_list k)
            (λ _. check_current_thread_priority lib)
  unfolding recalc_pri
  recalc_pri-mlfqs k m = ground arith

  -- With the multi-level feedback queue recalc_pri() never traps and preserves the scheduler's
  -- invariant, in an interrupt handler and outside: when it is done the run queue is in the order
  -- of the new priorities.
  pub recalc_pri-Inv :
      (k : Kernel) → Inv k → k.mlfqs ≡ true → Returns (λ _ k'. Inv k') (recalc_pri lib k)
  recalc_pri-Inv k i m = rw (recalc_pri-mlfqs k m) (
      Returns-then (fold_threads (recalc_pri_of lib) k.all_list) (check_current_thread_priority lib)
        Inv Inv k (recalc_each-Inv k.all_list k i) (λ k' i'. check_current_priority-Inv lib k' i'))
