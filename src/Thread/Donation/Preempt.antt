-- ===== src/Thread/Donation/Preempt.antt =====
-- checkCurrentThreadPriority() of threads/thread.c.
use pintos.Prelude.{
  Bool-cases, ℕ, ◌<◌, ◌≡◌, refl, sym, ap, subst, inl, inr, Bool, true, false, ◌||◌, some, List, [],
  ◌∷◌, arith,
}
use pintos.Prelude.Int.{ℤ}
use pintos.KernelList.{count, IsSorted, KernelList}
use pintos.Thread.{◌>>=◌, Returns, Kernel, is_thread, compare_pri, Returns-mono}
use pintos.Thread.Donation.{
  thread_get_priority, give_way, give_way_if, check_front, check_current_thread_priority,
}
use pintos.Thread.Donation.Set.{with_priority, get_priority-some, with_priority-Inv}
use pintos.Thread.Sched.{thread_yield}
use pintos.Thread.Sched.Inv.{IsQueue, Inv, Tops}
use pintos.Thread.Sched.Yield.{thread_yield-Inv, thread_yield_ready}

-- The front of a sorted queue bounds the rest.
front-Tops :
    (k : Kernel) (x : ℕ) (xs : List ℕ)
    → k.ready_list ≡ x ∷ xs
    → IsQueue k
    → compare_pri k.thread x k.current ≡ false
    → Tops k
front-Tops k x xs e q h a m =
    let s = subst (IsSorted (compare_pri k.thread)) e q.sorted in ground (arith, s.0 a)

module _ (lib : KernelList) where
  pub check_front-nil : (k : Kernel) → check_front lib [] k ≡ some (tt, k)
  unfolding check_front
  check_front-nil k = refl

  pub check_front-cons :
      (k : Kernel) (p : ℤ) (x : ℕ) (xs : List ℕ)
      → thread_get_priority k ≡ some (p, with_priority k p)
      → count k.current (x ∷ xs) ≡ 0
      → check_front lib (x ∷ xs) k
        ≡ give_way_if lib (compare_pri (with_priority k p).thread x k.current) (with_priority k p)
  unfolding check_front with_priority
  check_front-cons k p x xs e out = rw (e, ◌>>=◌) (ground arith)

  give_way_if-Tops :
      (k : Kernel) (x : ℕ) (xs : List ℕ)
      → k.ready_list ≡ x ∷ xs
      → Inv k
      → k.in_interrupt ≡ false
      → (b : Bool) → compare_pri k.thread x k.current ≡ b
      → Returns (λ _ k'. Inv k' × Tops k') (give_way_if lib b k)
  unfolding give_way_if give_way
  give_way_if-Tops k x xs e i c true h =
      let yields : give_way lib k ≡ thread_yield lib k = ground arith in
      rw yields
        (Returns-mono (thread_yield lib k) (thread_yield-Inv lib k i c) (λ _ k' (j, t, _). (j, t)))
  give_way_if-Tops k x xs e i c false h = (i, front-Tops k x xs e i.queue h)

  -- With the scheduler's invariant before it, outside an interrupt handler,
  -- checkCurrentThreadPriority() succeeds, and after it no ready thread has a higher priority than
  -- the running one, and the invariant holds: with the priorities of donation and with those of
  -- the multi-level feedback queue.
  pub check_current_priority-Tops :
      (k : Kernel)
      → Inv k
      → k.in_interrupt ≡ false
      → Returns (λ _ k'. Inv k' × Tops k') (check_current_thread_priority lib k)
  unfolding check_current_thread_priority with_priority
  check_current_priority-Tops k i c = by_queue k.ready_list refl
    where
      by_queue :
          (xs : List ℕ)
          → k.ready_list ≡ xs
          → Returns (λ _ k'. Inv k' × Tops k') (check_front lib xs k)
      by_queue [] e = rw (check_front-nil k) (i, λ a h. ground arith)
      by_queue (x ∷ xs) e =
          let (p, g) = get_priority-some k i in
          let out : count k.current (x ∷ xs) ≡ 0 =
            ground (arith, i.queue.is_ready k.current, i.runs) in
          rw (check_front-cons k p x xs g out) (
            give_way_if-Tops (with_priority k p) x xs e (with_priority-Inv k p i) c
              (compare_pri (with_priority k p).thread x k.current) refl)

  Deferred : Kernel → ℕ → Kernel → Type 0
  Deferred k x k' =
      Inv k'
      × (k'.current ≡ k.current)
      × (k'.ready_list ≡ k.ready_list)
      × (k'.yield_on_return ≡ (compare_pri k'.thread x k'.current || k.yield_on_return))

  give_way_if-Deferred :
      (k : Kernel) (x : ℕ)
      → Inv k
      → k.in_interrupt ≡ true
      → (b : Bool) → compare_pri k.thread x k.current ≡ b
      → Returns (λ _ k'. Deferred k x k') (give_way_if lib b k)
  unfolding give_way_if give_way Deferred is_thread
  give_way_if-Deferred k x i c true h =
      let asks : give_way lib k ≡ some (tt, record k { yield_on_return = true }) = ground arith in
      rw asks (
        record {
          queue = record {
            sorted = i.queue.sorted;
            once = i.queue.once;
            is_ready = i.queue.is_ready;
            valid = λ a m. ground (arith, i.queue.valid a);
            idle_valid = ground (arith, i.queue.idle_valid);
          };
          runs = i.runs;
          current_valid = ground (arith, i.current_valid);
          sole = i.sole;
        },
        refl,
        refl,
        ground arith,
      )
  give_way_if-Deferred k x i c false h = (i, refl, refl, ground arith)

  -- In an interrupt handler, with the scheduler's invariant and a run queue that is not empty,
  -- checkCurrentThreadPriority() never switches: it asks for a yield on return if the front of the
  -- run queue beats the running thread, and otherwise leaves the request as it was.
  pub check_current_priority-interrupt :
      (k : Kernel) (x : ℕ) (xs : List ℕ)
      → Inv k
      → k.in_interrupt ≡ true
      → k.ready_list ≡ x ∷ xs
      → Returns
          (λ _ k'.
            Inv k'
            × (k'.current ≡ k.current)
            × (k'.ready_list ≡ k.ready_list)
            × (k'.yield_on_return ≡ (compare_pri k'.thread x k'.current || k.yield_on_return)))
          (check_current_thread_priority lib k)
  unfolding check_current_thread_priority with_priority Deferred
  check_current_priority-interrupt k x xs i c e =
      let (p, g) = get_priority-some k i in
      let out : count k.current (x ∷ xs) ≡ 0 = ground (arith, i.queue.is_ready k.current, i.runs) in
      subst (λ ys. Returns (λ _ k'. Deferred k x k') (check_front lib ys k)) (sym e)
        (rw (check_front-cons k p x xs g out) (
          give_way_if-Deferred (with_priority k p) x (with_priority-Inv k p i) c
            (compare_pri (with_priority k p).thread x k.current) refl))

  -- Either way the invariant holds.
  pub check_current_priority-Inv :
      (k : Kernel) → Inv k → Returns (λ _ k'. Inv k') (check_current_thread_priority lib k)
  unfolding check_current_thread_priority
  check_current_priority-Inv k i = elim (Bool-cases k.in_interrupt) [
    | inr c ↦
        Returns-mono (check_current_thread_priority lib k) (check_current_priority-Tops k i c)
          (λ _ k' (j, _). j)
    | inl c ↦ by_queue k.ready_list refl c
  ]
    where
      by_queue :
          (xs : List ℕ)
          → k.ready_list ≡ xs
          → k.in_interrupt ≡ true
          → Returns (λ _ k'. Inv k') (check_front lib xs k)
      by_queue [] e c = rw (check_front-nil k) i
      by_queue (x ∷ xs) e c =
          subst (λ ys. Returns (λ _ k'. Inv k') (check_front lib ys k)) e
            (Returns-mono (check_current_thread_priority lib k)
              (check_current_priority-interrupt k x xs i c e) (λ _ k' (j, _, _, _). j))

  Kept : ℕ → Kernel → Type 0
  Kept p k' = Inv k' × (0 < count p (k'.current ∷ k'.ready_list))

  give_way_if-Kept :
      (p x : ℕ) (k : Kernel)
      → Inv k
      → 0 < count p k.ready_list
      → (b : Bool) → compare_pri k.thread x k.current ≡ b
      → Returns (λ _ k'. Kept p k') (give_way_if lib b k)
  unfolding give_way_if give_way Kept Deferred
  give_way_if-Kept p x k i m b h = elim (Bool-cases k.in_interrupt) [
    | inl c ↦
        Returns-mono (give_way_if lib b k) (give_way_if-Deferred k x i c b h)
          (λ _ k' (j, _, e, _). (j, omega (arith, ap (count p) e)))
    | inr c ↦ by_test b c
  ]
    where
      by_test :
          (b : Bool) → k.in_interrupt ≡ false → Returns (λ _ k'. Kept p k') (give_way_if lib b k)
      by_test true c =
          let yields : give_way lib k ≡ thread_yield lib k = ground arith in
          rw yields (thread_yield_ready lib p k i c m)
      by_test false c = (i, omega arith)

  -- A thread that is ready before checkCurrentThreadPriority() is ready or runs after it.
  pub check_current_priority_ready :
      (p : ℕ) (k : Kernel)
      → Inv k
      → 0 < count p k.ready_list
      → Returns
          (λ _ k'. Inv k' × (0 < count p (k'.current ∷ k'.ready_list)))
          (check_current_thread_priority lib k)
  unfolding check_current_thread_priority with_priority Kept
  check_current_priority_ready p k i m = by_queue k.ready_list refl
    where
      by_queue :
          (xs : List ℕ) → k.ready_list ≡ xs → Returns (λ _ k'. Kept p k') (check_front lib xs k)
      by_queue [] e = absurd (omega (arith, ap (count p) e))
      by_queue (x ∷ xs) e =
          let (q, g) = get_priority-some k i in
          let out : count k.current (x ∷ xs) ≡ 0 =
            ground (arith, i.queue.is_ready k.current, i.runs) in
          rw (check_front-cons k q x xs g out) (
            give_way_if-Kept p x (with_priority k q) (with_priority-Inv k q i) m
              (compare_pri (with_priority k q).thread x k.current) refl)
