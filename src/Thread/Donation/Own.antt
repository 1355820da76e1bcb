-- ===== src/Thread/Donation/Own.antt =====
-- The own priorities of the threads, through thread_set_priority() of threads/thread.c.
use pintos.Prelude.{
  ◌==◌, if◌then◌else◌, Bool-cases, ℕ, ◌≡◌, refl, ◌∙◌, ◌≢◌, inl, inr, Bool, true, false, ◌||◌,
  Option, none, some, List, [], ◌∷◌, arith,
}
use pintos.Prelude.Int.{ℤ, ltb_ℤ}
use pintos.KernelList.{count, KernelList}
use pintos.Thread.{Returns, Returns-mono, Thread, Kernel, write, compare_pri}
use pintos.Thread.Donation.{
  search_best_donator, is_empty, give_way, give_way_if, check_front, check_current_thread_priority,
  thread_set_priority,
}
use pintos.Thread.Donation.Preempt.{check_front-nil, check_front-cons, check_current_priority-Tops}
use pintos.Thread.Donation.Set.{with_priority, get_priority-some, with_priority-Inv}
use pintos.Thread.Sched.{thread_yield}
use pintos.Thread.Sched.Inv.{Inv, Tops, Dispatched}
use pintos.Thread.Sched.Moves.{thread_current-ok}
use pintos.Thread.Sched.Yield.{yielding, thread_yield-Dispatched}
use pintos.Thread.Steps.Keeps.{Inv-write_current}

-- Each thread's own priority is as it was.
unfoldable pub SameOwn : Kernel → Kernel → Type 0
SameOwn k k' = (a : ℕ) → (k'.thread a).o_priority ≡ (k.thread a).o_priority

-- What thread_set_priority() leaves in the running thread before it checks whether to give way.
unfoldable pub with_own : Kernel → ℤ → Thread
with_own k new =
    let t = k.thread k.current in
    let best = search_best_donator k.thread t.donate_list in
    if is_empty t.donate_list
    then record t { priority = new; o_priority = new }
    else if ltb_ℤ new best
    then record t { priority = best; o_priority = new }
    else t

-- The own priority of the running thread after thread_set_priority().
abbrev pub own_priority : Kernel → ℤ → ℤ
own_priority k new =
    let t = k.thread k.current in
    if is_empty t.donate_list || ltb_ℤ new (search_best_donator k.thread t.donate_list)
    then new
    else t.o_priority

with_own-fields :
    (k : Kernel) (new : ℤ)
    → ((with_own k new).status ≡ (k.thread k.current).status)
      × ((with_own k new).magic ≡ (k.thread k.current).magic)
      × ((with_own k new).o_priority ≡ own_priority k new)
unfolding with_own
with_own-fields k new = (ground arith, ground arith, ground arith)

Returns-both :
    {A : Type 0} (P Q : A → Kernel → Type 0) (r : Option (A × Kernel))
    → Returns P r
    → Returns Q r
    → Returns (λ a k. P a k × Q a k) r
Returns-both P Q none p q = p
Returns-both P Q (some (a, k)) p q = (p, q)

module _ (lib : KernelList) where
  yield-SameOwn :
      (k : Kernel)
      → Inv k
      → k.in_interrupt ≡ false
      → Returns (λ _ k'. SameOwn k k') (thread_yield lib k)
  unfolding SameOwn yielding
  yield-SameOwn k i c =
      Returns-mono (thread_yield lib k) (thread_yield-Dispatched lib k i c)
        (λ _ k' d a. same k' d a)
    where
      before : (a : ℕ) → ((yielding lib k).thread a).o_priority ≡ (k.thread a).o_priority
      before a = ground arith

      same :
          (k' : Kernel)
          → Dispatched (yielding lib k) k'
          → (a : ℕ) → (k'.thread a).o_priority ≡ (k.thread a).o_priority
      same k' d a = elim (Bool-cases (a == k'.current)) [
        | inl e ↦ ground (arith, d.chosen, before a)
        | inr e ↦ ground (arith, d.others a, before a)
      ]

  give_way_if-SameOwn :
      (k : Kernel) (b : Bool)
      → Inv k
      → k.in_interrupt ≡ false
      → Returns (λ _ k'. SameOwn k k') (give_way_if lib b k)
  unfolding give_way_if give_way SameOwn
  give_way_if-SameOwn k true i c =
      let yields : give_way lib k ≡ thread_yield lib k = ground arith in
      rw yields (yield-SameOwn k i c)
  give_way_if-SameOwn k false i c = λ a. refl

  -- checkCurrentThreadPriority() leaves them as they are.
  check_current_priority-SameOwn :
      (k : Kernel)
      → Inv k
      → k.in_interrupt ≡ false
      → Returns (λ _ k'. SameOwn k k') (check_current_thread_priority lib k)
  unfolding SameOwn with_priority check_current_thread_priority
  check_current_priority-SameOwn k i c = by_queue k.ready_list refl
    where
      by_queue :
          (xs : List ℕ) → k.ready_list ≡ xs → Returns (λ _ k'. SameOwn k k') (check_front lib xs k)
      by_queue [] e = rw (check_front-nil lib k) (λ a. refl)
      by_queue (x ∷ xs) e =
          let (p, g) = get_priority-some k i in
          let out : count k.current (x ∷ xs) ≡ 0 =
            ground (arith, i.queue.is_ready k.current, i.runs) in
          let beaten = compare_pri (with_priority k p).thread x k.current in
          rw (check_front-cons lib k p x xs g out) (
            Returns-mono (give_way_if lib beaten (with_priority k p))
              (give_way_if-SameOwn (with_priority k p) beaten (with_priority-Inv k p i) c)
              (λ _ k' same a. same a ∙ ground arith))

  set_priority-stores :
      (k : Kernel) (new : ℤ)
      → Inv k
      → k.mlfqs ≡ false
      → thread_set_priority lib new k
        ≡ check_current_thread_priority lib (write k k.current (with_own k new))
  unfolding thread_set_priority with_own
  set_priority-stores k new i m = ground (arith, thread_current-ok k i.current_valid i.runs)

  -- With the scheduler's invariant, outside an interrupt handler and without the multi-level feedback
  -- queue, thread_set_priority() succeeds, and after it no ready thread has a higher priority than the
  -- running one and the invariant holds. Even if the thread that called it gave way, its own priority
  -- is the new one when it has no donator or the best of them beats the new priority, and otherwise
  -- the old one; the own priorities of the other threads are as before.
  pub set_priority-Inv :
      (k : Kernel) (new : ℤ)
      → Inv k
      → k.mlfqs ≡ false
      → k.in_interrupt ≡ false
      → Returns
          (λ _ k'.
            (Inv k' × Tops k')
            × ((k'.thread k.current).o_priority ≡ own_priority k new)
            × ((a : ℕ) → a ≢ k.current → (k'.thread a).o_priority ≡ (k.thread a).o_priority))
          (thread_set_priority lib new k)
  unfolding SameOwn
  set_priority-Inv k new i m c =
      let (s, g, o) = with_own-fields k new in
      let k1 = write k k.current (with_own k new) in
      let j = Inv-write_current k (with_own k new) s g i in
      let stored : (k1.thread k.current).o_priority ≡ (with_own k new).o_priority = ground arith in
      let check = check_current_thread_priority lib k1 in
      rw (set_priority-stores k new i m) (
        Returns-mono check
          (Returns-both _ _ check (check_current_priority-Tops lib k1 j c)
            (check_current_priority-SameOwn k1 j c))
          (λ _ k' (tops, same). (tops, same k.current ∙ stored ∙ o, λ a ne. same a ∙ ground arith)))
