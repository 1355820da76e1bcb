-- ===== src/Thread/Sched/Yield.antt =====
-- thread_yield() of threads/thread.c.
use pintos.Prelude.{
  ◌==◌, if◌then◌else◌, Bool-cases, ℕ, ◌≤◌, ◌<◌, ◌≡◌, sym, ap, ◌∙◌, ◌≢◌, ◌⊎◌, inl, inr, false, List,
  ◌∷◌, arith,
}
use pintos.KernelList.{count, KernelList}
use pintos.Thread.{Returns, Returns-mono, ready, Kernel, set_status, is_thread, compare_pri}
use pintos.Thread.Sched.{schedule, thread_yield}
use pintos.Thread.Sched.Inv.{Inv, Leaving, Tops, Dispatched}
use pintos.Thread.Sched.Moves.{unblocked, unblocked-IsQueue, gives_up-Leaving, thread_current-ok}
use pintos.Thread.Sched.Switch.{schedule-Dispatched}

here : (a : ℕ) (xs : List ℕ) → 0 < count a (a ∷ xs)
here a xs = ground arith

module _ (lib : KernelList) where
  -- The state in which thread_yield() calls schedule(): all but the idle thread join the queue.
  unfoldable pub yielding : Kernel → Kernel
  yielding k =
      set_status
        (if k.current == k.idle_thread then k else record k {
          ready_list = lib.insert_ordered (compare_pri k.thread) k.ready_list k.current;
        })
        k.current ready

  thread_yield-schedule :
      (k : Kernel) → Inv k → k.in_interrupt ≡ false → thread_yield lib k ≡ schedule (yielding k)
  unfolding thread_yield yielding
  thread_yield-schedule k i c = ground (arith, thread_current-ok k i.current_valid i.runs)

  yielding-Leaving : (k : Kernel) → Inv k → Leaving (yielding k)
  unfolding yielding is_thread unblocked
  yielding-Leaving k i = elim (Bool-cases (k.current == k.idle_thread)) [
    | inl e ↦ rw e (gives_up-Leaving k ready i (λ e. cc))
    | inr e ↦
        let out : count k.current k.ready_list ≡ 0 =
          ground (arith, i.queue.is_ready k.current, i.runs) in
        rw e (record {
          queue = unblocked-IsQueue lib k k.current i.queue i.current_valid out;
          left = ground arith;
          none_runs = λ a h r. ground (arith, i.sole a h);
        })
  ]

  pub count-yielding :
      (k : Kernel)
      → k.current ≢ k.idle_thread
      → (a : ℕ) → count a (yielding k).ready_list ≡ count a (k.current ∷ k.ready_list)
  unfolding yielding
  count-yielding k ne a =
      ground (arith, lib.count-insert_ordered (compare_pri k.thread) k.ready_list k.current a)

  pub thread_yield-Dispatched :
      (k : Kernel)
      → Inv k
      → k.in_interrupt ≡ false
      → Returns (λ _ k'. Dispatched (yielding k) k') (thread_yield lib k)
  thread_yield-Dispatched k i c =
      rw (thread_yield-schedule k i c) (schedule-Dispatched (yielding-Leaving k i))

  -- From a state with the scheduler's invariant, outside an interrupt handler, thread_yield()
  -- succeeds: no ready thread has a higher priority than the thread that runs then, the invariant
  -- holds again, and, unless the idle thread called it, the running thread and the run queue
  -- together hold each thread as often as before.
  pub thread_yield-Inv :
      (k : Kernel)
      → Inv k
      → k.in_interrupt ≡ false
      → Returns
          (λ _ k'.
            Inv k'
            × Tops k'
            × ((k.current ≡ k.idle_thread)
                ⊎ ((a : ℕ)
                    → count a (k'.current ∷ k'.ready_list) ≡ count a (k.current ∷ k.ready_list))))
          (thread_yield lib k)
  thread_yield-Inv k i c = rw (thread_yield-schedule k i c) (
      Returns-mono (schedule (yielding k)) (schedule-Dispatched (yielding-Leaving k i))
        (λ _ k' d. (d.inv, d.tops, kept_or_idle k' d)))
    where
      kept :
          (k' : Kernel)
          → Dispatched (yielding k) k'
          → k.current ≢ k.idle_thread
          → (a : ℕ) → count a (k'.current ∷ k'.ready_list) ≡ count a (k.current ∷ k.ready_list)
      kept k' d ne a = elim d.choice [
        | inl e ↦ sym (ap (count a) e) ∙ count-yielding k ne a
        | inr (e, _, _) ↦ absurd (
            omega (
              arith,
              ap (count k.current) e,
              count-yielding k ne k.current,
              here k.current k.ready_list,
            ))
      ]

      kept_or_idle :
          (k' : Kernel)
          → Dispatched (yielding k) k'
          → (k.current ≡ k.idle_thread)
            ⊎ ((a : ℕ) → count a (k'.current ∷ k'.ready_list) ≡ count a (k.current ∷ k.ready_list))
      kept_or_idle k' d = elim (Bool-cases (k.current == k.idle_thread)) [
        | inl e ↦ inl (ground arith)
        | inr e ↦ inr (kept k' d (ground arith))
      ]

module _ (lib : KernelList) (p : ℕ) where
  ready-yielding : (k : Kernel) → count p k.ready_list ≤ count p (yielding lib k).ready_list
  unfolding yielding
  ready-yielding k = elim (Bool-cases (k.current == k.idle_thread)) [
    | inl e ↦ rw e (omega arith)
    | inr e ↦
        rw e
          (omega (arith, lib.count-insert_ordered (compare_pri k.thread) k.ready_list k.current p))
  ]

  -- A thread that is ready when thread_yield() is called is ready or runs afterwards.
  pub thread_yield_ready :
      (k : Kernel)
      → Inv k
      → k.in_interrupt ≡ false
      → 0 < count p k.ready_list
      → Returns (λ _ k'. Inv k' × (0 < count p (k'.current ∷ k'.ready_list))) (thread_yield lib k)
  thread_yield_ready k i c h = rw (thread_yield-schedule lib k i c) (
      Returns-mono (schedule (yielding lib k)) (schedule-Dispatched (yielding-Leaving lib k i))
        (λ _ k' d. (d.inv, kept k' d)))
    where
      kept :
          (k' : Kernel) → Dispatched (yielding lib k) k' → 0 < count p (k'.current ∷ k'.ready_list)
      kept k' d = elim d.choice [
        | inl e ↦ omega (arith, ap (count p) e, ready-yielding k, h)
        | inr (e, _, _) ↦ absurd (omega (arith, ap (count p) e, ready-yielding k, h))
      ]
