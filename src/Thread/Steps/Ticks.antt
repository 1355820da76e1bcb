-- ===== src/Thread/Steps/Ticks.antt =====
-- The priorities and the timer tick of threads/thread.c as moves of a scheduler by priorities.
use pintos.Prelude.{
  ◌==◌, if◌then◌else◌, Bool-cases, ℕ, ◌%◌, ◌≡◌, refl, inl, inr, Bool, true, false, not, Option,
  none, some, arith,
}
use pintos.Prelude.Int.{ℤ, ltb_ℤ, eq_ℤ}
use pintos.Prelude.State.{Ensures, Ensures-bind}
use pintos.KernelList.{KernelList}
use pintos.Thread.{
  and_then, ◌>>◌, blocked, IntrLevel, intr_off, intr_on, Kernel, null, write, set_status, Act,
  assert, modify,
}
use pintos.Thread.Donation.{
  lift, search_best_donator, is_empty, mlfqs_calc_pri, thread_get_priority,
  check_current_thread_priority, thread_set_priority, thread_set_nice,
}
use pintos.Thread.Donation.Set.{mlfqs_calc_pri-some, get_priority-some}
use pintos.Thread.Mlfqs.{
  when, fold_threads, inc_recent_cpu, recalc_cpu, recalc_load, store_priority, recalc_pri_of,
  recalc_pri, count_tick, count_slice, thread_tick,
}
use pintos.Thread.Mlfqs.Resort.{store_priority-Inv, recalc_pri-mlfqs}
use pintos.Thread.Sched.{thread_block}
use pintos.Thread.Sched.Inv.{Inv}
use pintos.Thread.Sched.Moves.{thread_block-Dispatched, thread_block_refused, thread_block-intr_on}
use pintos.Thread.Steps.Keeps.{
  Keeps, Keeps-bind, Keeps-check, Keeps-when, Ensures-of, Ensures-none, after_current, after_check,
  From-ext, From-write_current, FromMlfqs, inc_recent_cpu-Keeps, fold_threads-Keeps,
  recalc_cpu-Keeps, recalc_load-Keeps,
}
use pintos.Thread.Steps.Ops.{with_priority-From, check_current-Keeps}
use pintos.Thread.Steps.View.{View, From, From-adjusts, From-leaves}

module _ (idler : ℕ) (v : View) where
  abbrev R : Unit {0} → Kernel → Type 0
  R = λ _ k'. From idler v k'

  pub thread_block-Keeps :
      (level : IntrLevel) → Keeps (From idler v) (From idler v) (thread_block level)
  thread_block-Keeps intr_on k f = rw (thread_block-intr_on k) (Ensures-none R none refl)
  thread_block-Keeps intr_off k f = elim (Bool-cases k.in_interrupt) [
    | inl c ↦ Ensures-none R (thread_block intr_off k) (thread_block_refused intr_off k c)
    | inr c ↦
        Ensures-of _ R (thread_block intr_off k) (thread_block-Dispatched k f.inv c) (λ _ k' d.
          From-leaves idler v k (set_status k k.current blocked) k' (λ a. ground arith) refl refl d
            f)
  ]

  pub thread_get_priority-Keeps : Keeps (From idler v) (From idler v) thread_get_priority
  thread_get_priority-Keeps k f =
      let (p, e) = get_priority-some k f.inv in rw e (with_priority-From idler v k p f)

  count_tick-From : (t : ℕ) (k : Kernel) → From idler v k → From idler v (count_tick t k)
  unfolding count_tick
  count_tick-From t k f = elim (Bool-cases (t == k.idle_thread)) [
    | inl e ↦ rw e (From-ext idler v k _ refl refl refl refl refl f)
    | inr e ↦ elim (Bool-cases (not ((k.thread t).pagedir == null))) [
      | inl h ↦ rw (e, h) (From-ext idler v k _ refl refl refl refl refl f)
      | inr h ↦ rw (e, h) (From-ext idler v k _ refl refl refl refl refl f)
    ]
  ]

  count_slice-From : (k : Kernel) → From idler v k → From idler v (count_slice k)
  unfolding count_slice
  count_slice-From k f = From-ext idler v k _ refl refl refl refl refl f

  module _ (lib : KernelList) where
    pub thread_set_priority-Keeps :
        (new : ℤ) → Keeps (From idler v) (From idler v) (thread_set_priority lib new)
    unfolding thread_set_priority
    thread_set_priority-Keeps new =
        Keeps-bind (From idler v) (From idler v) (From idler v) (assert (λ k. not k.mlfqs)) _
          (Keeps-check (From idler v) (λ k. not k.mlfqs))
          (λ _ k f. after_current R _ k f.inv (check_current-Keeps idler v lib _ (stored k f)))
      where
        stored :
            (k : Kernel)
            → From idler v k
            → let t = k.thread k.current in
              let best = search_best_donator k.thread t.donate_list in
              From idler v (
                if is_empty t.donate_list
                then write k k.current (record t { priority = new; o_priority = new })
                else if ltb_ℤ new best
                then write k k.current (record t { priority = best; o_priority = new })
                else k)
        stored k f =
            let t = k.thread k.current in
            let best = search_best_donator k.thread t.donate_list in
            elim (Bool-cases (is_empty t.donate_list)) [
              | inl e ↦ rw e (From-write_current idler v k _ refl refl f)
              | inr e ↦ elim (Bool-cases (ltb_ℤ new best)) [
                | inl h ↦ rw (e, h) (From-write_current idler v k _ refl refl f)
                | inr h ↦ rw (e, h) f
              ]
            ]

    pub thread_set_nice-Keeps :
        (nice : ℤ) → Keeps (From idler v) (From idler v) (thread_set_nice lib nice)
    unfolding thread_set_nice
    thread_set_nice-Keeps nice k f = after_current R _ k f.inv (
        after_check R k.mlfqs _ k (
          let k1 = write k k.current (record (k.thread k.current) { nice = nice }) in
          stored k1 (From-write_current idler v k _ refl refl f)
            (mlfqs_calc_pri (k1.thread k1.current))))
      where
        stored :
            (k : Kernel)
            → From idler v k
            → (o : Option ℤ)
            → Ensures
                (λ _ k'. From idler v k')
                (and_then (lift o k) (λ p.
                  modify (λ q. write q k.current (record (q.thread k.current) { priority = p }))
                  >> check_current_thread_priority lib))
        stored k f none = tt
        stored k f (some p) =
            check_current-Keeps idler v lib _ (From-write_current idler v k _ refl refl f)

    store_priority-From :
        (t : ℕ) (p : ℤ) (k : Kernel) → From idler v k → From idler v (store_priority lib t p k)
    unfolding store_priority
    store_priority-From t p k f = elim (Bool-cases (eq_ℤ (k.thread t).priority p)) [
      | inl e ↦ rw e f
      | inr e ↦
          let i : Inv (store_priority lib t p k) = store_priority-Inv lib t p k f.inv in
          rw e (
            From-adjusts idler v k _ (rw e at i) refl refl (λ a. lib.count-sort _ k.ready_list a) f)
    ]

    recalc_pri_of-Keeps : (t : ℕ) → Keeps (From idler v) (From idler v) (recalc_pri_of lib t)
    unfolding recalc_pri_of
    recalc_pri_of-Keeps t k f =
        let (p, e) = mlfqs_calc_pri-some (k.thread t) in
        elim (Bool-cases (t == k.idle_thread)) [
          | inl h ↦ rw h (store_priority-From t (k.thread t).priority k f)
          | inr h ↦ rw (h, e) (store_priority-From t p k f)
        ]

    pub recalc_pri-Keeps : Keeps (FromMlfqs idler v) (From idler v) (recalc_pri lib)
    recalc_pri-Keeps k (f, m) = rw (recalc_pri-mlfqs lib k m) (
        Ensures-bind R R (fold_threads (recalc_pri_of lib) k.all_list k) _
          (fold_threads-Keeps idler v (From idler v) (recalc_pri_of lib) recalc_pri_of-Keeps
            k.all_list k f)
          (λ _ k' f'. check_current-Keeps idler v lib k' f'))

  module _ (lib : KernelList) (freq : ℕ) where
    -- What a tick does with the multi-level feedback queue.
    abbrev feedback : ℕ → Act (Unit {0})
    feedback now =
        inc_recent_cpu
        >> when (now % freq == 0) (recalc_cpu >> recalc_load)
        >> when (now % 4 == 0) (recalc_pri lib)

    feedback-Keeps : (now : ℕ) → Keeps (FromMlfqs idler v) (From idler v) (feedback now)
    feedback-Keeps now =
        let M = FromMlfqs idler v in
        Keeps-bind M M (From idler v) _ (λ _. when (now % 4 == 0) (recalc_pri lib))
          (Keeps-bind M M M inc_recent_cpu _ (inc_recent_cpu-Keeps idler v) (λ _.
            Keeps-when M (now % freq == 0) _ (
              Keeps-bind M M M recalc_cpu _ (recalc_cpu-Keeps idler v)
                (λ _. recalc_load-Keeps idler v))))
          (λ _. sort_again (now % 4 == 0))
      where
        sort_again : (b : Bool) → Keeps (FromMlfqs idler v) (From idler v) (when b (recalc_pri lib))
        sort_again true k h = recalc_pri-Keeps lib k h
        sort_again false k (f, _) = f

    pub thread_tick-Keeps :
        (now : ℕ) → Keeps (From idler v) (From idler v) (thread_tick lib freq now)
    unfolding thread_tick
    thread_tick-Keeps now k f = after_current R _ k f.inv (
        by_queue (count_slice (count_tick k.current k))
          (count_slice-From (count_tick k.current k) (count_tick-From k.current k f)) _ refl)
      where
        by_queue :
            (k : Kernel)
            → From idler v k
            → (b : Bool) → k.mlfqs ≡ b
            → Ensures (λ _ k'. From idler v k') (when b (feedback now) k)
        by_queue k f true m = feedback-Keeps now k (f, m)
        by_queue k f false m = f
