-- ===== src/Thread/Sched/Exit.antt =====
-- thread_exit() of threads/thread.c.
use pintos.Prelude.{◌≡◌, sym, ◌∙◌, ◌≢◌, ◌⊎◌, inl, inr, false, some, [], ◌∷◌, arith}
use pintos.KernelList.{remove}
use pintos.KernelList.Order.{count-remove}
use pintos.Thread.{Returns, Returns-mono, dying, Kernel, set_status, is_thread, Act}
use pintos.Thread.Boot.{idle}
use pintos.Thread.Sched.{schedule, thread_exit}
use pintos.Thread.Sched.Inv.{Inv, Leaving, Tops, Dispatched}
use pintos.Thread.Sched.Moves.{gives_up-Leaving, thread_current-ok}
use pintos.Thread.Sched.Switch.{schedule-Dispatched}

-- The state in which thread_exit() calls schedule().
unfoldable pub exiting : Kernel → Kernel
exiting k = set_status (record k { all_list = remove k.current k.all_list }) k.current dying

exiting-Leaving : (k : Kernel) → Inv k → Leaving (exiting k)
unfolding exiting is_thread
exiting-Leaving k i =
    let l = gives_up-Leaving k dying i (λ e. cc) in
    record {
      queue = record {
        sorted = l.queue.sorted;
        once = l.queue.once;
        is_ready = l.queue.is_ready;
        valid = l.queue.valid;
        idle_valid = l.queue.idle_valid;
      };
      left = l.left;
      none_runs = λ a h e. ground (arith, count-remove k.current a k.all_list, l.none_runs a);
    }

thread_exit-schedule :
    (process_exit : Act (Unit {0})) (k k' : Kernel)
    → k.in_interrupt ≡ false
    → process_exit k ≡ some (tt, k')
    → Inv k'
    → thread_exit process_exit k ≡ schedule (exiting k')
unfolding thread_exit exiting
thread_exit-schedule process_exit k k' c e i =
    ground (arith, thread_current-ok k' i.current_valid i.runs)

pub thread_exit_dispatches :
    (process_exit : Act (Unit {0})) (k k' : Kernel)
    → k.in_interrupt ≡ false
    → process_exit k ≡ some (tt, k')
    → Inv k'
    → Returns (λ _ k''. Dispatched (exiting k') k'') (thread_exit process_exit k)
thread_exit_dispatches process_exit k k' c e i =
    rw (thread_exit-schedule process_exit k k' c e i) (schedule-Dispatched (exiting-Leaving k' i))

-- Outside an interrupt handler, whatever process_exit() does, if it succeeds and leaves the
-- scheduler's invariant, and the running thread is not the idle thread, thread_exit() takes that
-- thread out of the list of all threads and leaves it dying, and dispatches another one: the front of
-- the run queue, or the idle thread if the queue is empty. The invariant holds then, and no ready
-- thread beats the running one.
pub thread_exit-Dispatched :
    (process_exit : Act (Unit {0})) (k k' : Kernel)
    → k.in_interrupt ≡ false
    → process_exit k ≡ some (tt, k')
    → Inv k'
    → k'.current ≢ k'.idle_thread
    → Returns
        (λ _ k''.
          Inv k''
          × Tops k''
          × (k''.all_list ≡ remove k'.current k'.all_list)
          × (k''.current ≢ k'.current)
          × ((k''.thread k'.current).status ≡ dying)
          × ((k'.ready_list ≡ k''.current ∷ k''.ready_list)
              ⊎ ((k'.ready_list ≡ []) × (k''.ready_list ≡ []) × (k''.current ≡ k'.idle_thread))))
        (thread_exit process_exit k)
unfolding exiting
thread_exit-Dispatched process_exit k k' c e i ne =
    Returns-mono (thread_exit process_exit k) (thread_exit_dispatches process_exit k k' c e i)
      (λ _ k'' d.
        let another = chosen_another k'' d in
        (
          d.inv,
          d.tops,
          d.same_all,
          another,
          rw (d.others k'.current (λ q. another (sym q))) (ground arith),
          d.choice,
        ))
  where
    chosen_another : (k'' : Kernel) → Dispatched (exiting k') k'' → k''.current ≢ k'.current
    chosen_another k'' d q = elim d.choice [
      | inl front ↦ ground (arith, q, front, i.runs, i.queue.is_ready k'.current)
      | inr (_, _, idle) ↦ ne (sym q ∙ idle)
    ]
