-- ===== src/Examples/Scheduler.antt =====
-- The scheduler of threads/thread.c, in a kernel of five threads.
use pintos.Prelude.{◌==◌, if◌then◌else◌, ℕ, ◌+◌, ◌<◌, ◌≡◌, refl, ◌≢◌, ◌⊎◌, some, [], ◌∷◌, arith}
use pintos.Prelude.Int.{pos}
use pintos.Prelude.State.{pure, Returns}
use pintos.Examples.{busy, busy-Inv, busy_mlfqs, busy_mlfqs-Inv}
use pintos.KernelList.{count, remove}
use pintos.KernelList.Instance.{simple_list}
use pintos.Thread.{ready, blocked, dying, set_status, is_thread}
use pintos.Thread.Create.{thread_create}
use pintos.Thread.Create.Start.{thread_create-Inv}
use pintos.Thread.Mlfqs.{recalc_pri}
use pintos.Thread.Mlfqs.Resort.{recalc_pri-Inv}
use pintos.Thread.Sched.{thread_unblock, schedule, thread_yield, thread_exit}
use pintos.Thread.Sched.Exit.{thread_exit-Dispatched}
use pintos.Thread.Sched.Inv.{Inv, Leaving, Tops, Dispatched}
use pintos.Thread.Sched.Moves.{thread_unblock-Inv, gives_up-Leaving}
use pintos.Thread.Sched.Switch.{schedule-Dispatched}
use pintos.Thread.Sched.Yield.{thread_yield-Inv}

left_busy : Leaving (set_status busy 1 blocked)
left_busy = gives_up-Leaving busy blocked busy-Inv (λ e. cc)

schedule-Dispatched_example :
    Returns
      (λ _ k'. Dispatched (set_status busy 1 blocked) k')
      (schedule (set_status busy 1 blocked))
schedule-Dispatched_example = schedule-Dispatched left_busy

thread_yield-Inv_example :
    Returns
      (λ _ k'.
        Inv k'
        × Tops k'
        × ((busy.current ≡ busy.idle_thread)
            ⊎ ((a : ℕ)
                → count a (k'.current ∷ k'.ready_list) ≡ count a (busy.current ∷ busy.ready_list))))
      (thread_yield simple_list busy)
thread_yield-Inv_example = thread_yield-Inv simple_list busy busy-Inv refl

thread_unblock-Inv_example :
    Returns
      (λ _ k'.
        Inv k'
        × ((k'.thread 5).status ≡ ready)
        × (k'.current ≡ busy.current)
        × ((a : ℕ) → count a k'.ready_list ≡ (if a == 5 then 1 else 0) + count a busy.ready_list))
      (thread_unblock simple_list 5 busy)
unfolding is_thread
thread_unblock-Inv_example = thread_unblock-Inv simple_list busy 5 busy-Inv refl refl

thread_exit-Dispatched_example :
    Returns
      (λ _ k'.
        Inv k'
        × Tops k'
        × (k'.all_list ≡ remove busy.current busy.all_list)
        × (k'.current ≢ busy.current)
        × ((k'.thread busy.current).status ≡ dying)
        × ((busy.ready_list ≡ k'.current ∷ k'.ready_list)
            ⊎ ((busy.ready_list ≡ []) × (k'.ready_list ≡ []) × (k'.current ≡ busy.idle_thread))))
      (thread_exit (pure tt) busy)
thread_exit-Dispatched_example =
    thread_exit-Dispatched (pure tt) busy busy refl refl busy-Inv (λ e. omega arith)

recalc_pri-Inv_example : Returns (λ _ k'. Inv k') (recalc_pri simple_list busy_mlfqs)
recalc_pri-Inv_example = recalc_pri-Inv simple_list busy_mlfqs busy_mlfqs-Inv refl

thread_create-Inv_example :
    Returns
      (λ _ k'. Inv k' × (0 < count 9 (k'.current ∷ k'.ready_list)))
      (thread_create simple_list 8 28 9 (97 ∷ 0 ∷ []) (pos 35) (some (pure tt)) busy)
thread_create-Inv_example =
    thread_create-Inv simple_list 8 28 9 (97 ∷ 0 ∷ []) (pos 35) (pure tt) busy busy-Inv
      (λ e. omega arith) refl (λ e. omega arith) (λ e. omega arith) (ground arith) (ground arith)
      refl refl
