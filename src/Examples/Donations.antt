-- ===== src/Examples/Donations.antt =====
-- Priorities of threads/thread.c, in a kernel of five threads.
use pintos.Prelude.{ℕ, ◌≡◌, refl, ◌≢◌, false, ◌||◌, [], ◌∷◌, arith}
use pintos.Prelude.Int.{pos}
use pintos.Prelude.State.{Returns}
use pintos.Examples.{a_thread, five_threads, busy, busy-Inv, busy_interrupt, busy_interrupt-Inv}
use pintos.KernelList.Instance.{simple_list}
use pintos.Thread.{running, Thread, Kernel, write, set_status, is_thread, compare_pri}
use pintos.Thread.Donation.{donated_priority, check_current_thread_priority, thread_set_priority}
use pintos.Thread.Donation.Best.{IsBest}
use pintos.Thread.Donation.Own.{own_priority, set_priority-Inv}
use pintos.Thread.Donation.Preempt.{check_current_priority-Tops, check_current_priority-interrupt}
use pintos.Thread.Donation.Set.{donated_priority-IsBest}
use pintos.Thread.Sched.Inv.{Inv, Tops}

check_current_priority-Tops_example :
    Returns (λ _ k'. Inv k' × Tops k') (check_current_thread_priority simple_list busy)
check_current_priority-Tops_example = check_current_priority-Tops simple_list busy busy-Inv refl

check_current_priority-interrupt_example :
    Returns
      (λ _ k'.
        Inv k'
        × (k'.current ≡ 1)
        × (k'.ready_list ≡ 2 ∷ 3 ∷ [])
        × (k'.yield_on_return ≡ (compare_pri k'.thread 2 k'.current || false)))
      (check_current_thread_priority simple_list busy_interrupt)
check_current_priority-interrupt_example =
    check_current_priority-interrupt simple_list busy_interrupt 2 (3 ∷ []) busy_interrupt-Inv refl
      refl

-- Threads 2 and 3 wait for a lock that thread 1 holds.
abbrev helped : Thread
helped = record (a_thread 1 running (pos 31)) {
  donate_list = record { lock = 700; donator = 2 } ∷ record { lock = 700; donator = 3 } ∷ [];
}

donated_priority-IsBest_example :
    IsBest five_threads (pos 31) helped.donate_list (donated_priority five_threads helped)
donated_priority-IsBest_example = donated_priority-IsBest five_threads helped (ground arith)

abbrev donated : Kernel
donated = set_status (write busy 1 helped) 1 running

donated-Inv : Inv donated
unfolding is_thread
donated-Inv = record {
  queue = record {
    sorted = (λ y h. ground arith, (λ y h. elim h [ ], tt));
    once = busy-Inv.queue.once;
    is_ready = λ a h. ground arith;
    valid = λ a h. ground arith;
    idle_valid = refl;
  };
  runs = refl;
  current_valid = refl;
  sole = λ a h e. ground arith;
}

-- No donator beats the new priority, which is lost.
set_priority-Inv_example :
    Returns
      (λ _ k'.
        (Inv k' × Tops k')
        × ((k'.thread 1).o_priority ≡ own_priority donated (pos 50))
        × ((a : ℕ) → a ≢ 1 → (k'.thread a).o_priority ≡ (donated.thread a).o_priority))
      (thread_set_priority simple_list (pos 50) donated)
set_priority-Inv_example = set_priority-Inv simple_list donated (pos 50) donated-Inv refl refl
