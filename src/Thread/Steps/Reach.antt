-- ===== src/Thread/Steps/Reach.antt =====
-- The life of the kernel as a sequence of steps: the running thread calls an operation of
-- threads/thread.c, the timer ticks, or an interrupt is entered or left. `freq` is TIMER_FREQ, `ef`
-- and `sf` the sizes of the frames of threads/switch.h.
-- One step. A page of palloc_get_page() is new: no thread that the scheduler knows is in it.
-- process_exit() is any command that itself only makes such moves. Code outside threads/thread.c
-- sets the two flags of an interrupt as it likes, and the list of a thread's donators.
use pintos.Prelude.{ℕ, ◌≡◌, Bool, Option, some, List}
use pintos.Prelude.Int.{ℤ}
use pintos.KernelList.{KernelList}
use pintos.Thread.{IntrLevel, Donate, Kernel, write, Act}
use pintos.Thread.Create.{thread_create}
use pintos.Thread.Donation.{
  thread_get_priority, check_current_thread_priority, thread_set_priority, thread_set_nice,
}
use pintos.Thread.Mlfqs.{thread_tick}
use pintos.Thread.Sched.{thread_unblock, thread_block, thread_yield, thread_exit}
use pintos.Thread.Sched.Inv.{Inv}
use pintos.Thread.Steps.Creates.{IsFresh}
use pintos.Thread.Steps.Keeps.{Keeps}
use pintos.Thread.Steps.View.{View, From}

module _ (lib : KernelList) (freq ef sf : ℕ) where
  pub data Step : Kernel → Kernel → Type 0 where
    tick_step : {k k' : Kernel} (now : ℕ) → thread_tick lib freq now k ≡ some (tt, k') → Step k k'
    interrupt_step :
        {k : Kernel} (inside asked : Bool)
        → Step k (record k { in_interrupt = inside; yield_on_return = asked })
    yield_step : {k k' : Kernel} → thread_yield lib k ≡ some (tt, k') → Step k k'
    block_step :
        {k k' : Kernel} (level : IntrLevel) → thread_block level k ≡ some (tt, k') → Step k k'
    unblock_step : {k k' : Kernel} (t : ℕ) → thread_unblock lib t k ≡ some (tt, k') → Step k k'
    check_step : {k k' : Kernel} → check_current_thread_priority lib k ≡ some (tt, k') → Step k k'
    set_priority_step :
        {k k' : Kernel} (new : ℤ) → thread_set_priority lib new k ≡ some (tt, k') → Step k k'
    get_priority_step : {k k' : Kernel} (p : ℤ) → thread_get_priority k ≡ some (p, k') → Step k k'
    set_nice_step : {k k' : Kernel} (n : ℤ) → thread_set_nice lib n k ≡ some (tt, k') → Step k k'
    donate_step :
        {k : Kernel} (t : ℕ) (dl : List Donate)
        → Step k (write k t (record (k.thread t) { donate_list = dl }))
    create_step :
        {k k' : Kernel} (page : ℕ) (name : List ℕ) (priority tid : ℤ)
        (function : Option (Act (Unit {0})))
        → IsFresh page k
        → thread_create lib ef sf page name priority function k ≡ some (tid, k')
        → Step k k'
    exit_step :
        {k k' : Kernel} (process_exit : Act (Unit {0}))
        → ((v : View) → Keeps (From k.idle_thread v) (From k.idle_thread v) process_exit)
        → thread_exit process_exit k ≡ some (tt, k')
        → Step k k'

  -- The states that a sequence of steps reaches.
  pub data Reach (start : Kernel) : Kernel → Type 0 where
    at_start : Reach start start
    step_on : {k k' : Kernel} → Reach start k → Step k k' → Reach start k'
