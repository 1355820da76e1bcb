-- ===== src/Thread/Sched/Moves.antt =====
-- The moves of a thread between the run queue, the CPU and the blocked state: thread_unblock() and
-- thread_block() of threads/thread.c.
use pintos.Prelude.{◌==◌, if◌then◌else◌, ℕ, ◌+◌, ◌≡◌, refl, ◌≢◌, true, false, none, some, arith}
use pintos.KernelList.{count, IsSorted, KernelList}
use pintos.Thread.{
  Returns, Status, running, ready, blocked, IntrLevel, intr_off, intr_on, is_off, Kernel,
  set_status, is_thread, compare_pri, thread_current,
}
use pintos.Thread.Lists.{compare_pri-IsOrder, IsSorted-put}
use pintos.Thread.Sched.{thread_unblock, schedule, thread_block}
use pintos.Thread.Sched.Inv.{IsQueue, Inv, Leaving, Dispatched}
use pintos.Thread.Sched.Switch.{schedule-Dispatched}

module _ (lib : KernelList) where
  -- The state in which thread_unblock() leaves the kernel.
  unfoldable pub unblocked : Kernel → ℕ → Kernel
  unblocked k t =
      set_status
        (record k { ready_list = lib.insert_ordered (compare_pri k.thread) k.ready_list t }) t ready

  pub thread_unblock-ok :
      (k : Kernel) (t : ℕ)
      → is_thread k t ≡ true
      → (k.thread t).status ≡ blocked
      → thread_unblock lib t k ≡ some (tt, unblocked k t)
  unfolding thread_unblock unblocked is_thread
  thread_unblock-ok k t v b = ground arith

  pub count-unblocked :
      (k : Kernel) (t a : ℕ)
      → count a (unblocked k t).ready_list ≡ (if a == t then 1 else 0) + count a k.ready_list
  unfolding unblocked
  count-unblocked k t a = lib.count-insert_ordered (compare_pri k.thread) k.ready_list t a

  pub unblocked-IsQueue :
      (k : Kernel) (t : ℕ)
      → IsQueue k
      → is_thread k t ≡ true
      → count t k.ready_list ≡ 0
      → IsQueue (unblocked k t)
  unfolding unblocked is_thread
  unblocked-IsQueue k t q v out =
      let xs = lib.insert_ordered (compare_pri k.thread) k.ready_list t in
      let s : IsSorted (compare_pri k.thread) xs =
        lib.insert_ordered-IsSorted (compare_pri k.thread) k.ready_list t
          (compare_pri-IsOrder k.thread) q.sorted in
      record {
        sorted = IsSorted-put k.thread t _ xs (λ h. refl) s;
        once = λ a. ground (arith, count-unblocked k t a, q.once a);
        is_ready = λ a h. ground (arith, count-unblocked k t a, q.is_ready a);
        valid = λ a h. ground (arith, count-unblocked k t a, q.valid a);
        idle_valid = ground (arith, q.idle_valid);
      }

  pub unblocked-Inv :
      (k : Kernel) (t : ℕ)
      → Inv k
      → is_thread k t ≡ true
      → (k.thread t).status ≡ blocked
      → Inv (unblocked k t)
  unfolding unblocked is_thread
  unblocked-Inv k t i v b =
      let out : count t k.ready_list ≡ 0 = ground (arith, i.queue.is_ready t) in
      record {
        queue = unblocked-IsQueue k t i.queue v out;
        runs = ground (arith, i.runs);
        current_valid = ground (arith, i.current_valid);
        sole = λ a h e. ground (arith, i.sole a h);
      }

  -- With the scheduler's invariant, thread_unblock() makes a blocked thread ready: it joins the
  -- run queue, once and at its place by priority, and the running thread keeps the CPU. The
  -- invariant is preserved.
  pub thread_unblock-Inv :
      (k : Kernel) (t : ℕ)
      → Inv k
      → is_thread k t ≡ true
      → (k.thread t).status ≡ blocked
      → Returns
          (λ _ k'.
            Inv k'
            × ((k'.thread t).status ≡ ready)
            × (k'.current ≡ k.current)
            × ((a : ℕ) → count a k'.ready_list ≡ (if a == t then 1 else 0) + count a k.ready_list))
          (thread_unblock lib t k)
  unfolding unblocked is_thread
  thread_unblock-Inv k t i v b =
      rw (thread_unblock-ok k t v b)
        (unblocked-Inv k t i v b, ground arith, refl, count-unblocked k t)

  -- A thread that is not blocked fails the assertion of thread_unblock().
  pub thread_unblock_refused :
      (k : Kernel) (t : ℕ) → (k.thread t).status ≢ blocked → thread_unblock lib t k ≡ none
  unfolding thread_unblock is_thread
  thread_unblock_refused k t h = ground arith

-- The running thread gives up the CPU with another status.
pub gives_up-Leaving :
    (k : Kernel) (s : Status) → Inv k → s ≢ running → Leaving (set_status k k.current s)
unfolding is_thread
gives_up-Leaving k s i ne =
    let out : count k.current k.ready_list ≡ 0 =
      ground (arith, i.queue.is_ready k.current, i.runs) in
    record {
      queue = record {
        sorted = IsSorted-put k.thread k.current _ k.ready_list (λ h. refl) i.queue.sorted;
        once = i.queue.once;
        is_ready = λ a h. ground (arith, i.queue.is_ready a);
        valid = λ a h. ground (arith, i.queue.valid a);
        idle_valid = ground (arith, i.queue.idle_valid);
      };
      left = ground arith;
      none_runs = λ a h e. ground (arith, i.sole a h);
    }

pub thread_current-ok :
    (k : Kernel)
    → is_thread k k.current ≡ true
    → (k.thread k.current).status ≡ running
    → thread_current k ≡ some (k.current, k)
unfolding thread_current
thread_current-ok k v r = ground arith

thread_block-schedule :
    (k : Kernel)
    → Inv k
    → k.in_interrupt ≡ false
    → thread_block intr_off k ≡ schedule (set_status k k.current blocked)
unfolding thread_block is_off
thread_block-schedule k i c = ground (arith, thread_current-ok k i.current_valid i.runs)

-- From a state with the scheduler's invariant, outside an interrupt handler and with interrupts
-- off, thread_block() blocks the running thread and dispatches the next one, as schedule() does.
pub thread_block-Dispatched :
    (k : Kernel)
    → Inv k
    → k.in_interrupt ≡ false
    → Returns (λ _ k'. Dispatched (set_status k k.current blocked) k') (thread_block intr_off k)
thread_block-Dispatched k i c =
    rw (thread_block-schedule k i c) (schedule-Dispatched (gives_up-Leaving k blocked i (λ e. cc)))

-- In an interrupt handler, thread_block() fails an assertion.
pub thread_block_refused :
    (level : IntrLevel) (k : Kernel) → k.in_interrupt ≡ true → thread_block level k ≡ none
unfolding thread_block
thread_block_refused level k c = ground arith

-- So it does with interrupts on.
pub thread_block-intr_on : (k : Kernel) → thread_block intr_on k ≡ none
unfolding thread_block is_off
thread_block-intr_on k = ground arith
