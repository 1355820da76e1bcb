-- ===== src/Thread/Sched.antt =====
-- The scheduler: the run queue and the switch from one thread to the next (threads/thread.c).
pub mod Inv
pub mod Switch
pub mod Moves
pub mod Yield
pub mod Exit
use pintos.Prelude.{◌==◌, if◌then◌else◌, ℕ, not, ◌&&◌, none, some, [], ◌∷◌}
use pintos.KernelList.{remove, KernelList}
use pintos.Thread.{
  ◌>>=◌, ◌>>◌, running, ready, blocked, dying, IntrLevel, is_off, null, is_running, is_blocked,
  is_dying, set_status, is_thread, compare_pri, Act, assert, modify, gets, thread_current,
}

module _ (lib : KernelList) where
  unfoldable pub thread_unblock : ℕ → Act (Unit {0})
  thread_unblock t = do
    assert (λ k. is_thread k t)
    assert (λ k. is_blocked (k.thread t).status)
    modify (λ k. record k { ready_list = lib.insert_ordered (compare_pri k.thread) k.ready_list t })
    modify (λ k. set_status k t ready)

-- The front of the run queue, which it leaves, or the idle thread if the queue is empty.
unfoldable pub next_thread_to_run : Act ℕ
next_thread_to_run k = elim k.ready_list [
  | [] ↦ some (k.idle_thread, k)
  | t ∷ rest ↦ some (t, record k { ready_list = rest })
]

-- A dying thread gives its page back, unless it is the initial thread.
unfoldable pub destroy_if_dying : ℕ → Act (Unit {0})
destroy_if_dying prev k =
    if not (prev == null) && is_dying (k.thread prev).status && not (prev == k.initial_thread)
    then (if prev == k.current then none else some (tt, record k { freed = prev ∷ k.freed }))
    else some (tt, k)

-- `prev` is `null` when the thread did not change.
unfoldable pub thread_schedule_tail : ℕ → Act (Unit {0})
unfolding destroy_if_dying
thread_schedule_tail prev = do
  modify (λ k. set_status k k.current running)
  modify (λ k. record k { thread_ticks = 0 })
  destroy_if_dying prev

-- switch_threads() makes `next` the running thread; the thread left behind is its result there.
unfoldable pub schedule : Act (Unit {0})
unfolding next_thread_to_run thread_schedule_tail
schedule = do
  cur ← gets (λ k. k.current)
  next ← next_thread_to_run
  assert (λ k. not (is_running (k.thread cur).status))
  assert (λ k. is_thread k next)
  modify (λ k. record k { current = next })
  thread_schedule_tail (if cur == next then null else cur)

-- `level` is what intr_get_level() returns at the call.
unfoldable pub thread_block : IntrLevel → Act (Unit {0})
unfolding is_off
thread_block level = do
  assert (λ k. not k.in_interrupt)
  assert (λ k. is_off level)
  cur ← thread_current
  modify (λ k. set_status k cur blocked)
  schedule

module _ (lib : KernelList) where
  unfoldable pub thread_yield : Act (Unit {0})
  thread_yield = do
    cur ← thread_current
    assert (λ k. not k.in_interrupt)
    modify (λ k.
        if cur == k.idle_thread
        then k
        else record k { ready_list = lib.insert_ordered (compare_pri k.thread) k.ready_list cur })
    modify (λ k. set_status k cur ready)
    schedule

-- `process_exit` is that of userprog/process.c.
unfoldable pub thread_exit : Act (Unit {0}) → Act (Unit {0})
thread_exit process_exit = do
  assert (λ k. not k.in_interrupt)
  process_exit
  cur ← thread_current
  modify (λ k. record k { all_list = remove cur k.all_list })
  modify (λ k. set_status k cur dying)
  schedule
