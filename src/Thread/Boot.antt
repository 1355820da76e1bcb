-- ===== src/Thread/Boot.antt =====
-- The start of the thread system: thread_init(), thread_start() and idle() of threads/thread.c; the
-- start of a thread, thread_foreach(), and what a thread asks about itself. The semaphore of
-- threads/synch.h, the frames and the page are parameters, as in thread_create(). idle() is
-- followed up to the point where it gives up the CPU.
pub mod Main
pub mod Created
pub mod Idle
pub mod Runs
use pintos.Prelude.{if◌then◌else◌, ℕ, Option, none, some, List, [], ◌∷◌}
use pintos.Prelude.Int.{pos}
use pintos.KernelList.{KernelList}
use pintos.Thread.{
  ◌>>=◌, ◌>>◌, running, IntrLevel, intr_off, intr_on, is_off, pri_min, pri_default, write,
  set_status, Act, assert, modify, gets, thread_current,
}
use pintos.Thread.Create.{thread_create}
use pintos.Thread.Fields.{allocate_tid, init_thread}
use pintos.Thread.Mlfqs.{fold_threads}
use pintos.Thread.Sched.{thread_block, thread_exit}

abbrev pub main_name : List ℕ
main_name = 109 ∷ 97 ∷ 105 ∷ 110 ∷ []

abbrev pub idle_name : List ℕ
idle_name = 105 ∷ 100 ∷ 108 ∷ 101 ∷ []

-- The lists, the load average and the initial thread's address.
unfoldable pub init_lists : Act (Unit {0})
init_lists = do
  modify (λ k. record k { ready_list = []; all_list = [] })
  modify (λ k. if k.mlfqs then record k { load_avg = pos 0 } else k)
  modify (λ k. record k { initial_thread = k.current })

module _ (lib : KernelList) where
  -- The page of the initial thread.
  unfoldable pub init_initial : ℕ → Act (Unit {0})
  init_initial t = do
    init_thread lib t main_name pri_default
    modify (λ k. set_status k t running)
    tid ← allocate_tid
    modify (λ k. write k t (record (k.thread t) { tid = tid }))
    modify (λ k.
        if k.mlfqs then write k t (record (k.thread t) { nice = pos 0; recent_cpu = pos 0 }) else k)

  -- The running code becomes the initial thread, in the page of its stack.
  unfoldable pub thread_init : IntrLevel → Act (Unit {0})
  unfolding is_off
  thread_init level = do
    assert (λ k. is_off level)
    init_lists
    t ← gets (λ k. k.initial_thread)
    init_initial t

-- The first round of the loop, in which intr_disable() comes before thread_block(); after an
-- interrupt, they are called again.
unfoldable pub idle : Act (Unit {0}) → Act (Unit {0})
idle sema_up = do
  cur ← thread_current
  modify (λ k. record k { idle_thread = cur })
  sema_up
  thread_block intr_off

module _ (lib : KernelList) (ef sf : ℕ) where
  -- idle() calls sema_up(). After intr_enable(), sema_down() waits for the idle thread.
  unfoldable pub thread_start : ℕ → Act (Unit {0}) → (IntrLevel → Act (Unit {0})) → Act (Unit {0})
  thread_start page sema_up sema_down = do
    thread_create lib ef sf page idle_name pri_min (some (idle sema_up))
    sema_down intr_on

-- The function of a thread, unless it is null, and the end of the thread.
unfoldable pub kernel_thread : Act (Unit {0}) → Option (Act (Unit {0})) → Act (Unit {0})
kernel_thread process_exit none = λ k. none
kernel_thread process_exit (some function) = function >> thread_exit process_exit

-- The function leaves the list of all threads as it is.
unfoldable pub thread_foreach : (ℕ → Act (Unit {0})) → Act (Unit {0})
thread_foreach func k = fold_threads func k.all_list k

unfoldable pub thread_name : Act (List ℕ)
thread_name = do cur ← thread_current; gets (λ k. (k.thread cur).name)

unfoldable pub thread_tid : Act ℕ
thread_tid = do cur ← thread_current; gets (λ k. (k.thread cur).tid)
