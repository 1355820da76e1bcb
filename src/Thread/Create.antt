-- ===== src/Thread/Create.antt =====
-- thread_create(). `page` is what palloc_get_page() returned, `ef` and `sf` the sizes of the frames
-- of threads/switch.h. What the frames hold is not modelled. The tid is returned to the creating
-- thread, when it runs again.
pub mod Start
use pintos.Prelude.{◌==◌, if◌then◌else◌, ℕ, Option, none, some, List}
use pintos.Prelude.Int.{ℤ, pos}
use pintos.KernelList.{KernelList}
use pintos.Thread.{pure, ◌>>=◌, ◌>>◌, null, tid_error, write, Act, modify, thread_current}
use pintos.Thread.Donation.{check_current_thread_priority}
use pintos.Thread.Fields.{allocate_tid, alloc_frame, init_thread}
use pintos.Thread.Sched.{thread_unblock}

module _ (lib : KernelList) (ef sf : ℕ) where
  -- Before the new thread is put into the run queue.
  unfoldable pub prepare_thread : ℕ → List ℕ → ℤ → Act ℕ
  prepare_thread t name priority = do
    init_thread lib t name priority
    tid ← allocate_tid
    modify (λ k. write k t (record (k.thread t) { tid = tid }))
    alloc_frame t 12
    alloc_frame t ef
    alloc_frame t sf
    cur ← thread_current
    modify (λ k. write k t (record (k.thread t) { pwd = (k.thread cur).pwd }))
    modify (λ k.
        if k.mlfqs
        then write k t (record (k.thread t) {
          recent_cpu = (k.thread cur).recent_cpu;
          nice = (k.thread cur).nice;
        })
        else k)
    pure tid

  -- A function that is null fails the assertion.
  unfoldable pub thread_create : ℕ → List ℕ → ℤ → Option (Act (Unit {0})) → Act ℤ
  thread_create page name priority none = λ k. none
  thread_create page name priority (some function) = if page == null then pure tid_error else do
    tid ← prepare_thread page name priority
    thread_unblock lib page
    check_current_thread_priority lib
    pure (pos tid)
