-- ===== src/Thread/Sched/Inv.antt =====
-- What holds of the scheduler's data between two operations of the running thread, and what
-- holds at the moment when the running thread has given up the CPU and schedule() is called.
use pintos.Prelude.{ℕ, ◌≤◌, ◌<◌, ◌≡◌, ◌≢◌, ◌⊎◌, true, false, [], ◌∷◌}
use pintos.KernelList.{count, IsSorted}
use pintos.Thread.{running, ready, Kernel, is_thread, compare_pri}

-- The run queue: by priority, with no thread twice, and only threads that are ready.
pub record IsQueue (k : Kernel) : Type 0 where
  pub sorted : IsSorted (compare_pri k.thread) k.ready_list
  pub once : (a : ℕ) → count a k.ready_list ≤ 1
  pub is_ready : (a : ℕ) → 0 < count a k.ready_list → (k.thread a).status ≡ ready
  pub valid : (a : ℕ) → 0 < count a k.ready_list → is_thread k a ≡ true
  pub idle_valid : is_thread k k.idle_thread ≡ true

-- The running thread is the only one that runs.
pub record Inv (k : Kernel) : Type 0 where
  pub queue : IsQueue k
  pub runs : (k.thread k.current).status ≡ running
  pub current_valid : is_thread k k.current ≡ true
  pub sole : (a : ℕ) → 0 < count a k.all_list → (k.thread a).status ≡ running → a ≡ k.current

-- No thread of the list of all threads runs.
pub record Leaving (k : Kernel) : Type 0 where
  pub queue : IsQueue k
  pub left : (k.thread k.current).status ≢ running
  pub none_runs : (a : ℕ) → 0 < count a k.all_list → (k.thread a).status ≢ running

-- No ready thread has a higher priority than the running one.
abbrev pub Tops : Kernel → Type 0
Tops k = (a : ℕ) → 0 < count a k.ready_list → compare_pri k.thread a k.current ≡ false

-- From `k` the CPU has gone to the front of the run queue, or to the idle thread, with a new slice.
pub record Dispatched (k k' : Kernel) : Type 0 where
  pub inv : Inv k'
  pub tops : Tops k'
  pub new_slice : k'.thread_ticks ≡ 0
  pub chosen : k'.thread k'.current ≡ record (k.thread k'.current) { status = running }
  pub others : (a : ℕ) → a ≢ k'.current → k'.thread a ≡ k.thread a
  pub same_all : k'.all_list ≡ k.all_list
  pub same_idle : k'.idle_thread ≡ k.idle_thread
  pub choice :
      (k.ready_list ≡ k'.current ∷ k'.ready_list)
      ⊎ ((k.ready_list ≡ []) × (k'.ready_list ≡ []) × (k'.current ≡ k.idle_thread))
