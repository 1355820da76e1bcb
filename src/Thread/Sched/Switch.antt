-- ===== src/Thread/Sched/Switch.antt =====
-- schedule() of threads/thread.c, from any state in which the running thread has given up the CPU.
use pintos.Prelude.{
  ◌==◌, if◌then◌else◌, ℕ, ◌≤◌, ◌≡◌, refl, subst, ◌≢◌, inl, inr, true, not, ◌&&◌, some, List, [],
  ◌∷◌, arith,
}
use pintos.KernelList.{count, IsSorted}
use pintos.Thread.{Returns, running, Kernel, null, is_dying, set_status, is_thread, compare_pri}
use pintos.Thread.Lists.{IsSorted-put}
use pintos.Thread.Sched.{schedule}
use pintos.Thread.Sched.Inv.{IsQueue, Inv, Leaving, Dispatched}

-- The state after a switch to `next`, with `rest` for the run queue.
unfoldable pub handed : Kernel → ℕ → List ℕ → Kernel
handed k next rest =
    let k' = set_status k next running in
    record k' {
      ready_list = rest;
      current = next;
      thread_ticks = 0;
      freed =
          if not (k.current == next)
            && not (k.current == null)
            && is_dying (k.thread k.current).status
            && not (k.current == k.initial_thread)
          then k.current ∷ k.freed
          else k.freed;
    }

pub schedule-cons :
    (k : Kernel) (next : ℕ) (rest : List ℕ)
    → k.ready_list ≡ next ∷ rest
    → (k.thread k.current).status ≢ running
    → is_thread k next ≡ true
    → schedule k ≡ some (tt, handed k next rest)
unfolding schedule handed is_thread
schedule-cons k next rest e l v = ground arith

schedule-nil :
    (k : Kernel)
    → k.ready_list ≡ []
    → (k.thread k.current).status ≢ running
    → is_thread k k.idle_thread ≡ true
    → schedule k ≡ some (tt, handed k k.idle_thread [])
unfolding schedule handed is_thread
schedule-nil k e l v = ground arith

module _ {k : Kernel} (l : Leaving k) where
  handed-IsQueue :
      (next : ℕ) (rest : List ℕ)
      → ((a : ℕ) → count a rest ≤ count a k.ready_list)
      → IsSorted (compare_pri k.thread) rest
      → count next rest ≡ 0
      → IsQueue (handed k next rest)
  unfolding handed is_thread
  handed-IsQueue next rest sub s out = record {
    sorted = IsSorted-put k.thread next _ rest (λ h. refl) s;
    once = λ a. omega (arith, sub a, l.queue.once a);
    is_ready = λ a h. ground (arith, sub a, l.queue.is_ready a);
    valid = λ a h. ground (arith, sub a, l.queue.valid a);
    idle_valid = ground (arith, l.queue.idle_valid);
  }

  handed-Inv :
      (next : ℕ) (rest : List ℕ)
      → IsQueue (handed k next rest)
      → is_thread k next ≡ true
      → Inv (handed k next rest)
  unfolding handed is_thread
  handed-Inv next rest q v = record {
    queue = q;
    runs = ground arith;
    current_valid = ground arith;
    sole = λ a h e. ground (arith, l.none_runs a h);
  }

  -- When the running thread has given up the CPU, schedule() succeeds: it hands the CPU to the
  -- front of the run queue, which no ready thread beats, or to the idle thread if the queue is
  -- empty, with a new time slice, and the scheduler's invariant holds.
  pub schedule-Dispatched : Returns (λ _ k'. Dispatched k k') (schedule k)
  unfolding handed
  schedule-Dispatched = by_queue k.ready_list refl
    where
      by_queue : (xs : List ℕ) → k.ready_list ≡ xs → Returns (λ _ k'. Dispatched k k') (schedule k)
      by_queue [] e = rw (schedule-nil k e l.left l.queue.idle_valid) (record {
        inv =
            handed-Inv k.idle_thread []
              (handed-IsQueue k.idle_thread [] (λ a. ground arith) tt refl) l.queue.idle_valid;
        tops = λ a h. elim h [ ];
        new_slice = refl;
        chosen = ground arith;
        others = λ a h. ground arith;
        same_all = refl;
        same_idle = refl;
        choice = inr (e, refl, refl);
      })
      by_queue (x ∷ xs) e =
          let v : is_thread k x ≡ true = l.queue.valid x (ground arith) in
          let s = subst (IsSorted (compare_pri k.thread)) e l.queue.sorted in
          rw (schedule-cons k x xs e l.left v) (record {
            inv =
                handed-Inv x xs
                  (handed-IsQueue x xs (λ a. ground arith) s.1 (ground (arith, l.queue.once x))) v;
            tops = λ a h. ground (arith, s.0 a h);
            new_slice = refl;
            chosen = ground arith;
            others = λ a h. ground arith;
            same_all = refl;
            same_idle = refl;
            choice = inl e;
          })
