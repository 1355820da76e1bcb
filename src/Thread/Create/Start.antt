-- ===== src/Thread/Create/Start.antt =====
-- thread_create() of threads/thread.c and the scheduler's invariant.
-- The new thread at `p` is prepared: it is blocked, and no thread that the scheduler knows.
use pintos.Prelude.{
  ◌==◌, if◌then◌else◌, Bool-cases, ℕ, ◌+◌, ◌%◌, ◌<◌, ◌≡◌, refl, ◌≢◌, inl, inr, Bool, true, false,
  some, List, ◌∷◌, arith,
}
use pintos.Prelude.Int.{ℤ, ◌≤ℤ◌, ltb_ℤ}
use pintos.KernelList.{count, KernelList}
use pintos.Thread.{
  Returns, Returns-bind, Returns-mono, blocked, Thread, Kernel, null, thread_magic, pri_min,
  pri_max, pg_size, write, is_thread, Act,
}
use pintos.Thread.Create.{prepare_thread, thread_create}
use pintos.Thread.Donation.{check_current_thread_priority}
use pintos.Thread.Donation.Preempt.{check_current_priority_ready}
use pintos.Thread.Fields.{name_field, compare_all, blank, allocate_tid, alloc_frame, init_thread}
use pintos.Thread.Lists.{IsSorted-put}
use pintos.Thread.Sched.{thread_unblock}
use pintos.Thread.Sched.Inv.{Inv}
use pintos.Thread.Sched.Moves.{thread_unblock-Inv, thread_current-ok}

pub record Prepared (p : ℕ) (k : Kernel) : Type 0 where
  pub inv : Inv k
  pub out : count p k.ready_list ≡ 0
  pub not_current : p ≢ k.current
  pub not_idle : p ≢ k.idle_thread
  pub is_blocked : (k.thread p).status ≡ blocked
  pub valid : is_thread k p ≡ true

-- Stores to the page of a thread that neither runs nor waits in the run queue.
written-Inv :
    (p : ℕ) (t : Thread) (k : Kernel)
    → Inv k
    → count p k.ready_list ≡ 0
    → p ≢ k.current
    → p ≢ k.idle_thread
    → t.status ≡ blocked
    → Inv (write k p t)
unfolding is_thread
written-Inv p t k i out c d b = record {
  queue = record {
    sorted = IsSorted-put k.thread p t k.ready_list (λ h. absurd (omega arith)) i.queue.sorted;
    once = i.queue.once;
    is_ready = λ a h. ground (arith, i.queue.is_ready a);
    valid = λ a h. ground (arith, i.queue.valid a);
    idle_valid = ground (arith, i.queue.idle_valid);
  };
  runs = ground (arith, i.runs);
  current_valid = ground (arith, i.current_valid);
  sole = λ a h e. ground (arith, i.sole a h);
}

Prepared-write :
    (p : ℕ) (t : Thread) (k : Kernel)
    → Prepared p k
    → t.status ≡ blocked
    → t.magic ≡ thread_magic
    → Prepared p (write k p t)
unfolding is_thread
Prepared-write p t k r b m = record {
  inv = written-Inv p t k r.inv r.out r.not_current r.not_idle b;
  out = r.out;
  not_current = r.not_current;
  not_idle = r.not_idle;
  is_blocked = ground arith;
  valid = ground (arith, r.valid);
}

magic_of : (p : ℕ) (k : Kernel) → Prepared p k → (k.thread p).magic ≡ thread_magic
unfolding is_thread
magic_of p k r = ground (arith, r.valid)

Prepared-new :
    (p : ℕ) (t : Thread) (k : Kernel)
    → Inv k
    → p ≢ null
    → count p k.ready_list ≡ 0
    → p ≢ k.current
    → p ≢ k.idle_thread
    → t.status ≡ blocked
    → t.magic ≡ thread_magic
    → Prepared p (write k p t)
unfolding is_thread
Prepared-new p t k i z out c d b m = record {
  inv = written-Inv p t k i out c d b;
  out = out;
  not_current = c;
  not_idle = d;
  is_blocked = ground arith;
  valid = ground arith;
}

-- The order of the list of all threads does not matter.
Prepared-all_list :
    (p : ℕ) (xs : List ℕ) (k : Kernel)
    → Prepared p k
    → ((a : ℕ) → count a xs ≡ count a (p ∷ k.all_list))
    → Prepared p (record k { all_list = xs })
unfolding is_thread
Prepared-all_list p xs k r h = record {
  inv = record {
    queue = record {
      sorted = r.inv.queue.sorted;
      once = r.inv.queue.once;
      is_ready = r.inv.queue.is_ready;
      valid = λ a m. ground (arith, r.inv.queue.valid a);
      idle_valid = ground (arith, r.inv.queue.idle_valid);
    };
    runs = r.inv.runs;
    current_valid = ground (arith, r.inv.current_valid);
    sole = λ a m e. elim (Bool-cases (a == p)) [
      | inl y ↦ absurd (ground (arith, r.is_blocked))
      | inr y ↦ r.inv.sole a (ground (arith, h a)) e
    ];
  };
  out = r.out;
  not_current = r.not_current;
  not_idle = r.not_idle;
  is_blocked = r.is_blocked;
  valid = ground (arith, r.valid);
}

Prepared-tid : (p n : ℕ) (k : Kernel) → Prepared p k → Prepared p (record k { next_tid = n })
unfolding is_thread
Prepared-tid p n k r = record {
  inv = record {
    queue = record {
      sorted = r.inv.queue.sorted;
      once = r.inv.queue.once;
      is_ready = r.inv.queue.is_ready;
      valid = λ a m. ground (arith, r.inv.queue.valid a);
      idle_valid = ground (arith, r.inv.queue.idle_valid);
    };
    runs = r.inv.runs;
    current_valid = ground (arith, r.inv.current_valid);
    sole = r.inv.sole;
  };
  out = r.out;
  not_current = r.not_current;
  not_idle = r.not_idle;
  is_blocked = r.is_blocked;
  valid = ground (arith, r.valid);
}

either : {A : Type 0} (P : A → Type 0) (b : Bool) (x y : A) → P x → P y → P (if b then x else y)
either P true x y h k = h
either P false x y h k = k

-- The last two steps: the working directory, and what a thread of the multi-level feedback queue
-- inherits.
Prepared-inherited :
    (p : ℕ) (k : Kernel)
    → Prepared p k
    → let q = write k p (record (k.thread p) { pwd = (k.thread k.current).pwd }) in
      Prepared p (
        if k.mlfqs
        then write q p (record (q.thread p) {
          recent_cpu = (q.thread k.current).recent_cpu;
          nice = (q.thread k.current).nice;
        })
        else q)
Prepared-inherited p k r =
    let q = write k p (record (k.thread p) { pwd = (k.thread k.current).pwd }) in
    let s : Prepared p q = Prepared-write p _ k r r.is_blocked (magic_of p k r) in
    either (Prepared p) k.mlfqs _ q (Prepared-write p _ q s s.is_blocked (magic_of p q s)) s

-- What init_thread() puts into the page.
abbrev pub initial : ℕ → List ℕ → ℤ → Thread
initial p name priority = record blank {
  status = blocked;
  name = name_field name;
  stack = p + pg_size;
  priority = priority;
  o_priority = priority;
  magic = thread_magic;
}

module _ (lib : KernelList) where
  init_thread-Prepared :
      (p : ℕ) (name : List ℕ) (priority : ℤ) (k : Kernel)
      → Inv k
      → p ≢ null
      → count p k.ready_list ≡ 0
      → p ≢ k.current
      → p ≢ k.idle_thread
      → pri_min ≤ℤ priority
      → priority ≤ℤ pri_max
      → Returns (λ _ k'. Prepared p k') (init_thread lib p name priority k)
  unfolding init_thread is_thread
  init_thread-Prepared p name priority k i z out c d lo hi =
      let a : (p == null) ≡ false = ground arith in
      let b : ltb_ℤ priority pri_min ≡ false = ground arith in
      let e : ltb_ℤ pri_max priority ≡ false = ground arith in
      rw (a, b, e)
        (Prepared-all_list p _ (write k p (initial p name priority))
          (Prepared-new p (initial p name priority) k i z out c d refl refl)
          (λ x.
            lib.count-insert_ordered (compare_all (write k p (initial p name priority)).thread)
              k.all_list p x))

  alloc_frame-Prepared :
      (p size : ℕ) (k : Kernel)
      → size % 4 ≡ 0
      → Prepared p k
      → Returns (λ _ k'. Prepared p k') (alloc_frame p size k)
  unfolding alloc_frame
  alloc_frame-Prepared p size k h r =
      let w : (size % 4 == 0) ≡ true = ground arith in
      rw (r.valid, w) (Prepared-write p _ k r r.is_blocked (magic_of p k r))

abbrev Kept : ℕ → Kernel → Type 0
Kept p k' = Inv k' × (0 < count p (k'.current ∷ k'.ready_list))

module _ (lib : KernelList) (ef sf : ℕ) where
  pub prepare_thread-Prepared :
      (p : ℕ) (name : List ℕ) (priority : ℤ) (k : Kernel)
      → Inv k
      → p ≢ null
      → count p k.ready_list ≡ 0
      → p ≢ k.current
      → p ≢ k.idle_thread
      → pri_min ≤ℤ priority
      → priority ≤ℤ pri_max
      → ef % 4 ≡ 0
      → sf % 4 ≡ 0
      → Returns (λ _ k'. Prepared p k') (prepare_thread lib ef sf p name priority k)
  unfolding prepare_thread allocate_tid
  prepare_thread-Prepared p name priority k i z out c d lo hi e s =
      Returns-bind (λ _ k'. Prepared p k') (λ _ k'. Prepared p k')
        (init_thread lib p name priority k) _
        (init_thread-Prepared lib p name priority k i z out c d lo hi)
        (λ _ k1 r1.
          Returns-bind (λ _ k'. Prepared p k') (λ _ k'. Prepared p k') (alloc_frame p 12 _) _
            (alloc_frame-Prepared lib p 12 _ refl (
              Prepared-write p _ _ (Prepared-tid p (k1.next_tid + 1) k1 r1) r1.is_blocked
                (magic_of p k1 r1)))
            (λ _ k2 r2.
              Returns-bind (λ _ k'. Prepared p k') (λ _ k'. Prepared p k') (alloc_frame p ef k2) _
                (alloc_frame-Prepared lib p ef k2 e r2)
                (λ _ k3 r3.
                  Returns-bind (λ _ k'. Prepared p k') (λ _ k'. Prepared p k') (alloc_frame p sf k3)
                    _ (alloc_frame-Prepared lib p sf k3 s r3)
                    (λ _ k4 r4.
                      rw (thread_current-ok k4 r4.inv.current_valid r4.inv.runs)
                        (Prepared-inherited p k4 r4)))))

  -- thread_create() of a function succeeds, and the new thread then is in the run queue or runs; the
  -- scheduler's invariant is kept. The page is not that of the running, the idle or a ready thread,
  -- the priority is from PRI_MIN to PRI_MAX, and the frames are of whole words.
  pub thread_create-Inv :
      (p : ℕ) (name : List ℕ) (priority : ℤ) (function : Act (Unit {0})) (k : Kernel)
      → Inv k
      → p ≢ null
      → count p k.ready_list ≡ 0
      → p ≢ k.current
      → p ≢ k.idle_thread
      → pri_min ≤ℤ priority
      → priority ≤ℤ pri_max
      → ef % 4 ≡ 0
      → sf % 4 ≡ 0
      → Returns
          (λ _ k'. Inv k' × (0 < count p (k'.current ∷ k'.ready_list)))
          (thread_create lib ef sf p name priority (some function) k)
  unfolding thread_create
  thread_create-Inv p name priority function k i z out c d lo hi e s =
      let page : (p == null) ≡ false = ground arith in
      rw page (
        Returns-bind (λ _ k'. Prepared p k') (λ _ k'. Kept p k')
          (prepare_thread lib ef sf p name priority k) _
          (prepare_thread-Prepared p name priority k i z out c d lo hi e s)
          (λ tid k1 r1.
            Returns-bind (λ _ k'. Inv k' × (0 < count p k'.ready_list)) (λ _ k'. Kept p k')
              (thread_unblock lib p k1) _
              (Returns-mono (thread_unblock lib p k1)
                (thread_unblock-Inv lib k1 p r1.inv r1.valid r1.is_blocked)
                (λ _ k' (j, _, _, n). (j, ground (arith, n p))))
              (λ _ k2 (j, m).
                Returns-bind (λ _ k'. Kept p k') (λ _ k'. Kept p k')
                  (check_current_thread_priority lib k2) _
                  (check_current_priority_ready lib p k2 j m) (λ _ k3 h. h))))
