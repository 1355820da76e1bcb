-- ===== src/Thread/Steps/Keeps.antt =====
-- Commands that keep the scheduler's invariant when they return, and those of threads/thread.c that
-- only change the fields of a thread or the statistics.
-- A command that takes states with `P` to states with `Q`, whenever it returns.
use pintos.Prelude.{
  length, ◌==◌, if◌then◌else◌, Bool-cases, ℕ, ◌+◌, ◌<◌, ◌≡◌, refl, ap, inl, inr, Bool, true, false,
  ◌&&◌, Option, none, some, List, [], ◌∷◌, arith,
}
use pintos.Prelude.Int.{ℤ, pos}
use pintos.Prelude.State.{Ensures, Ensures-bind}
use pintos.KernelList.{count}
use pintos.Thread.{
  and_then, ◌>>=◌, check, Returns, Thread, Kernel, is_running, write, is_thread, Act, assert,
  modify, thread_current,
}
use pintos.Thread.Donation.{lift}
use pintos.Thread.Lists.{IsSorted-put}
use pintos.Thread.Mlfqs.{
  when, fold_threads, inc_recent_cpu, next_cpu, recalc_cpu_of, recalc_cpu, get_ready_thread,
  next_load, recalc_load,
}
use pintos.Thread.Sched.Inv.{Inv}
use pintos.Thread.Sched.Moves.{thread_current-ok}
use pintos.Thread.Steps.View.{View, From, From-adjusts}

abbrev pub Keeps : {A : Type 0} → (Kernel → Type 0) → (Kernel → Type 0) → Act A → Type 0
Keeps P Q c = (k : Kernel) → P k → Ensures (λ _ k'. Q k') (c k)

pub Keeps-bind :
    {A B : Type 0} (P Q R : Kernel → Type 0) (m : Act A) (f : A → Act B)
    → Keeps P Q m
    → ((a : A) → Keeps Q R (f a))
    → Keeps P R (m >>= f)
Keeps-bind P Q R m f h g k p =
    Ensures-bind (λ _ k'. Q k') (λ _ k'. R k') (m k) f (h k p) (λ a k' q. g a k' q)

pub Keeps-lift : {A : Type 0} (P : Kernel → Type 0) (o : Option A) → Keeps P P (lift o)
Keeps-lift P none k p = tt
Keeps-lift P (some a) k p = p

pub Keeps-check : (P : Kernel → Type 0) (b : Kernel → Bool) → Keeps P P (assert b)
Keeps-check P b k p = elim (Bool-cases (b k)) [ inl e ↦ rw e p | inr e ↦ rw e tt ]

pub thread_current-Keeps : (P : Kernel → Type 0) → Keeps P P thread_current
unfolding thread_current
thread_current-Keeps P k p =
    elim (Bool-cases (is_thread k k.current && is_running (k.thread k.current).status)) [
      | inl e ↦ rw e p
      | inr e ↦ rw e tt
    ]

pub Keeps-when :
    (P : Kernel → Type 0) (b : Bool) (c : Act (Unit {0})) → Keeps P P c → Keeps P P (when b c)
Keeps-when P true c h k p = h k p
Keeps-when P false c h k p = p

-- A theorem on an operation that returns.
pub Ensures-of :
    {A : Type 0} (P Q : A → Kernel → Type 0) (r : Option (A × Kernel))
    → Returns P r
    → ((a : A) (k : Kernel) → P a k → Q a k)
    → Ensures Q r
Ensures-of P Q none h w = tt
Ensures-of P Q (some (a, k)) h w = w a k h

-- An operation that fails.
pub Ensures-none :
    {A : Type 0} (Q : A → Kernel → Type 0) (r : Option (A × Kernel)) → r ≡ none → Ensures Q r
Ensures-none Q r e = rw e tt

-- The invariant is about the threads, the lists, the running and the idle thread.
pub Inv-ext :
    (k k' : Kernel)
    → k'.thread ≡ k.thread
    → k'.ready_list ≡ k.ready_list
    → k'.all_list ≡ k.all_list
    → k'.current ≡ k.current
    → k'.idle_thread ≡ k.idle_thread
    → Inv k
    → Inv k'
unfolding is_thread
Inv-ext k k' t r a c d i = record {
  queue = record {
    sorted = rw (t, r) i.queue.sorted;
    once = λ x. rw r (i.queue.once x);
    is_ready = λ x h. rw t (i.queue.is_ready x (rw r at h));
    valid = λ x h. rw t (i.queue.valid x (rw r at h));
    idle_valid = rw (t, d) i.queue.idle_valid;
  };
  runs = rw (t, c) i.runs;
  current_valid = rw (t, c) i.current_valid;
  sole = λ x h e. rw c (i.sole x (rw a at h) (rw t at e));
}

-- A store that leaves the status and the magic number of a thread, and its priority too if the
-- thread is in the run queue.
pub Inv-write :
    (k : Kernel) (p : ℕ) (u : Thread)
    → u.status ≡ (k.thread p).status
    → u.magic ≡ (k.thread p).magic
    → (0 < count p k.ready_list → u.priority ≡ (k.thread p).priority)
    → Inv k
    → Inv (write k p u)
unfolding is_thread
Inv-write k p u s m q i = record {
  queue = record {
    sorted = IsSorted-put k.thread p u k.ready_list q i.queue.sorted;
    once = i.queue.once;
    is_ready = λ a h. ground (arith, i.queue.is_ready a);
    valid = λ a h. ground (arith, i.queue.valid a);
    idle_valid = ground (arith, i.queue.idle_valid);
  };
  runs = ground (arith, i.runs);
  current_valid = ground (arith, i.current_valid);
  sole = λ a h e. ground (arith, i.sole a h);
}

-- A store to the page of the running thread that leaves its status and magic number.
pub Inv-write_current :
    (k : Kernel) (u : Thread)
    → u.status ≡ (k.thread k.current).status
    → u.magic ≡ (k.thread k.current).magic
    → Inv k
    → Inv (write k k.current u)
Inv-write_current k u s m i =
    Inv-write k k.current u s m (λ h. absurd (ground (arith, i.queue.is_ready k.current, i.runs))) i

-- With the invariant the running thread is what thread_current() returns.
pub after_current :
    {A : Type 0} (Q : A → Kernel → Type 0) (f : ℕ → Act A) (k : Kernel)
    → Inv k
    → Ensures Q (f k.current k)
    → Ensures Q (and_then (thread_current k) f)
after_current Q f k i h = rw (thread_current-ok k i.current_valid i.runs) h

-- A failed assertion ends the operation.
pub after_check :
    {A : Type 0} (Q : A → Kernel → Type 0) (b : Bool) (f : Unit {0} → Act A) (k : Kernel)
    → Ensures Q (f tt k)
    → Ensures Q (and_then (check b k) f)
after_check Q true f k h = h
after_check Q false f k h = tt

module _ (idler : ℕ) (v : View) where
  -- The same of the states that moves reach.
  pub From-ext :
      (k k' : Kernel)
      → k'.thread ≡ k.thread
      → k'.ready_list ≡ k.ready_list
      → k'.all_list ≡ k.all_list
      → k'.current ≡ k.current
      → k'.idle_thread ≡ k.idle_thread
      → From idler v k
      → From idler v k'
  From-ext k k' t r a c d f =
      From-adjusts idler v k k' (Inv-ext k k' t r a c d f.inv) c d (λ b. ap (count b) r) f

  pub From-write :
      (k : Kernel) (p : ℕ) (u : Thread)
      → u.status ≡ (k.thread p).status
      → u.magic ≡ (k.thread p).magic
      → (0 < count p k.ready_list → u.priority ≡ (k.thread p).priority)
      → From idler v k
      → From idler v (write k p u)
  From-write k p u s m q f =
      From-adjusts idler v k (write k p u) (Inv-write k p u s m q f.inv) refl refl (λ a. refl) f

  pub From-write_current :
      (k : Kernel) (u : Thread)
      → u.status ≡ (k.thread k.current).status
      → u.magic ≡ (k.thread k.current).magic
      → From idler v k
      → From idler v (write k k.current u)
  From-write_current k u s m f =
      From-adjusts idler v k _ (Inv-write_current k u s m f.inv) refl refl (λ a. refl) f

  -- With the multi-level feedback queue.
  abbrev pub FromMlfqs : Kernel → Type 0
  FromMlfqs k = From idler v k × (k.mlfqs ≡ true)

  pub inc_recent_cpu-Keeps : Keeps FromMlfqs FromMlfqs inc_recent_cpu
  unfolding inc_recent_cpu
  inc_recent_cpu-Keeps k (i, m) =
      after_current (λ _ k'. FromMlfqs k') _ k i.inv
        (elim (Bool-cases (k.current == k.idle_thread)) [
          | inl e ↦ rw e (i, m)
          | inr e ↦ rw e (From-write k k.current _ refl refl (λ h. refl) i, m)
        ])

  store_cpu-Keeps :
      (t : ℕ) (k : Kernel) (o : Option ℤ)
      → FromMlfqs k
      → Ensures
          (λ _ k'. FromMlfqs k')
          (and_then
            (lift o k)
            (λ c. modify (λ k. write k t (record (k.thread t) { recent_cpu = c }))))
  store_cpu-Keeps t k none (i, m) = tt
  store_cpu-Keeps t k (some c) (i, m) = (From-write k t _ refl refl (λ h. refl) i, m)

  recalc_cpu_of-Keeps : (t : ℕ) → Keeps FromMlfqs FromMlfqs (recalc_cpu_of t)
  unfolding recalc_cpu_of
  recalc_cpu_of-Keeps t k h =
      store_cpu-Keeps t k
        (if t == k.idle_thread
          then some (k.thread t).recent_cpu
          else next_cpu k.load_avg (k.thread t))
        h

  pub fold_threads-Keeps :
      (P : Kernel → Type 0) (body : ℕ → Act (Unit {0}))
      → ((t : ℕ) → Keeps P P (body t))
      → (ts : List ℕ) → Keeps P P (fold_threads body ts)
  unfolding fold_threads
  fold_threads-Keeps P body h [] k p = p
  fold_threads-Keeps P body h (t ∷ ts) k p =
      Keeps-bind P P P (body t) (λ _. fold_threads body ts) (h t)
        (λ _. fold_threads-Keeps P body h ts) k p

  pub recalc_cpu-Keeps : Keeps FromMlfqs FromMlfqs recalc_cpu
  unfolding recalc_cpu
  recalc_cpu-Keeps k p =
      fold_threads-Keeps FromMlfqs recalc_cpu_of recalc_cpu_of-Keeps k.all_list k p

  store_load-Keeps :
      (k : Kernel) (o : Option ℤ)
      → FromMlfqs k
      → Ensures
          (λ _ k'. FromMlfqs k')
          (and_then (lift o k) (λ l. modify (λ k. record k { load_avg = l })))
  store_load-Keeps k none (i, m) = tt
  store_load-Keeps k (some l) (i, m) = (From-ext k _ refl refl refl refl refl i, m)

  pub recalc_load-Keeps : Keeps FromMlfqs FromMlfqs recalc_load
  unfolding recalc_load get_ready_thread
  recalc_load-Keeps k (i, m) = rw (thread_current-ok k i.inv.current_valid i.inv.runs) (
      store_load-Keeps k
        (next_load k.load_avg (
          pos
            (if k.current == k.idle_thread then length k.ready_list else length k.ready_list + 1)))
        (i, m))
