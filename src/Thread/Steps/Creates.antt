-- ===== src/Thread/Steps/Creates.antt =====
-- thread_create() of threads/thread.c as moves of a scheduler by priorities.
-- A page that no thread of the scheduler is in.
use pintos.Prelude.{
  ◌==◌, if◌then◌else◌, Bool-cases, ℕ, ◌%◌, ◌≡◌, refl, ap, ◌≢◌, inl, inr, Bool, true, false, not,
  ◌&&◌, Option, none, some, List, arith,
}
use pintos.Prelude.Int.{ℤ, pos, ◌≤ℤ◌, ltb_ℤ}
use pintos.Prelude.State.{Ensures, Ensures-bind}
use pintos.KernelList.{count, KernelList}
use pintos.Thread.{
  pure, ◌>>◌, Returns, Kernel, null, pri_min, pri_max, write, is_thread, Act, assert,
  thread_current,
}
use pintos.Thread.Create.{prepare_thread, thread_create}
use pintos.Thread.Create.Start.{Prepared, prepare_thread-Prepared}
use pintos.Thread.Donation.{check_current_thread_priority}
use pintos.Thread.Fields.{allocate_tid, alloc_frame, init_thread}
use pintos.Thread.Sched.{thread_unblock}
use pintos.Thread.Steps.Keeps.{Keeps, Keeps-bind, Keeps-check, thread_current-Keeps}
use pintos.Thread.Steps.Ops.{thread_unblock-Keeps, check_current-Keeps}
use pintos.Thread.Steps.View.{View, From, From-adjusts}

pub record IsFresh (page : ℕ) (k : Kernel) : Type 0 where
  pub out : count page k.ready_list ≡ 0
  pub not_current : page ≢ k.current
  pub not_idle : page ≢ k.idle_thread

-- The run queue, the running and the idle thread.
abbrev Same : ℕ → List ℕ → ℕ → Kernel → Type 0
Same c xs d k = (k.current ≡ c) × (k.ready_list ≡ xs) × (k.idle_thread ≡ d)

module _ (lib : KernelList) (ef sf : ℕ) where
  frame_Same :
      (c d : ℕ) (xs : List ℕ) (t size : ℕ) → Keeps (Same c xs d) (Same c xs d) (alloc_frame t size)
  unfolding alloc_frame
  frame_Same c d xs t size =
      Keeps-bind (Same c xs d) (Same c xs d) (Same c xs d) (assert (λ k. is_thread k t)) _
        (Keeps-check (Same c xs d) (λ k. is_thread k t))
        (λ _.
          Keeps-bind (Same c xs d) (Same c xs d) (Same c xs d) (assert (λ k. size % 4 == 0)) _
            (Keeps-check (Same c xs d) (λ k. size % 4 == 0)) (λ _ k s. s))

  init_Same :
      (c d : ℕ) (xs : List ℕ) (t : ℕ) (name : List ℕ) (priority : ℤ)
      → Keeps (Same c xs d) (Same c xs d) (init_thread lib t name priority)
  unfolding init_thread
  init_Same c d xs t name priority =
      let P = Same c xs d in
      Keeps-bind P P P (assert (λ k. not (t == null))) _ (Keeps-check P (λ k. not (t == null)))
        (λ _.
          Keeps-bind P P P
            (assert (λ k. not (ltb_ℤ priority pri_min) && not (ltb_ℤ pri_max priority))) _
            (Keeps-check P (λ k. not (ltb_ℤ priority pri_min) && not (ltb_ℤ pri_max priority)))
            (λ _ k s. s))

  prepare_Same :
      (c d : ℕ) (xs : List ℕ) (t : ℕ) (name : List ℕ) (priority : ℤ)
      → Keeps (Same c xs d) (Same c xs d) (prepare_thread lib ef sf t name priority)
  unfolding prepare_thread allocate_tid
  prepare_Same c d xs t name priority =
      let P = Same c xs d in
      Keeps-bind P P P (init_thread lib t name priority) _ (init_Same c d xs t name priority)
        (λ _ k1 s1.
          Ensures-bind (λ _ k'. P k') (λ _ k'. P k') (alloc_frame t 12 _) _
            (frame_Same c d xs t 12 _ s1)
            (λ _ k2 s2.
              Keeps-bind P P P (alloc_frame t ef) _ (frame_Same c d xs t ef)
                (λ _. Keeps-bind P P P (alloc_frame t sf) _ (frame_Same c d xs t sf) (λ _.
                  Keeps-bind P P P thread_current _ (thread_current-Keeps P)
                    (λ cur k s. inherits t cur k s)))
                k2 s2))
    where
      either : (P : Kernel → Type 0) (b : Bool) (x y : Kernel) → P x → P y → P (if b then x else y)
      either P true x y h k = h
      either P false x y h k = k

      inherits :
          (t cur : ℕ) (k : Kernel)
          → Same c xs d k
          → let q = write k t (record (k.thread t) { pwd = (k.thread cur).pwd }) in
            Same c xs d (
              if k.mlfqs
              then write q t (record (q.thread t) {
                recent_cpu = (q.thread cur).recent_cpu;
                nice = (q.thread cur).nice;
              })
              else q)
      inherits t cur k s = either (Same c xs d) k.mlfqs _ _ s s

-- The thread has been prepared: nothing has moved.
made-From :
    (idler : ℕ) (v : View) (p : ℕ) (k : Kernel) (r : Option (ℕ × Kernel))
    → From idler v k
    → Returns (λ _ k'. Prepared p k') r
    → Ensures (λ _ k'. Same k.current k.ready_list k.idle_thread k') r
    → Ensures (λ _ k'. From idler v k') r
made-From idler v p k none f h s = tt
made-From idler v p k (some (tid, k')) f h (c, e, d) =
    From-adjusts idler v k k' h.inv c d (λ a. ap (count a) e) f

module _ (idler : ℕ) (v : View) (lib : KernelList) (ef sf : ℕ) (ew : ef % 4 ≡ 0)
    (sw : sf % 4 ≡ 0) where
  starts-Keeps :
      (page : ℕ) (tid : ℕ)
      → Keeps
          (From idler v)
          (From idler v)
          (thread_unblock lib page >> (check_current_thread_priority lib >> pure (pos tid)))
  starts-Keeps page tid =
      let P = From idler v in
      Keeps-bind P P P (thread_unblock lib page) _ (thread_unblock-Keeps idler v lib page) (λ _.
        Keeps-bind P P P (check_current_thread_priority lib) _ (check_current-Keeps idler v lib)
          (λ _ k f. f))

  valid-Keeps :
      (page : ℕ) (name : List ℕ) (priority : ℤ) (function : Act (Unit {0})) (k : Kernel)
      → (page == null) ≡ false
      → pri_min ≤ℤ priority
      → priority ≤ℤ pri_max
      → IsFresh page k
      → From idler v k
      → Ensures
          (λ _ k'. From idler v k')
          (thread_create lib ef sf page name priority (some function) k)
  unfolding thread_create
  valid-Keeps page name priority function k z lo hi fresh f =
      let made = prepare_thread lib ef sf page name priority k in
      rw z (
        Ensures-bind (λ _ k'. From idler v k') (λ _ k'. From idler v k') made _
          (made-From idler v page k made f
            (prepare_thread-Prepared lib ef sf page name priority k f.inv (ground arith) fresh.out
              fresh.not_current fresh.not_idle lo hi ew sw)
            (prepare_Same lib ef sf k.current k.idle_thread k.ready_list page name priority k
              (refl, refl, refl)))
          (λ tid k1 f1. starts-Keeps page tid k1 f1))

  pub thread_create-Keeps :
      (page : ℕ) (name : List ℕ) (priority : ℤ) (function : Option (Act (Unit {0}))) (k : Kernel)
      → IsFresh page k
      → From idler v k
      → Ensures (λ _ k'. From idler v k') (thread_create lib ef sf page name priority function k)
  unfolding thread_create prepare_thread init_thread
  thread_create-Keeps page name priority none k fresh f = tt
  thread_create-Keeps page name priority (some function) k fresh f =
      elim (Bool-cases (page == null)) [
        | inl z ↦ rw z f
        | inr z ↦ elim (Bool-cases (ltb_ℤ priority pri_min)) [
          | inl lo ↦ rw (z, lo) tt
          | inr lo ↦ elim (Bool-cases (ltb_ℤ pri_max priority)) [
            | inl hi ↦ rw (z, lo, hi) tt
            | inr hi ↦
                valid-Keeps page name priority function k z (ground arith) (ground arith) fresh f
          ]
        ]
      ]
