-- ===== src/Thread/Steps/Ops.antt =====
-- The operations of threads/thread.c that may switch threads, and the timer tick: when they return
-- they have made moves of a scheduler by priorities, and kept the scheduler's invariant.
use pintos.Prelude.{
  ◌==◌, Bool-cases, apart, ℕ, ◌≡◌, refl, inl, inr, Bool, true, false, List, [], ◌∷◌, arith,
}
use pintos.Prelude.Int.{ℤ}
use pintos.Prelude.State.{Ensures}
use pintos.KernelList.{count, KernelList}
use pintos.Thread.{Status, blocked, Kernel, is_blocked, is_thread}
use pintos.Thread.Donation.{give_way, give_way_if, check_front, check_current_thread_priority}
use pintos.Thread.Donation.Preempt.{check_front-nil, check_front-cons}
use pintos.Thread.Donation.Set.{with_priority, get_priority-some, with_priority-Inv}
use pintos.Thread.Sched.{thread_unblock, thread_yield}
use pintos.Thread.Sched.Moves.{
  unblocked, thread_unblock-ok, count-unblocked, unblocked-Inv, thread_current-ok,
}
use pintos.Thread.Sched.Yield.{yielding, count-yielding, thread_yield-Dispatched}
use pintos.Thread.Steps.Keeps.{Keeps, Ensures-of, Ensures-none, From-ext}
use pintos.Thread.Steps.View.{
  View, view, SamePriority, joins, moved_on, From, From-adjusts, From-leaves, From-hands,
}

yielding_idle :
    (lib : KernelList) (k : Kernel)
    → (k.current == k.idle_thread) ≡ true
    → (yielding lib k).ready_list ≡ k.ready_list
unfolding yielding
yielding_idle lib k e = rw e refl

yielding_fields :
    (lib : KernelList) (k : Kernel)
    → SamePriority (view k) (view (yielding lib k)) × ((yielding lib k).idle_thread ≡ k.idle_thread)
unfolding yielding
yielding_fields lib k = elim (Bool-cases (k.current == k.idle_thread)) [
  | inl e ↦ rw e (λ a. ground arith, refl)
  | inr e ↦ rw e (λ a. ground arith, refl)
]

module _ (idler : ℕ) (v : View) where
  pub with_priority-From : (k : Kernel) (p : ℤ) → From idler v k → From idler v (with_priority k p)
  unfolding with_priority
  with_priority-From k p f =
      From-adjusts idler v k _ (with_priority-Inv k p f.inv) refl refl (λ a. refl) f

module _ (idler : ℕ) (v : View) (lib : KernelList) where
  abbrev R : Unit {0} → Kernel → Type 0
  R = λ _ k'. From idler v k'

  pub thread_yield-Keeps : Keeps (From idler v) (From idler v) (thread_yield lib)
  unfolding thread_yield
  thread_yield-Keeps k f = elim (Bool-cases k.in_interrupt) [
    | inl c ↦
        Ensures-none R (thread_yield lib k)
          (rw (thread_current-ok k f.inv.current_valid f.inv.runs) (rw c refl))
    | inr c ↦
        let (p, i) = yielding_fields lib k in
        Ensures-of _ R (thread_yield lib k) (thread_yield-Dispatched lib k f.inv c) (λ _ k' d.
          elim (Bool-cases (k.current == k.idle_thread)) [
            | inl e ↦ From-leaves idler v k (yielding lib k) k' p (yielding_idle lib k e) i d f
            | inr e ↦
                From-hands idler v k (yielding lib k) k' p
                  (count-yielding lib k (apart k.current k.idle_thread e)) i d f
          ])
  ]

  thread_unblock_fields :
      (t : ℕ) (k : Kernel)
      → is_thread k t ≡ true
      → (k.thread t).status ≡ blocked
      → From idler v k
      → From idler v (unblocked lib k t)
  unfolding unblocked
  thread_unblock_fields t k w b f = record {
    inv = unblocked-Inv lib k t f.inv w b;
    same_idle = f.same_idle;
    moves = moved_on f.moves (joins t refl (λ a. ground arith) (count-unblocked lib k t));
  }

  pub thread_unblock-Keeps : (t : ℕ) → Keeps (From idler v) (From idler v) (thread_unblock lib t)
  unfolding thread_unblock
  thread_unblock-Keeps t k f = elim (Bool-cases (is_thread k t)) [
    | inr w ↦ rw w tt
    | inl w ↦ elim (Bool-cases (is_blocked (k.thread t).status)) [
      | inr b ↦ rw (w, b) tt
      | inl b ↦
          let s = blocked_of (k.thread t).status b in
          rw (thread_unblock-ok lib k t w s) (thread_unblock_fields t k w s f)
    ]
  ]
    where
      blocked_of : (s : Status) → is_blocked s ≡ true → s ≡ blocked
      blocked_of s h = ground arith

  give_way-Keeps : Keeps (From idler v) (From idler v) (give_way lib)
  unfolding give_way
  give_way-Keeps k f = elim (Bool-cases k.in_interrupt) [
    | inl c ↦ rw c (From-ext idler v k _ refl refl refl refl refl f)
    | inr c ↦
        let yields : give_way lib k ≡ thread_yield lib k = ground arith in
        rw yields (thread_yield-Keeps k f)
  ]

  give_way_if-Keeps : (b : Bool) → Keeps (From idler v) (From idler v) (give_way_if lib b)
  unfolding give_way_if
  give_way_if-Keeps true k f = give_way-Keeps k f
  give_way_if-Keeps false k f = f

  pub check_current-Keeps : Keeps (From idler v) (From idler v) (check_current_thread_priority lib)
  unfolding check_current_thread_priority
  check_current-Keeps k f = by_queue k.ready_list refl
    where
      by_queue :
          (xs : List ℕ)
          → k.ready_list ≡ xs
          → Ensures (λ _ k'. From idler v k') (check_front lib xs k)
      by_queue [] e = rw (check_front-nil lib k) f
      by_queue (x ∷ xs) e =
          let (p, g) = get_priority-some k f.inv in
          let out : count k.current (x ∷ xs) ≡ 0 =
            ground (arith, f.inv.queue.is_ready k.current, f.inv.runs) in
          rw (check_front-cons lib k p x xs g out)
            (give_way_if-Keeps _ (with_priority k p) (with_priority-From idler v k p f))
