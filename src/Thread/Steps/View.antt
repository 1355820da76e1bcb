-- ===== src/Thread/Steps/View.antt =====
-- What a scheduler by priorities promises, as moves on a view of the kernel of threads/thread.c: who
-- runs, which threads wait for the CPU, as a bag, and the priorities.
use pintos.Prelude.{
  ◌==◌, if◌then◌else◌, ==_iff, Bool-cases, apart, ℕ, ◌+◌, ◌<◌, ◌≡◌, sym, ap, ◌∙◌, inl, inr, false,
  List, ◌∷◌, arith,
}
use pintos.Prelude.Int.{ℤ, ltb_ℤ}
use pintos.KernelList.{count}
use pintos.Thread.{Kernel}
use pintos.Thread.Sched.Inv.{Inv, Dispatched}

pub record View : Type 0 where
  pub runs : ℕ
  pub waiting : ℕ → ℕ
  pub priority : ℕ → ℤ

abbrev pub view : Kernel → View
view k = record {
  runs = k.current;
  waiting = λ a. count a k.ready_list;
  priority = λ a. (k.thread a).priority;
}

abbrev pub one : ℕ → ℕ → ℕ
one t a = if a == t then 1 else 0

-- No waiting thread has a higher priority than the running one.
abbrev pub IsBest : View → Type 0
IsBest w = (a : ℕ) → 0 < w.waiting a → ltb_ℤ (w.priority w.runs) (w.priority a) ≡ false

abbrev pub SamePriority : View → View → Type 0
SamePriority v w = (a : ℕ) → w.priority a ≡ v.priority a

-- Priorities change, and no thread moves; a thread begins to wait; the running thread waits, and the
-- best one runs; the running thread is gone, and the best one runs, or the idle thread if none waits.
pub data Move (idler : ℕ) (v w : View) : Type 0 where
  adjusts : w.runs ≡ v.runs → ((a : ℕ) → w.waiting a ≡ v.waiting a) → Move idler v w
  joins :
      (t : ℕ)
      → w.runs ≡ v.runs
      → SamePriority v w
      → ((a : ℕ) → w.waiting a ≡ one t a + v.waiting a)
      → Move idler v w
  hands :
      IsBest w
      → SamePriority v w
      → ((a : ℕ) → one w.runs a + w.waiting a ≡ one v.runs a + v.waiting a)
      → Move idler v w
  leaves :
      IsBest w
      → SamePriority v w
      → ((a : ℕ) → one w.runs a + w.waiting a ≡ v.waiting a)
      → Move idler v w
  rests :
      w.runs ≡ idler
      → SamePriority v w
      → ((a : ℕ) → v.waiting a ≡ 0)
      → ((a : ℕ) → w.waiting a ≡ 0)
      → Move idler v w

-- Any number of moves.
pub data Moves (idler : ℕ) (v : View) : View → Type 0 where
  none_yet : Moves idler v v
  moved_on : {w x : View} → Moves idler v w → Move idler w x → Moves idler v x

-- The scheduler's invariant, in a state that moves have reached.
pub record From (idler : ℕ) (v : View) (k : Kernel) : Type 0 where
  pub inv : Inv k
  pub same_idle : k.idle_thread ≡ idler
  pub moves : Moves idler v (view k)

module _ (idler : ℕ) (v : View) where
  -- A change in which no thread moves.
  pub From-adjusts :
      (k k' : Kernel)
      → Inv k'
      → k'.current ≡ k.current
      → k'.idle_thread ≡ k.idle_thread
      → ((a : ℕ) → count a k'.ready_list ≡ count a k.ready_list)
      → From idler v k
      → From idler v k'
  From-adjusts k k' i c d e f = record {
    inv = i;
    same_idle = d ∙ f.same_idle;
    moves = moved_on f.moves (adjusts c e);
  }

  priority-Dispatched : (k k' : Kernel) → Dispatched k k' → SamePriority (view k) (view k')
  priority-Dispatched k k' d a = elim (Bool-cases (a == k'.current)) [
    | inl e ↦
        let at : a ≡ k'.current = (==_iff a k'.current).0 e in
        ap (λ b. (k'.thread b).priority) at
        ∙ ap (λ t. t.priority) d.chosen
        ∙ ap (λ b. (k.thread b).priority) (sym at)
    | inr e ↦ ap (λ t. t.priority) (d.others a (apart a k'.current e))
  ]

  -- The running thread of `k` has given up the CPU, and is `k1` without it.
  pub From-leaves :
      (k k1 k' : Kernel)
      → SamePriority (view k) (view k1)
      → k1.ready_list ≡ k.ready_list
      → k1.idle_thread ≡ k.idle_thread
      → Dispatched k1 k'
      → From idler v k
      → From idler v k'
  From-leaves k k1 k' p r i d f = record {
    inv = d.inv;
    same_idle = d.same_idle ∙ i ∙ f.same_idle;
    moves = moved_on f.moves (elim d.choice [
      | inl e ↦ leaves d.tops same (λ a. sym (ap (count a) (sym r ∙ e)))
      | inr (e, e', c) ↦
          rests (c ∙ i ∙ f.same_idle) same (λ a. ap (count a) (sym r ∙ e)) (λ a. ap (count a) e')
    ]);
  }
    where
      same : SamePriority (view k) (view k')
      same a = priority-Dispatched k1 k' d a ∙ p a

  -- The running thread of `k` waits in `k1`.
  pub From-hands :
      (k k1 k' : Kernel)
      → SamePriority (view k) (view k1)
      → ((a : ℕ) → count a k1.ready_list ≡ count a (k.current ∷ k.ready_list))
      → k1.idle_thread ≡ k.idle_thread
      → Dispatched k1 k'
      → From idler v k
      → From idler v k'
  From-hands k k1 k' p r i d f = record {
    inv = d.inv;
    same_idle = d.same_idle ∙ i ∙ f.same_idle;
    moves = moved_on f.moves (
        hands d.tops same (λ a. elim d.choice [
          | inl e ↦ sym (ap (count a) e) ∙ r a
          | inr (e, _, _) ↦ absurd (
              omega (arith, ap (count k.current) e, r k.current, count_here k.current k.ready_list))
        ]));
  }
    where
      same : SamePriority (view k) (view k')
      same a = priority-Dispatched k1 k' d a ∙ p a

      count_here : (a : ℕ) (xs : List ℕ) → 0 < count a (a ∷ xs)
      count_here a xs = ground arith
