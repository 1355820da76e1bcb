-- ===== src/Thread/Donation.antt =====
-- Priorities and their donation: search_best_donator(), thread_get_priority(),
-- thread_set_priority(), the nice value, and checkCurrentThreadPriority(), which yields the CPU to
-- a ready thread of a higher priority.
pub mod Best
pub mod Set
pub mod Preempt
pub mod Own
use mathlib.Core.Option
use pintos.Prelude.{
  if◌then◌else◌, ℕ, Bool, true, false, not, Option, none, some, List, [], ◌∷◌, map,
}
use pintos.Prelude.Int.{ℤ, pos, ◌-ℤ◌, ◌*ℤ◌, ltb_ℤ, wrap32}
use pintos.Fixed.{con_xton_near, mulxn, divxn}
use pintos.KernelList.{KernelList}
use pintos.Thread.{
  Donate, Thread, pri_min, pri_max, write, Act, pure, ◌>>=◌, ◌>>◌, assert, modify, gets,
  thread_current,
}
use pintos.Thread.Sched.{thread_yield}

-- The loop of search_best_donator(), from a maximum.
best_from : (ℕ → Thread) → ℤ → List Donate → ℤ
best_from f max [] = max
best_from f max (d ∷ ds) =
    best_from f (if ltb_ℤ max (f d.donator).priority then (f d.donator).priority else max) ds

unfoldable pub search_best_donator : (ℕ → Thread) → List Donate → ℤ
unfolding best_from
search_best_donator f dl = best_from f pri_min dl

abbrev pub is_empty : List Donate → Bool
is_empty [] = true
is_empty (_ ∷ _) = false

-- A value that a trapping division may not give.
abbrev pub lift : {A : Type 0} → Option A → Act A
lift none = λ k. none
lift (some a) = λ k. some (a, k)

unfoldable pub mlfqs_calc_pri : Thread → Option ℤ
mlfqs_calc_pri t =
    Option.map (λ q. wrap32 (wrap32 (pri_max -ℤ con_xton_near q) -ℤ wrap32 (t.nice *ℤ pos 2)))
      (divxn t.recent_cpu (pos 4))

-- Without the multi-level feedback queue: the own priority, or a donator's if that is higher.
unfoldable pub donated_priority : (ℕ → Thread) → Thread → ℤ
donated_priority f t =
    let best = search_best_donator f t.donate_list in
    if is_empty t.donate_list
    then t.o_priority
    else if ltb_ℤ t.o_priority best
    then best
    else t.o_priority

-- The priority of the running thread, which is also stored in it.
unfoldable pub thread_get_priority : Act ℤ
thread_get_priority = do
  cur ← thread_current
  mlfqs ← gets (λ k. k.mlfqs)
  t ← gets (λ k. k.thread cur)
  f ← gets (λ k. k.thread)
  p ← lift (if mlfqs then mlfqs_calc_pri t else some (donated_priority f t))
  modify (λ k. write k cur (record (k.thread cur) { priority = p }))
  pure p

module _ (lib : KernelList) where
  -- `intr_context ()` chooses how to give way to a thread that beats the running one.
  unfoldable pub give_way : Act (Unit {0})
  give_way k =
      if k.in_interrupt then some (tt, record k { yield_on_return = true }) else thread_yield lib k

  unfoldable pub give_way_if : Bool → Act (Unit {0})
  give_way_if true = give_way
  give_way_if false = pure tt

  unfoldable pub check_front : List ℕ → Act (Unit {0})
  check_front [] = pure tt
  check_front (front ∷ _) = do
    p ← thread_get_priority
    q ← gets (λ k. (k.thread front).priority)
    give_way_if (ltb_ℤ p q)

  unfoldable pub check_current_thread_priority : Act (Unit {0})
  check_current_thread_priority k = check_front k.ready_list k

  unfoldable pub thread_set_priority : ℤ → Act (Unit {0})
  thread_set_priority new_priority = do
    assert (λ k. not k.mlfqs)
    cur ← thread_current
    modify (λ k.
        let t = k.thread cur in
        let best = search_best_donator k.thread t.donate_list in
        if is_empty t.donate_list
        then write k cur (record t { priority = new_priority; o_priority = new_priority })
        else if ltb_ℤ new_priority best
        then write k cur (record t { priority = best; o_priority = new_priority })
        else k)
    check_current_thread_priority

  unfoldable pub thread_set_nice : ℤ → Act (Unit {0})
  thread_set_nice nice = do
    cur ← thread_current
    assert (λ k. k.mlfqs)
    modify (λ k. write k cur (record (k.thread cur) { nice = nice }))
    p ← (λ k. lift (mlfqs_calc_pri (k.thread cur)) k)
    modify (λ k. write k cur (record (k.thread cur) { priority = p }))
    check_current_thread_priority

unfoldable pub thread_get_nice : Act ℤ
thread_get_nice = do assert (λ k. k.mlfqs); cur ← thread_current; gets (λ k. (k.thread cur).nice)

-- 100 times the load average, to the nearest integer.
unfoldable pub thread_get_load_avg : Act ℤ
thread_get_load_avg = do
  assert (λ k. k.mlfqs)
  gets (λ k. con_xton_near (mulxn k.load_avg (pos 100)))

unfoldable pub thread_get_recent_cpu : Act ℤ
thread_get_recent_cpu = do
  assert (λ k. k.mlfqs)
  cur ← thread_current
  gets (λ k. con_xton_near (mulxn (k.thread cur).recent_cpu (pos 100)))
