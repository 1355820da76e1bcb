-- ===== src/Thread/Donation/Set.antt =====
-- thread_get_priority() and thread_set_priority() of threads/thread.c.
use pintos.Prelude.{
  Any, All-map, if◌then◌else◌, Bool-cases, ℕ, ◌≡◌, refl, ◌⊎◌, inl, inr, true, false, some, List, [],
  ◌∷◌, arith,
}
use pintos.Prelude.Int.{ℤ, pos, ◌-ℤ◌, ◌*ℤ◌, quot, ◌≤ℤ◌, ltb_ℤ, wrap32}
use pintos.Fixed.{con_xton_near, divxn}
use pintos.KernelList.{count}
use pintos.Thread.{Donate, Thread, Kernel, pri_min, pri_max, write, is_thread}
use pintos.Thread.Donation.{
  search_best_donator, is_empty, mlfqs_calc_pri, donated_priority, thread_get_priority,
}
use pintos.Thread.Donation.Best.{IsBest, search_best_donator-IsBest}
use pintos.Thread.Lists.{IsSorted-put}
use pintos.Thread.Sched.Inv.{Inv}
use pintos.Thread.Sched.Moves.{thread_current-ok}

pub mlfqs_calc_pri-some : (t : Thread) → (p : ℤ) × (mlfqs_calc_pri t ≡ some p)
unfolding mlfqs_calc_pri divxn
mlfqs_calc_pri-some t = (
  wrap32
      (wrap32 (pri_max -ℤ con_xton_near (quot t.recent_cpu (pos 4))) -ℤ wrap32 (t.nice *ℤ pos 2)),
  ground arith,
)

-- The priority of the running thread is set to `p`.
unfoldable pub with_priority : Kernel → ℤ → Kernel
with_priority k p = write k k.current (record (k.thread k.current) { priority = p })

pub get_priority-calc :
    (k : Kernel) (p : ℤ)
    → Inv k
    → k.mlfqs ≡ true
    → mlfqs_calc_pri (k.thread k.current) ≡ some p
    → thread_get_priority k ≡ some (p, with_priority k p)
unfolding thread_get_priority with_priority
get_priority-calc k p i m e = ground (arith, thread_current-ok k i.current_valid i.runs)

pub get_priority-donated :
    (k : Kernel)
    → Inv k
    → k.mlfqs ≡ false
    → let p = donated_priority k.thread (k.thread k.current) in
      thread_get_priority k ≡ some (p, with_priority k p)
unfolding thread_get_priority with_priority
get_priority-donated k i m = ground (arith, thread_current-ok k i.current_valid i.runs)

pub get_priority-some :
    (k : Kernel) → Inv k → (p : ℤ) × (thread_get_priority k ≡ some (p, with_priority k p))
get_priority-some k i = elim (Bool-cases k.mlfqs) [
  | inl m ↦
      let (p, e) = mlfqs_calc_pri-some (k.thread k.current) in (p, get_priority-calc k p i m e)
  | inr m ↦ (donated_priority k.thread (k.thread k.current), get_priority-donated k i m)
]

pub with_priority-Inv : (k : Kernel) (p : ℤ) → Inv k → Inv (with_priority k p)
unfolding with_priority is_thread
with_priority-Inv k p i =
    let out : count k.current k.ready_list ≡ 0 =
      ground (arith, i.queue.is_ready k.current, i.runs) in
    record {
      queue = record {
        sorted =
            IsSorted-put k.thread k.current _ k.ready_list (λ h. absurd (omega arith))
              i.queue.sorted;
        once = i.queue.once;
        is_ready = λ a h. ground (arith, i.queue.is_ready a);
        valid = λ a h. ground (arith, i.queue.valid a);
        idle_valid = ground (arith, i.queue.idle_valid);
      };
      runs = ground (arith, i.runs);
      current_valid = ground (arith, i.current_valid);
      sole = λ a h e. ground (arith, i.sole a h);
    }

donated_priority-nil :
    (f : ℕ → Thread) (t : Thread) → t.donate_list ≡ [] → donated_priority f t ≡ t.o_priority
unfolding donated_priority
donated_priority-nil f t e = ground arith

effective : ℤ → List Donate → ℤ → ℤ
effective low dl best = if is_empty dl then low else if ltb_ℤ low best then best else low

effective-IsBest :
    (f : ℕ → Thread) (low : ℤ) (dl : List Donate) (best : ℤ)
    → pri_min ≤ℤ low
    → IsBest f pri_min dl best
    → IsBest f low dl (effective low dl best)
unfolding effective
effective-IsBest f low [] best h b = record {
  above_low = omega arith;
  above = tt;
  reached = inl refl;
}
effective-IsBest f low (d ∷ ds) best h b = elim (Bool-cases (ltb_ℤ low best)) [
  | inl e ↦ rw e (record { above_low = ground arith; above = b.above; reached = donor e b.reached })
  | inr e ↦ rw e (record {
    above_low = omega arith;
    above = All-map (d ∷ ds) (λ c q. ground arith) b.above;
    reached = inl refl;
  })
]
  where
    donor :
        ltb_ℤ low best ≡ true
        → (best ≡ pri_min) ⊎ Any (λ c. best ≡ (f c.donator).priority) (d ∷ ds)
        → (best ≡ low) ⊎ Any (λ c. best ≡ (f c.donator).priority) (d ∷ ds)
    donor e (inl p) = absurd (ground arith)
    donor e (inr a) = inr a

-- The effective priority is the highest of the thread's own priority and those of its donators,
-- provided that its own is not below PRI_MIN.
pub donated_priority-IsBest :
    (f : ℕ → Thread) (t : Thread)
    → pri_min ≤ℤ t.o_priority
    → IsBest f t.o_priority t.donate_list (donated_priority f t)
unfolding donated_priority effective
donated_priority-IsBest f t h =
    effective-IsBest f t.o_priority t.donate_list (search_best_donator f t.donate_list) h
      (search_best_donator-IsBest f t.donate_list)
