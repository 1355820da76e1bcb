-- ===== src/Thread/Boot/Idle.antt =====
-- The boot of threads/thread.c: from thread_init() and thread_start() to the first round of idle(), where
-- the scheduler's invariant begins to hold.
-- What the initial thread's priority becomes: PRI_DEFAULT, or PRI_MAX.
use pintos.Prelude.{
  ◌==◌, Bool-cases, ℕ, ◌+◌, ◌%◌, ◌≡◌, refl, sym, subst, ◌≢◌, inl, inr, true, false, some, List, [],
  ◌∷◌, arith,
}
use pintos.Prelude.Int.{ℤ, pos, ◌-ℤ◌, ◌*ℤ◌, quot, ◌≤ℤ◌, ltb_ℤ, wrap32}
use pintos.Fixed.{con_xton_near, divxn}
use pintos.KernelList.{KernelList}
use pintos.Thread.{
  ◌>>=◌, Returns, Returns-bind, Status, running, ready, blocked, Thread, Kernel, null, pri_min,
  pri_default, write, is_thread, compare_pri, Act,
}
use pintos.Thread.Boot.{idle_name}
use pintos.Thread.Boot.Created.{
  Created, current-ok, Created-write, Created-priority, init_idle, frame, inherits,
}
use pintos.Thread.Boot.Main.{alone, IsMain, Started}
use pintos.Thread.Create.{prepare_thread, thread_create}
use pintos.Thread.Donation.{
  mlfqs_calc_pri, donated_priority, thread_get_priority, give_way_if, check_front,
  check_current_thread_priority,
}
use pintos.Thread.Fields.{allocate_tid, alloc_frame, init_thread}
use pintos.Thread.Sched.{thread_unblock}
use pintos.Thread.Sched.Moves.{unblocked, thread_unblock-ok}

main_priority :
    (k : Kernel) (t : Thread)
    → IsMain running t
    → (q : ℤ) × (mlfqs_calc_pri t ≡ some q) × (pri_min ≤ℤ q)
unfolding mlfqs_calc_pri divxn con_xton_near wrap32 ◌-ℤ◌ quot ◌*ℤ◌
main_priority k t m = (pos 63, rw (m.no_cpu, m.not_nice) refl, ground arith)

donated_alone :
    (f : ℕ → Thread) (t : Thread) → IsMain running t → donated_priority f t ≡ pri_default
unfolding donated_priority
donated_alone f t m = rw (m.no_donator) m.own

module _ (c p : ℕ) (c0 : c ≢ null) (p0 : p ≢ null) (pc : p ≢ c) (lib : KernelList) where
  -- The idle thread does not beat the initial thread.
  get_priority-Created :
      (s : Status) (xs : List ℕ) (k : Kernel)
      → Created c p s xs k
      → (q : ℤ) × (thread_get_priority k
          ≡ some (q, write k c (record (k.thread c) { priority = q })))
        × (pri_min ≤ℤ q)
  unfolding thread_get_priority
  get_priority-Created s xs k r = elim (Bool-cases k.mlfqs) [
    | inl m ↦
        let (q, e, l) = main_priority k (k.thread c) r.main in
        (q, ground (arith, current-ok c k c0 r.current r.main), l)
    | inr m ↦ (
      pri_default,
      ground
          (arith, current-ok c k c0 r.current r.main, donated_alone k.thread (k.thread c) r.main),
      ground arith,
    )
  ]

  check-Created :
      (k : Kernel)
      → Created c p ready (p ∷ []) k
      → Returns (λ _ k'. Created c p ready (p ∷ []) k') (check_current_thread_priority lib k)
  unfolding check_current_thread_priority check_front give_way_if
  check-Created k r =
      let (q, e, l) = get_priority-Created ready (p ∷ []) k r in
      let s = Created-priority c p pc ready (p ∷ []) q k r in
      let low : ltb_ℤ q ((write k c (record (k.thread c) { priority = q })).thread p).priority
          ≡ false =
        rw s.idle.lowest (ground arith) in
      subst (λ ys. Returns (λ _ k'. Created c p ready (p ∷ []) k') (check_front lib ys k))
        (sym r.queue) (rw (e, ◌>>=◌) (rw low s))

  unblock-Created :
      (k : Kernel)
      → Created c p blocked [] k
      → Returns (λ _ k'. Created c p ready (p ∷ []) k') (thread_unblock lib p k)
  unfolding is_thread unblocked
  unblock-Created k r =
      let v : is_thread k p ≡ true = ground (arith, r.idle.valid) in
      let xs = lib.insert_ordered (compare_pri k.thread) k.ready_list p in
      let one : xs ≡ p ∷ [] = alone p xs (λ a.
        ground
          (arith, lib.count-insert_ordered (compare_pri k.thread) k.ready_list p a, r.queue)) in
      rw (thread_unblock-ok lib k p v r.idle.has_status) (
        Created-write c p pc blocked ready (p ∷ []) _ (record k { ready_list = xs })
          (record {
            current = r.current;
            queue = one;
            main = r.main;
            idle = r.idle;
            only = r.only;
            outside = r.outside;
          })
          (record { has_status = refl; valid = r.idle.valid; lowest = r.idle.lowest }))

  module _ (ef sf : ℕ) (ew : ef % 4 ≡ 0) (sw : sf % 4 ≡ 0) where
    prepare-Created :
        (k : Kernel)
        → Started c running k
        → Returns
            (λ _ k'. Created c p blocked [] k')
            (prepare_thread lib ef sf p idle_name pri_min k)
    unfolding prepare_thread allocate_tid
    prepare-Created k r =
        let P = λ (n : ℕ) (k' : Kernel). Created c p blocked [] k' in
        Returns-bind (λ _ k'. Created c p blocked [] k') P (init_thread lib p idle_name pri_min k) _
          (init_idle c p pc lib p0 k r)
          (λ _ k1 r1.
            Returns-bind P P (alloc_frame p 12 _) _ (frame c p pc lib p0 12 _ refl (numbered k1 r1))
              (λ _ k2 r2.
                Returns-bind P P (alloc_frame p ef k2) _ (frame c p pc lib p0 ef k2 ew r2)
                  (λ _ k3 r3.
                    Returns-bind P P (alloc_frame p sf k3) _ (frame c p pc lib p0 sf k3 sw r3)
                      (λ _ k4 r4.
                        rw (current-ok c k4 c0 r4.current r4.main)
                          (inherits c p pc lib p0 k4 r4)))))
      where
        numbered :
            (k : Kernel)
            → Created c p blocked [] k
            → Created c p blocked [] (
                write
                  (record k { next_tid = k.next_tid + 1 })
                  p
                  (record (k.thread p) { tid = k.next_tid }))
        numbered k r =
            Created-write c p pc blocked blocked [] _ (record k { next_tid = k.next_tid + 1 })
              (record {
                current = r.current;
                queue = r.queue;
                main = r.main;
                idle = r.idle;
                only = r.only;
                outside = r.outside;
              })
              (record {
                has_status = r.idle.has_status;
                valid = r.idle.valid;
                lowest = r.idle.lowest;
              })

    pub create-Created :
        (function : Act (Unit {0})) (k : Kernel)
        → Started c running k
        → Returns
            (λ _ k'. Created c p ready (p ∷ []) k')
            (thread_create lib ef sf p idle_name pri_min (some function) k)
    unfolding thread_create
    create-Created function k r =
        let z : (p == null) ≡ false = ground arith in
        rw z (
          Returns-bind (λ _ k'. Created c p blocked [] k') (λ _ k'. Created c p ready (p ∷ []) k')
            (prepare_thread lib ef sf p idle_name pri_min k) _ (prepare-Created k r)
            (λ tid k1 r1.
              Returns-bind (λ _ k'. Created c p ready (p ∷ []) k')
                (λ _ k'. Created c p ready (p ∷ []) k') (thread_unblock lib p k1) _
                (unblock-Created k1 r1)
                (λ _ k2 r2.
                  Returns-bind (λ _ k'. Created c p ready (p ∷ []) k')
                    (λ _ k'. Created c p ready (p ∷ []) k') (check_current_thread_priority lib k2) _
                    (check-Created k2 r2) (λ _ k3 r3. r3))))
