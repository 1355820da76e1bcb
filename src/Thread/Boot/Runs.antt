-- ===== src/Thread/Boot/Runs.antt =====
-- The boot of threads/thread.c as a whole: thread_init(), thread_start() and idle() establish the
-- scheduler's invariant.
-- The initial thread waits for the idle thread, which runs for the first time.
use pintos.Prelude.{
  ℕ, ◌%◌, ◌<◌, ◌≡◌, refl, sym, ◌∙◌, ◌≢◌, ◌⊎◌, inl, inr, true, false, some, [], ◌∷◌, arith,
}
use pintos.KernelList.{count, KernelList}
use pintos.Thread.{
  ◌>>◌, Returns, Returns-bind, Returns-mono, running, ready, blocked, IntrLevel, intr_off, intr_on,
  is_off, Kernel, null, thread_magic, pri_min, set_status, is_thread, Act, thread_current,
}
use pintos.Thread.Boot.{idle_name, thread_init, idle, thread_start}
use pintos.Thread.Boot.Created.{Created, current-ok}
use pintos.Thread.Boot.Idle.{create-Created}
use pintos.Thread.Boot.Main.{alone, Started, thread_init-Started}
use pintos.Thread.Create.{thread_create}
use pintos.Thread.Sched.{thread_unblock, schedule, thread_block}
use pintos.Thread.Sched.Inv.{Inv, Tops, Dispatched}
use pintos.Thread.Sched.Moves.{
  unblocked, thread_unblock-ok, count-unblocked, unblocked-Inv, thread_block-Dispatched,
}
use pintos.Thread.Sched.Switch.{handed, schedule-cons}

record Waits (c p : ℕ) (k : Kernel) : Type 0 where
  current : k.current ≡ p
  queue : k.ready_list ≡ []
  waiting : (k.thread c).status ≡ blocked
  main_valid : (k.thread c).magic ≡ thread_magic
  runs : (k.thread p).status ≡ running
  idle_valid : (k.thread p).magic ≡ thread_magic
  only : (a : ℕ) → 0 < count a k.all_list → (a ≡ c) ⊎ (a ≡ p)
  outside : k.in_interrupt ≡ false

module _ (c p : ℕ) (c0 : c ≢ null) (p0 : p ≢ null) (pc : p ≢ c) where
  handed-Waits :
      (k : Kernel) → Created c p ready (p ∷ []) k → Waits c p (handed (set_status k c blocked) p [])
  unfolding handed
  handed-Waits k r = record {
    current = refl;
    queue = refl;
    waiting = ground arith;
    main_valid = ground (arith, r.main.valid);
    runs = ground arith;
    idle_valid = ground (arith, r.idle.valid);
    only = r.only;
    outside = r.outside;
  }

  block-Waits :
      (k : Kernel)
      → Created c p ready (p ∷ []) k
      → Returns (λ _ k'. Waits c p k') (thread_block intr_off k)
  unfolding thread_block is_thread is_off
  block-Waits k r =
      let k1 = set_status k c blocked in
      let left : (k1.thread k1.current).status ≢ running = ground (arith, r.current) in
      let valid : is_thread k1 p ≡ true = ground (arith, r.idle.valid) in
      let blocks : thread_block intr_off k ≡ schedule k1 =
        ground (arith, current-ok c k c0 r.current r.main, r.outside) in
      rw (blocks, schedule-cons k1 p [] r.queue left valid) (handed-Waits k r)

  -- idle() makes itself known to the scheduler.
  known-Inv : (k : Kernel) → Waits c p k → Inv (record k { idle_thread = p })
  unfolding is_thread
  known-Inv k w = record {
    queue = record {
      sorted = rw w.queue tt;
      once = λ a. rw w.queue (omega arith);
      is_ready = λ a h. ground (arith, w.queue);
      valid = λ a h. ground (arith, w.queue);
      idle_valid = ground (arith, w.idle_valid);
    };
    runs = ground (arith, w.current, w.runs);
    current_valid = ground (arith, w.current, w.idle_valid);
    sole = λ a h e. ground (arith, w.only a h, w.waiting, w.current);
  }

  module _ (lib : KernelList) where
    unblocked_outside : (k : Kernel) → (unblocked lib k c).in_interrupt ≡ k.in_interrupt
    unfolding unblocked
    unblocked_outside k = refl

    woken-Inv :
        (k : Kernel)
        → Inv k
        → is_thread k c ≡ true
        → (k.thread c).status ≡ blocked
        → k.ready_list ≡ []
        → Inv (unblocked lib k c) × ((unblocked lib k c).ready_list ≡ c ∷ [])
    woken-Inv k i v b q = (
      unblocked-Inv lib k c i v b,
      alone c (unblocked lib k c).ready_list (λ a. ground (arith, count-unblocked lib k c a, q)),
    )

    chosen-Inv :
        (k k' : Kernel)
        → k.ready_list ≡ c ∷ []
        → Dispatched k k'
        → Inv k' × Tops k' × (k'.current ≡ c) × (k'.ready_list ≡ [])
    chosen-Inv k k' q d = elim d.choice [
      | inl e ↦ let t = sym q ∙ e in (d.inv, d.tops, ground (arith, t), ground (arith, t))
      | inr (e, _, _) ↦ absurd (ground (arith, q))
    ]

    idle-Inv :
        (sema_up : Act (Unit {0})) (k : Kernel)
        → ((k : Kernel) → sema_up k ≡ thread_unblock lib c k)
        → Waits c p k
        → Returns
            (λ _ k'. Inv k' × Tops k' × (k'.current ≡ c) × (k'.ready_list ≡ []))
            (idle sema_up k)
    unfolding idle is_thread thread_current
    idle-Inv sema_up k wakes w =
        let k1 = record k { idle_thread = p } in
        let i = known-Inv k w in
        let v : is_thread k1 c ≡ true = ground (arith, w.main_valid) in
        let cur : thread_current k ≡ some (p, k) =
          ground (arith, w.current, w.runs, w.idle_valid) in
        let (j, q) = woken-Inv k1 i v w.waiting w.queue in
        let k2 = unblocked lib k1 c in
        rw (cur, wakes k1, thread_unblock-ok lib k1 c v w.waiting)
          (Returns-mono (thread_block intr_off k2)
            (thread_block-Dispatched k2 j (unblocked_outside k1 ∙ w.outside))
            (λ _ k' d. chosen-Inv _ k' q d))

module _ (lib : KernelList) (ef sf : ℕ) where
  -- Outside an interrupt and with interrupts off, thread_init(), thread_start() and the first round
  -- of idle() in a row succeed and establish the scheduler's invariant, whatever was in memory: the
  -- initial thread runs then, and the run queue is empty. The two pages are different and not null,
  -- the frames are of whole words, sema_down() disables interrupts and blocks the thread, and
  -- sema_up() makes that thread ready.
  pub boot-Inv :
      (sema_down : IntrLevel → Act (Unit {0})) (sema_up : Act (Unit {0})) (page : ℕ) (k : Kernel)
      → ef % 4 ≡ 0
      → sf % 4 ≡ 0
      → ((q : Kernel) → sema_down intr_on q ≡ thread_block intr_off q)
      → ((q : Kernel) → sema_up q ≡ thread_unblock lib k.current q)
      → k.current ≢ null
      → page ≢ null
      → page ≢ k.current
      → k.in_interrupt ≡ false
      → Returns
          (λ _ k'. Inv k' × Tops k' × (k'.current ≡ k.current) × (k'.ready_list ≡ []))
          ((thread_init lib intr_off
              >> thread_start lib ef sf page sema_up sema_down
              >> idle sema_up)
            k)
  unfolding thread_start
  boot-Inv sema_down sema_up page k ew sw waits wakes c0 p0 pc o =
      Returns-bind (λ _ k'. Waits k.current page k') _
        ((thread_init lib intr_off >> thread_start lib ef sf page sema_up sema_down) k) _
        (Returns-bind (λ _ k'. Started k.current running k') (λ _ k'. Waits k.current page k')
          (thread_init lib intr_off k) _ (thread_init-Started lib k c0 o)
          (λ _ k1 r1.
            Returns-bind (λ _ k'. Created k.current page ready (page ∷ []) k')
              (λ _ k'. Waits k.current page k')
              (thread_create lib ef sf page idle_name pri_min (some (idle sema_up)) k1) _
              (create-Created k.current page c0 p0 pc lib ef sf ew sw (idle sema_up) k1 r1)
              (λ _ k2 r2. rw (waits k2) (block-Waits k.current page c0 p0 pc k2 r2))))
        (λ _ k3 w. idle-Inv k.current page c0 p0 pc lib sema_up k3 wakes w)
