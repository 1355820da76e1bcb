-- ===== src/Thread/Boot/Main.antt =====
-- The boot of threads/thread.c up to the end of thread_init(): what is known of the initial thread.
-- A list with one element.
use pintos.Prelude.{
  ◌==◌, if◌then◌else◌, Bool-cases, ℕ, ◌+◌, ◌<◌, ◌≡◌, refl, ◌≢◌, inl, inr, Bool, true, false, List,
  [], ◌∷◌, arith,
}
use pintos.Prelude.Int.{pos}
use pintos.KernelList.{count, KernelList}
use pintos.Thread.{
  Returns, Returns-bind, Status, running, blocked, intr_off, is_off, Thread, Kernel, null,
  thread_magic, pri_default, write,
}
use pintos.Thread.Boot.{main_name, init_lists, init_initial, thread_init}
use pintos.Thread.Create.Start.{initial}
use pintos.Thread.Fields.{compare_all, allocate_tid, init_thread}

pub alone : (p : ℕ) (xs : List ℕ) → ((a : ℕ) → count a xs ≡ (if a == p then 1 else 0)) → xs ≡ p ∷ []
alone p [] h = absurd (ground (arith, h p))
alone p (x ∷ []) h = ground (arith, h x)
alone p (x ∷ y ∷ ys) h = absurd (ground (arith, h x, h y))

pub here : (c : ℕ) → (c == c) ≡ true
here c = ground arith

pub both : {A : Type 0} (P : A → Type 0) (b : Bool) (x y : A) → P x → P y → P (if b then x else y)
both P true x y h k = h
both P false x y h k = k

-- The page of the initial thread.
pub record IsMain (s : Status) (t : Thread) : Type 0 where
  pub has_status : t.status ≡ s
  pub valid : t.magic ≡ thread_magic
  pub own : t.o_priority ≡ pri_default
  pub no_donator : t.donate_list ≡ []
  pub no_cpu : t.recent_cpu ≡ pos 0
  pub not_nice : t.nice ≡ pos 0

-- Before there are threads.
pub record IsEmpty (c : ℕ) (k : Kernel) : Type 0 where
  pub current : k.current ≡ c
  pub queue : k.ready_list ≡ []
  pub no_thread : k.all_list ≡ []
  pub outside : k.in_interrupt ≡ false

-- Only the initial thread.
pub record Started (c : ℕ) (s : Status) (k : Kernel) : Type 0 where
  pub current : k.current ≡ c
  pub queue : k.ready_list ≡ []
  pub main : IsMain s (k.thread c)
  pub only : (a : ℕ) → 0 < count a k.all_list → a ≡ c
  pub outside : k.in_interrupt ≡ false

Started-write :
    (c : ℕ) (s t : Status) (u : Thread) (k : Kernel)
    → Started c s k
    → IsMain t u
    → Started c t (write k c u)
Started-write c s t u k r h = record {
  current = r.current;
  queue = r.queue;
  main = rw (here c) h;
  only = r.only;
  outside = r.outside;
}

Started-tid :
    (c : ℕ) (s : Status) (n : ℕ) (k : Kernel)
    → Started c s k
    → Started c s (record k { next_tid = n })
Started-tid c s n k r = record {
  current = r.current;
  queue = r.queue;
  main = r.main;
  only = r.only;
  outside = r.outside;
}

module _ (lib : KernelList) where
  init_main :
      (c : ℕ) (k : Kernel)
      → c ≢ null
      → IsEmpty c k
      → Returns (λ _ k'. Started c blocked k') (init_thread lib c main_name pri_default k)
  unfolding init_thread
  init_main c k h r =
      let z : (c == null) ≡ false = ground arith in
      rw z (record {
        current = r.current;
        queue = r.queue;
        main = rw (here c) (record {
          has_status = refl;
          valid = refl;
          own = refl;
          no_donator = refl;
          no_cpu = refl;
          not_nice = refl;
        });
        only = λ a m. ground (
          arith,
          lib.count-insert_ordered
              (compare_all (write k c (initial c main_name pri_default)).thread) [] c a,
          r.no_thread,
        );
        outside = r.outside;
      })

  init_initial-Started :
      (c : ℕ) (k : Kernel)
      → c ≢ null
      → IsEmpty c k
      → Returns (λ _ k'. Started c running k') (init_initial lib c k)
  unfolding init_initial allocate_tid
  init_initial-Started c k h e =
      Returns-bind (λ _ k'. Started c blocked k') (λ _ k'. Started c running k')
        (init_thread lib c main_name pri_default k) _ (init_main c k h e)
        (λ _ k' r.
          let m = r.main in
          let s1 = Started-write c blocked running _ k' r (record {
            has_status = refl;
            valid = m.valid;
            own = m.own;
            no_donator = m.no_donator;
            no_cpu = m.no_cpu;
            not_nice = m.not_nice;
          }) in
          let s2 = Started-tid c running (k'.next_tid + 1) _ s1 in
          let m2 = s2.main in
          let s3 = Started-write c running running _ _ s2 (record {
            has_status = m2.has_status;
            valid = m2.valid;
            own = m2.own;
            no_donator = m2.no_donator;
            no_cpu = m2.no_cpu;
            not_nice = m2.not_nice;
          }) in
          let m3 = s3.main in
          both (Started c running) k'.mlfqs _ _
            (Started-write c running running _ _ s3 (record {
              has_status = m3.has_status;
              valid = m3.valid;
              own = m3.own;
              no_donator = m3.no_donator;
              no_cpu = refl;
              not_nice = refl;
            }))
            s3)

  pub thread_init-Started :
      (k : Kernel)
      → k.current ≢ null
      → k.in_interrupt ≡ false
      → Returns (λ _ k'. Started k.current running k') (thread_init lib intr_off k)
  unfolding thread_init init_lists is_off
  thread_init-Started k h o = elim (Bool-cases k.mlfqs) [
    | inl m ↦ rw m (
        init_initial-Started k.current _ h
          (record { current = refl; queue = refl; no_thread = refl; outside = o }))
    | inr m ↦ rw m (
        init_initial-Started k.current _ h
          (record { current = refl; queue = refl; no_thread = refl; outside = o }))
  ]
