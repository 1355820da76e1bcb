-- ===== src/Thread/Boot/Created.antt =====
-- The boot of threads/thread.c: the idle thread is created by thread_start().
-- The page of the idle thread.
use pintos.Prelude.{
  ◌==◌, if◌then◌else◌, ==_iff, Bool-cases, ℕ, ◌%◌, ◌<◌, ◌≡◌, refl, ◌≢◌, ◌⊎◌, inl, inr, true, false,
  not, ◌&&◌, some, List, [], arith,
}
use pintos.Prelude.Int.{ℤ}
use pintos.KernelList.{count, KernelList}
use pintos.Thread.{
  Returns, Status, running, blocked, Thread, Kernel, null, thread_magic, pri_min, write, is_thread,
  thread_current,
}
use pintos.Thread.Boot.{idle_name}
use pintos.Thread.Boot.Main.{here, both, IsMain, Started}
use pintos.Thread.Create.Start.{initial}
use pintos.Thread.Fields.{compare_all, alloc_frame, init_thread}

pub record IsIdle (s : Status) (t : Thread) : Type 0 where
  pub has_status : t.status ≡ s
  pub valid : t.magic ≡ thread_magic
  pub lowest : t.priority ≡ pri_min

-- The initial thread `c` runs, the idle thread `p` has a status, and the run queue is known.
pub record Created (c p : ℕ) (s : Status) (xs : List ℕ) (k : Kernel) : Type 0 where
  pub current : k.current ≡ c
  pub queue : k.ready_list ≡ xs
  pub main : IsMain running (k.thread c)
  pub idle : IsIdle s (k.thread p)
  pub only : (a : ℕ) → 0 < count a k.all_list → (a ≡ c) ⊎ (a ≡ p)
  pub outside : k.in_interrupt ≡ false

pub current-ok :
    (c : ℕ) (k : Kernel)
    → c ≢ null
    → k.current ≡ c
    → IsMain running (k.thread c)
    → thread_current k ≡ some (c, k)
unfolding thread_current is_thread
current-ok c k z e m = ground (arith, m.has_status, m.valid)

module _ (c p : ℕ) (pc : p ≢ c) where
  pub Created-write :
      (s t : Status) (xs : List ℕ) (u : Thread) (k : Kernel)
      → Created c p s xs k
      → IsIdle t u
      → Created c p t xs (write k p u)
  Created-write s t xs u k r h =
      let other : (c == p) ≡ false = ground arith in
      record {
        current = r.current;
        queue = r.queue;
        main = rw other r.main;
        idle = rw (here p) h;
        only = r.only;
        outside = r.outside;
      }

  pub Created-priority :
      (s : Status) (xs : List ℕ) (q : ℤ) (k : Kernel)
      → Created c p s xs k
      → Created c p s xs (write k c (record (k.thread c) { priority = q }))
  Created-priority s xs q k r =
      let other : (p == c) ≡ false = ground arith in
      let m = r.main in
      record {
        current = r.current;
        queue = r.queue;
        main = rw (here c) (record {
          has_status = m.has_status;
          valid = m.valid;
          own = m.own;
          no_donator = m.no_donator;
          no_cpu = m.no_cpu;
          not_nice = m.not_nice;
        });
        idle = rw other r.idle;
        only = r.only;
        outside = r.outside;
      }

  module _ (lib : KernelList) (p0 : p ≢ null) where
    pub init_idle :
        (k : Kernel)
        → Started c running k
        → Returns (λ _ k'. Created c p blocked [] k') (init_thread lib p idle_name pri_min k)
    unfolding init_thread
    init_idle k r =
        let z : (p == null) ≡ false = ground arith in
        let other : (c == p) ≡ false = ground arith in
        let page = initial p idle_name pri_min in
        rw z (record {
          current = r.current;
          queue = r.queue;
          main = rw other r.main;
          idle = rw (here p) (record { has_status = refl; valid = refl; lowest = refl });
          only = λ a m. elim (Bool-cases (a == p)) [
            | inl e ↦ inr ((==_iff a p).0 e)
            | inr e ↦ inl (
                r.only a (
                  ground (
                    arith,
                    lib.count-insert_ordered (compare_all (write k p page).thread) k.all_list p a,
                  )))
          ];
          outside = r.outside;
        })

    pub frame :
        (size : ℕ) (k : Kernel)
        → size % 4 ≡ 0
        → Created c p blocked [] k
        → Returns (λ _ k'. Created c p blocked [] k') (alloc_frame p size k)
    unfolding alloc_frame is_thread
    frame size k h r =
        let v : (not (p == null) && ((k.thread p).magic == thread_magic)) ≡ true =
          ground (arith, r.idle.valid) in
        let w : (size % 4 == 0) ≡ true = ground arith in
        rw (v, w)
          (Created-write blocked blocked [] _ k r (record {
            has_status = r.idle.has_status;
            valid = r.idle.valid;
            lowest = r.idle.lowest;
          }))

    pub inherits :
        (k : Kernel)
        → Created c p blocked [] k
        → let q = write k p (record (k.thread p) { pwd = (k.thread c).pwd }) in
          Created c p blocked [] (
            if k.mlfqs
            then write q p (record (q.thread p) {
              recent_cpu = (q.thread c).recent_cpu;
              nice = (q.thread c).nice;
            })
            else q)
    inherits k r =
        let q = write k p (record (k.thread p) { pwd = (k.thread c).pwd }) in
        let i = r.idle in
        let s : Created c p blocked [] q =
          Created-write blocked blocked [] _ k r
            (record { has_status = i.has_status; valid = i.valid; lowest = i.lowest }) in
        let j = s.idle in
        both (Created c p blocked []) k.mlfqs _ q
          (Created-write blocked blocked [] _ q s
            (record { has_status = j.has_status; valid = j.valid; lowest = j.lowest }))
          s
