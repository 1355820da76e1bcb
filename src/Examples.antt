-- ===== src/Examples.antt =====
-- Concrete states of threads/thread.c, on which the theorems are applied.
pub mod Scheduler
pub mod Booting
pub mod Donations
pub mod Numbers
pub mod FileSystem
pub mod Cache
pub mod Directories
pub mod Inodes
pub mod Sectors
use pintos.Prelude.{replicate, ◌==◌, if◌then◌else◌, ℕ, ◌*◌, refl, true, false, [], ◌∷◌, arith}
use pintos.Prelude.Int.{ℤ, pos}
use pintos.Thread.{Status, running, ready, blocked, Thread, Kernel, null, thread_magic, is_thread}
use pintos.Thread.Sched.Inv.{Inv}

abbrev pub a_thread : ℕ → Status → ℤ → Thread
a_thread tid status priority = record {
  tid = tid;
  status = status;
  name = 109 ∷ 97 ∷ 105 ∷ 110 ∷ replicate 12 0;
  stack = 4096 * tid;
  priority = priority;
  pagedir = null;
  pwd = null;
  magic = thread_magic;
  o_priority = priority;
  donate_list = [];
  nice = pos 0;
  recent_cpu = pos 0;
}

-- Thread 1 runs, 2 and 3 are ready, 4 is the idle thread, 5 is blocked.
abbrev pub five_threads : ℕ → Thread
five_threads p =
    if p == 1
    then a_thread 1 running (pos 31)
    else if p == 2
    then a_thread 2 ready (pos 40)
    else if p == 3
    then a_thread 3 ready (pos 20)
    else if p == 4
    then a_thread 4 blocked (pos 0)
    else a_thread 5 blocked (pos 31)

-- The kernel in which thread 2 has to get the CPU.
abbrev pub busy : Kernel
busy = record {
  thread = five_threads;
  ready_list = 2 ∷ 3 ∷ [];
  all_list = 1 ∷ 2 ∷ 3 ∷ 4 ∷ 5 ∷ [];
  current = 1;
  idle_thread = 4;
  initial_thread = 1;
  next_tid = 6;
  mlfqs = false;
  load_avg = pos 0;
  idle_ticks = 0;
  kernel_ticks = 0;
  user_ticks = 0;
  thread_ticks = 2;
  yield_on_return = false;
  in_interrupt = false;
  freed = [];
}

pub busy-Inv : Inv busy
unfolding is_thread
busy-Inv = record {
  queue = record {
    sorted = (λ y h. ground arith, (λ y h. elim h [ ], tt));
    once = λ a. ground arith;
    is_ready = λ a h. ground arith;
    valid = λ a h. ground arith;
    idle_valid = refl;
  };
  runs = refl;
  current_valid = refl;
  sole = λ a h e. ground arith;
}

-- The same in the handler of an interrupt, and with the multi-level feedback queue.
abbrev pub busy_interrupt : Kernel
busy_interrupt = record busy { in_interrupt = true }

pub busy_interrupt-Inv : Inv busy_interrupt
unfolding is_thread
busy_interrupt-Inv = record {
  queue = record {
    sorted = busy-Inv.queue.sorted;
    once = busy-Inv.queue.once;
    is_ready = busy-Inv.queue.is_ready;
    valid = λ a h. ground (arith, busy-Inv.queue.valid a);
    idle_valid = refl;
  };
  runs = refl;
  current_valid = refl;
  sole = busy-Inv.sole;
}

abbrev pub busy_mlfqs : Kernel
busy_mlfqs = record busy_interrupt { mlfqs = true }

pub busy_mlfqs-Inv : Inv busy_mlfqs
unfolding is_thread
busy_mlfqs-Inv = record {
  queue = record {
    sorted = busy-Inv.queue.sorted;
    once = busy-Inv.queue.once;
    is_ready = busy-Inv.queue.is_ready;
    valid = λ a h. ground (arith, busy-Inv.queue.valid a);
    idle_valid = refl;
  };
  runs = refl;
  current_valid = refl;
  sole = busy-Inv.sole;
}
