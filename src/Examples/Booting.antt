-- ===== src/Examples/Booting.antt =====
-- The boot and the life of the kernel of threads/thread.c, from concrete states.
-- Thread 1 makes thread 5 ready, then an interrupt comes, and asks for a yield.
use pintos.Prelude.{◌≡◌, refl, true, false, some, [], arith}
use pintos.Prelude.State.{◌>>◌, Returns}
use pintos.Examples.{busy}
use pintos.KernelList.Instance.{simple_list}
use pintos.Thread.{intr_off, Kernel, Returns-some}
use pintos.Thread.Boot.{thread_init, idle, thread_start}
use pintos.Thread.Boot.Runs.{boot-Inv}
use pintos.Thread.Sched.{thread_unblock, thread_block}
use pintos.Thread.Sched.Inv.{Inv, Tops}
use pintos.Thread.Sched.Moves.{unblocked}
use pintos.Thread.Steps.Reach.{Reach}
use pintos.Thread.Steps.View.{Moves}

abbrev woken : Kernel
woken = record (unblocked simple_list busy 5) { in_interrupt = true; yield_on_return = true }

-- The boot, with whatever the memory of `busy` holds.
boot-Inv_example :
    Returns
      (λ _ k'. Inv k' × Tops k' × (k'.current ≡ busy.current) × (k'.ready_list ≡ []))
      ((thread_init simple_list intr_off
          >> thread_start simple_list 8 28 9
              (thread_unblock simple_list 1)
              (λ level. thread_block intr_off)
          >> idle (thread_unblock simple_list 1))
        busy)
boot-Inv_example =
    boot-Inv simple_list 8 28 (λ level. thread_block intr_off) (thread_unblock simple_list 1) 9 busy
      refl refl (λ q. refl) (λ q. refl) (λ e. omega arith) (λ e. omega arith) (λ e. omega arith)
      refl

booted :
    (k' : Kernel) × ((thread_init simple_list intr_off
          >> thread_start simple_list 8 28 9
              (thread_unblock simple_list 1)
              (λ level. thread_block intr_off)
          >> idle (thread_unblock simple_list 1))
        busy
      ≡ some (tt, k'))
booted = Returns-some _ _ boot-Inv_example

-- After an interrupt.
abbrev resumed : Kernel
resumed = record booted.0 { in_interrupt = false; yield_on_return = false }
