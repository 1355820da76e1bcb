-- ===== src/Thread/Steps/Booted.antt =====
-- The steps of threads/thread.c after its boot.
use pintos.KernelList.{KernelList}
use pintos.Thread.Sched.Inv.{Inv}
use pintos.Thread.Steps.Reach.{Reach}
