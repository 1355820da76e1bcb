-- ===== src/Syscall/Calls/Processes.antt =====
-- The handlers of userprog/syscall.c that call userprog/process.c, and the dispatch of a system call by
-- its number. The functions of userprog/process.c, and the wait on the semaphore of a child, are
-- parameters.
-- process_execute(), process_wait(), and sema_down() on `e_sema` of the child with a tid.
use pintos.Prelude.{take, ◌==◌, if◌then◌else◌, ℕ, none, some, List, [], ◌∷◌}
use pintos.Prelude.Int.{ℤ, negsuc, eq_ℤ}
use pintos.Prelude.State.{pure, ◌>>=◌, ◌>>◌, branch, lift}
use pintos.FileSystem.{filesys_open}
use pintos.Machine.{Machine}
use pintos.Syscall.Calls.{
  get_ci_from_tid, Frame, Outcome, returned, halted, gives, int_of, Call, call, get, put_list,
  syscall_exit, check_arg,
}
use pintos.Syscall.Calls.Files.{
  syscall_filesize, syscall_read, syscall_write, syscall_seek, syscall_tell, syscall_close,
  syscall_isdir, syscall_inumber,
}
use pintos.Syscall.Calls.Names.{
  reset_path, syscall_create, syscall_remove, syscall_open, syscall_chdir, syscall_mkdir,
  syscall_readdir,
}
use pintos.System.{fs_task}
use pintos.Thread.{null}

pub record Processes (Disk : Type 0) : Type 0 where
  pub process_execute : List ℕ → Call Disk ℤ
  pub process_wait : ℤ → Call Disk ℤ
  pub sema_down : ℤ → Call Disk (Unit {0})

-- What strtok_r() with the delimiter " " leaves of a buffer: the spaces in front, and the first word.
abbrev pub space : ℕ
space = 32

unfoldable pub until_space : List ℕ → List ℕ
until_space [] = []
until_space (b ∷ bs) = let rest = until_space bs in if b == space then [] else b ∷ rest

unfoldable pub first_word : List ℕ → List ℕ
unfolding until_space
first_word [] = []
first_word (b ∷ bs) =
    let rest = first_word bs in if b == space then b ∷ rest else b ∷ until_space bs

-- The numbers of lib/syscall-nr.h that the dispatch knows.
pub data Number : Type 0 where
  sys_halt : Number
  sys_exit : Number
  sys_exec : Number
  sys_wait : Number
  sys_create : Number
  sys_remove : Number
  sys_open : Number
  sys_filesize : Number
  sys_read : Number
  sys_write : Number
  sys_seek : Number
  sys_tell : Number
  sys_close : Number
  sys_chdir : Number
  sys_mkdir : Number
  sys_readdir : Number
  sys_isdir : Number
  sys_inumber : Number
  sys_other : Number

module _ {Disk : Type 0} (m : Machine Disk) (lib : Processes Disk) where
  -- With the thread of the child: it is waited for until it has loaded.
  unfoldable pub wait_load : ℤ → Call Disk Outcome
  wait_load tid = do
    cis ← get (λ s. s.child_info_list)
    _ ← lift (get_ci_from_tid tid cis)
    lib.sema_down tid
    after ← get (λ s. get_ci_from_tid tid s.child_info_list)
    ci ← lift after
    pure (gives (if ci.load_fail then negsuc 0 else tid))

  unfoldable pub syscall_exec : Frame → List ℕ → Call Disk Outcome
  unfolding wait_load
  syscall_exec f fn_copy = check_arg m f 1 (do
    let command_line = f.string (f.word 1)
    reset_path m
    file ← call (filesys_open m (first_word (take 255 command_line)) fn_copy)
    branch (file == null) (pure (gives (negsuc 0))) (do
      tid ← lib.process_execute command_line
      branch (eq_ℤ tid (negsuc 0)) (pure (gives (negsuc 0))) (wait_load tid)))

  unfoldable pub syscall_wait : Frame → Call Disk Outcome
  syscall_wait f =
      check_arg m f 1 (do status ← lib.process_wait (int_of (f.word 1)); pure (gives status))

  -- Without the registration of the interrupt.
  unfoldable pub syscall_init : Call Disk (Unit {0})
  syscall_init = do put_list []; call (fs_task (λ s. some (tt, record s { file_lock = none })))

  unfoldable pub syscall_halt : Call Disk Outcome
  syscall_halt = pure halted

  unfoldable pub syscall_handler : Number → Frame → List ℕ → Call Disk Outcome
  syscall_handler sys_halt f fn_copy = syscall_halt
  syscall_handler sys_exit f fn_copy = syscall_exit m f 1
  syscall_handler sys_exec f fn_copy = syscall_exec f fn_copy
  syscall_handler sys_wait f fn_copy = syscall_wait f
  syscall_handler sys_create f fn_copy = syscall_create m f fn_copy
  syscall_handler sys_remove f fn_copy = syscall_remove m f fn_copy
  syscall_handler sys_open f fn_copy = syscall_open m f fn_copy
  syscall_handler sys_filesize f fn_copy = syscall_filesize m f
  syscall_handler sys_read f fn_copy = syscall_read m f
  syscall_handler sys_write f fn_copy = syscall_write m f
  syscall_handler sys_seek f fn_copy = syscall_seek m f
  syscall_handler sys_tell f fn_copy = syscall_tell m f
  syscall_handler sys_close f fn_copy = syscall_close m f
  syscall_handler sys_chdir f fn_copy = syscall_chdir m f fn_copy
  syscall_handler sys_mkdir f fn_copy = syscall_mkdir m f fn_copy
  syscall_handler sys_readdir f fn_copy = syscall_readdir m f
  syscall_handler sys_isdir f fn_copy = syscall_isdir m f
  syscall_handler sys_inumber f fn_copy = syscall_inumber m f
  syscall_handler sys_other f fn_copy = pure (returned none [])
