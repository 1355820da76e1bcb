-- ===== src/Syscall/Calls.antt =====
-- What the handlers of userprog/syscall.c share: the state, the arguments on the user's stack, and
-- the end of a process.
pub mod Files
pub mod Names
pub mod Processes
pub mod Transfer
pub mod Exit
use pintos.Prelude.{
  ltb, ◌==◌, if◌then◌else◌, ℕ, ◌+◌, ◌-◌, ◌*◌, Bool, false, not, Option, none, some, List, [], ◌∷◌,
}
use pintos.Prelude.Int.{ℤ, pos, negsuc, eq_ℤ}
use pintos.Prelude.State.{pure, ◌>>=◌, ◌>>◌, branch, when}
use pintos.Cache.User.{file_close_user}
use pintos.Inode.Table.Extend.{lock_acquire, lock_release}
use pintos.Machine.{Machine}
use pintos.Syscall.Fd.{FdElem, get_file}
use pintos.System.{System, Task, fs_task, file_task}

-- struct child_info, its semaphores aside.
pub record ChildInfo : Type 0 where
  pub tid : ℤ
  pub exit_code : ℤ
  pub already_wait : Bool
  pub load_fail : Bool

unfoldable pub get_ci_from_tid : ℤ → List ChildInfo → Option ChildInfo
get_ci_from_tid tid [] = none
get_ci_from_tid tid (ci ∷ cis) =
    let rest = get_ci_from_tid tid cis in if eq_ℤ ci.tid tid then some ci else rest

-- `fd_list` is the list of descriptors, `child_info_list` that of threads/thread.c, `tid` the
-- identifier of the running thread, `keyboard` what input_getc() will give, `console` what putbuf() has
-- printed.
pub record Calls (Disk : Type 0) : Type 0 where
  pub system : System Disk
  pub fd_list : List FdElem
  pub child_info_list : List ChildInfo
  pub tid : ℤ
  pub keyboard : List ℕ
  pub console : List ℕ

-- The stack pointer of the user, the words above it (`word 1` is the first argument), the strings at
-- the addresses of the user, and the result of checkIsThread() for a name.
pub record Frame : Type 0 where
  pub esp : ℕ
  pub word : ℕ → ℕ
  pub string : ℕ → List ℕ
  pub is_thread : List ℕ → Bool

-- What a handler does: it returns, with a value in `eax` where it sets one and with bytes in the
-- user's buffer, the process exits, or the machine is turned off.
pub data Outcome : Type 0 where
  returned : Option ℤ → List ℕ → Outcome
  exited : ℤ → Outcome
  halted : Outcome

abbrev pub gives : ℤ → Outcome
gives v = returned (some v) []

abbrev pub of_bool : Bool → ℤ
of_bool b = if b then pos 1 else pos 0

-- A word as an `int`, and as an `off_t` that counts bytes: a negative one counts none.
abbrev pub int_of : ℕ → ℤ
int_of w = if ltb w 2147483648 then pos w else negsuc (4294967295 - w)

abbrev pub count_of : ℕ → ℕ
count_of w = if ltb w 2147483648 then w else 0

abbrev pub phys_base : ℕ
phys_base = 3221225472

abbrev pub Call : Type 0 → Type 0 → Type 0
Call Disk A = Calls Disk → Option (A × Calls Disk)

abbrev pub with_calls :
    {Disk A : Type 0} → Calls Disk → Option (A × System Disk) → Option (A × Calls Disk)
with_calls s none = none
with_calls s (some (a, t)) = some (a, record s { system = t })

module _ {Disk : Type 0} where
  abbrev pub call : {A : Type 0} → Task Disk A → Call Disk A
  call c = λ s. with_calls s (c s.system)

  abbrev pub get : {A : Type 0} → (Calls Disk → A) → Call Disk A
  get f = λ s. some (f s, s)

  abbrev pub put_list : List FdElem → Call Disk (Unit {0})
  put_list es = λ s. some (tt, record s { fd_list = es })

module _ {Disk : Type 0} (m : Machine Disk) where
  -- lock_acquire (&FILELOCK) and lock_release (&FILELOCK)
  abbrev pub acquire : Call Disk (Unit {0})
  acquire = call (fs_task (lock_acquire m))

  abbrev pub release : Call Disk (Unit {0})
  release = call (fs_task (lock_release m))

  abbrev holds : Option ℕ → Bool
  holds none = false
  holds (some h) = h == m.cur

  -- getFile() for the running thread.
  unfoldable pub file_of : ℤ → Call Disk ℕ
  file_of fd = do es ← get (λ s. s.fd_list); call (file_task (get_file fd m.cur es))

  -- The descriptors that allClose() keeps, while it closes the files of the others.
  unfoldable pub close_from : List FdElem → Call Disk (List FdElem)
  close_from [] = pure []
  close_from (e ∷ es) =
      branch (e.owner == m.cur) (do call (file_close_user m e.file); close_from es)
        (do kept ← close_from es; pure (e ∷ kept))

  unfoldable pub all_close : Call Disk (Unit {0})
  unfolding close_from
  all_close = do es ← get (λ s. s.fd_list); kept ← close_from es; put_list kept

  -- The status is stored in the child_info of the thread, if it has one.
  abbrev pub record_exit : ℤ → ℤ → List ChildInfo → List ChildInfo
  record_exit tid status [] = []
  record_exit tid status (ci ∷ cis) =
      let rest = record_exit tid status cis in
      if eq_ℤ ci.tid tid then record ci { exit_code = status } ∷ cis else ci ∷ rest

  -- From the status on; thread_exit() comes next.
  unfoldable pub exit_with : ℤ → Call Disk Outcome
  unfolding all_close
  exit_with status = do
    (λ s. some (tt, record s { child_info_list = record_exit s.tid status s.child_info_list }))
    held ← get (λ s. s.system.files.fs.file_lock)
    when (not (holds held)) acquire
    all_close
    after ← get (λ s. s.system.files.fs.file_lock)
    when (holds after) release
    pure (exited status)

  -- The test of checkARG.
  abbrev pub bad_args : Frame → ℕ → Bool
  bad_args f args_num = ltb (phys_base - (args_num + 1) * 4) f.esp

  unfoldable pub syscall_exit : Frame → ℕ → Call Disk Outcome
  unfolding exit_with
  syscall_exit f args_num = exit_with (if bad_args f args_num then negsuc 0 else int_of (f.word 1))

  -- checkARG, before the body of a handler.
  abbrev pub check_arg : Frame → ℕ → Call Disk Outcome → Call Disk Outcome
  check_arg f args_num body = branch (bad_args f args_num) (syscall_exit f args_num) body
