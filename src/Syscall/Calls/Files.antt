-- ===== src/Syscall/Calls/Files.antt =====
-- The handlers of userprog/syscall.c that work on descriptors. A loop over the bytes of a request
-- has fuel for one round more than there are bytes.
use pintos.Prelude.{
  length, take, drop, ltb, leb, ◌==◌, if◌then◌else◌, ℕ, suc, Bool, true, not, none, some, List, [],
  ◌++◌,
}
use pintos.Prelude.Int.{ℤ, pos, negsuc}
use pintos.Prelude.State.{pure, ◌>>=◌, ◌>>◌, branch, when, lift}
use pintos.Cache.User.{inode_of, file_read_user, file_write_user, file_close_user}
use pintos.File.{file_length, file_seek, file_tell}
use pintos.Machine.{Machine}
use pintos.Syscall.Calls.{
  Frame, Outcome, returned, gives, of_bool, int_of, count_of, phys_base, Call, call, get, put_list,
  acquire, release, file_of, exit_with, check_arg,
}
use pintos.Syscall.Fd.{elem_file, isdir_by_fd}
use pintos.System.{file_task}
use pintos.Thread.{null}

module _ {Disk : Type 0} (m : Machine Disk) where
  -- What a handler does without the file of a descriptor, and with it.
  abbrev on_file : ℕ → Call Disk Outcome → Call Disk Outcome → Call Disk Outcome
  on_file file missing found = branch (file == null) missing found

  unfoldable pub syscall_filesize : Frame → Call Disk Outcome
  syscall_filesize f = check_arg m f 1 (do
    acquire m
    file ← file_of m (int_of (f.word 1))
    r ←
        on_file file (pure (gives (negsuc 0)))
          (do n ← call (file_task (file_length file)); pure (gives (pos n)))
    release m
    pure r)

  -- input_getc(), `n` times: it waits for a key when there is none.
  unfoldable pub read_keys : ℕ → Call Disk (List ℕ)
  read_keys n s =
      if ltb (length s.keyboard) n
      then none
      else some (take n s.keyboard, record s { keyboard = drop n s.keyboard })

  -- Reading of a file: none at its end.
  unfoldable pub read_file : ℕ → ℕ → Call Disk Outcome
  read_file file size = do
    p ← call (file_task (file_tell file))
    len ← call (file_task (file_length file))
    branch (leb len p) (pure (gives (pos 0))) (do
      bs ← call (file_read_user m (suc size) file size)
      pure (returned (some (pos (length bs))) bs))

  unfoldable pub syscall_read : Frame → Call Disk Outcome
  unfolding read_file
  syscall_read f = check_arg m f 3 (
      branch (ltb phys_base (f.word 2)) (exit_with m (negsuc 0)) (
        branch (f.word 1 == 0)
          (do bs ← read_keys (f.word 3); pure (returned (some (int_of (f.word 3))) bs))
          (branch (f.word 1 == 1) (pure (gives (negsuc 0))) (do
            file ← file_of m (int_of (f.word 1))
            on_file file (pure (gives (negsuc 0))) (read_file file (count_of (f.word 3)))))))

  -- Writing to a file: nothing at its end.
  unfoldable pub write_file : ℕ → List ℕ → ℕ → Call Disk Outcome
  write_file file buffer size = do
    p ← call (file_task (file_tell file))
    len ← call (file_task (file_length file))
    branch (leb len p) (pure (gives (pos 0)))
        (do n ← call (file_write_user m (suc size) file buffer size); pure (gives (pos n)))

  -- isdir_by_fd() for the running thread.
  unfoldable pub fd_isdir : ℤ → Call Disk Bool
  fd_isdir fd = do es ← get (λ s. s.fd_list); lift (isdir_by_fd fd m.cur es)

  -- `f.string` gives the bytes of the buffer.
  unfoldable pub syscall_write : Frame → Call Disk Outcome
  unfolding write_file fd_isdir
  syscall_write f = check_arg m f 3 (
      branch (f.word 1 == 1)
        (do
          (λ s.
              some (tt, record s { console = s.console ++ take (f.word 3) (f.string (f.word 2)) }))
          pure (gives (int_of (f.word 3))))
        (do
          isdir ← branch (f.word 1 == 0) (pure true) (fd_isdir (int_of (f.word 1)))
          branch isdir (pure (gives (negsuc 0))) (do
            file ← file_of m (int_of (f.word 1))
            on_file file (pure (gives (negsuc 0)))
                (write_file file (f.string (f.word 2)) (count_of (f.word 3))))))

  unfoldable pub syscall_seek : Frame → Call Disk Outcome
  syscall_seek f = check_arg m f 2 (do
    acquire m
    file ← file_of m (int_of (f.word 1))
    when (not (file == null)) (call (file_task (file_seek file (int_of (f.word 2)))))
    release m
    pure (returned none []))

  unfoldable pub syscall_tell : Frame → Call Disk Outcome
  syscall_tell f = check_arg m f 1 (do
    acquire m
    file ← file_of m (int_of (f.word 1))
    r ←
        on_file file (pure (gives (negsuc 0)))
          (do n ← call (file_task (file_tell file)); pure (gives (pos n)))
    release m
    pure r)

  unfoldable pub syscall_close : Frame → Call Disk Outcome
  syscall_close f = check_arg m f 1 (do
    file ← file_of m (int_of (f.word 1))
    acquire m
    when (not (file == null)) (do
      call (file_close_user m file)
      es ← get (λ s. s.fd_list)
      put_list (elem_file file m.cur es))
    release m
    pure (returned none []))

  unfoldable pub syscall_isdir : Frame → Call Disk Outcome
  unfolding fd_isdir
  syscall_isdir f =
      check_arg m f 1 (do isdir ← fd_isdir (int_of (f.word 1)); pure (gives (of_bool isdir)))

  unfoldable pub syscall_inumber : Frame → Call Disk Outcome
  syscall_inumber f = check_arg m f 1 (do
    file ← file_of m (int_of (f.word 1))
    on_file file (pure (returned none []))
        (do inode ← call (inode_of m file); pure (gives (int_of inode))))
