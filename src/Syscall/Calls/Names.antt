-- ===== src/Syscall/Calls/Names.antt =====
-- The handlers of userprog/syscall.c that take the name of a file or of a directory. `fn_copy` is
-- what the page for the copy of the name holds at first.
use pintos.Prelude.{
  length, ◌==◌, ℕ, Bool, true, false, not, Option, none, some, List, [], ◌∷◌, ◌++◌,
}
use pintos.Prelude.Int.{pos, negsuc}
use pintos.Prelude.State.{pure, ◌>>=◌, ◌>>◌, check, branch, lift}
use pintos.Cache.User.{inode_of}
use pintos.Directory.{
  malloc, set_path, dir_open, dir_open_root, dir_reopen, dir_close, dir_lookup, dir_readdir,
}
use pintos.Directory.Entry.{same_string}
use pintos.Directory.Path.{slash, find_dir, isdir_by_name, mkdir_by_name}
use pintos.FileSystem.{filesys_create, filesys_open, filesys_remove}
use pintos.Machine.{Machine}
use pintos.Syscall.Calls.{
  Frame, Outcome, returned, gives, of_bool, int_of, Call, call, get, put_list, acquire, release,
  check_arg,
}
use pintos.Syscall.Fd.{find_fd, new_elem}
use pintos.System.{own_pwd, put_pwd}
use pintos.Thread.{null}

module _ {Disk : Type 0} (m : Machine Disk) where
  -- thread_current ()->pwd
  unfoldable pub get_pwd : Call Disk ℕ
  get_pwd = do p ← get (λ s. own_pwd m.cur s.system.pwd); lift p

  unfoldable pub set_pwd : ℕ → Call Disk (Unit {0})
  set_pwd v = call (λ s. some (tt, record s { pwd = put_pwd m.cur v s.pwd }))

  -- path = dir_reopen (thread_current ()->pwd)
  unfoldable pub reset_path : Call Disk (Unit {0})
  unfolding get_pwd
  reset_path = do pwd ← get_pwd; p ← call (dir_reopen m pwd); call (set_path m p)

  unfoldable pub syscall_create : Frame → List ℕ → Call Disk Outcome
  unfolding reset_path
  syscall_create f fn_copy =
      let file = f.string (f.word 1) in
      check_arg m f 2 (
        branch (length file == 0) (pure (gives (pos 0))) (do
          acquire m
          reset_path
          result ← call (filesys_create m file fn_copy (f.word 2))
          release m
          pure (gives (of_bool result))))

  unfoldable pub syscall_remove : Frame → List ℕ → Call Disk Outcome
  unfolding reset_path
  syscall_remove f fn_copy = check_arg m f 1 (do
    acquire m
    reset_path
    result ← call (filesys_remove m (f.string (f.word 1)) fn_copy)
    release m
    pure (gives (of_bool result)))

  -- The new descriptor of an open file.
  unfoldable pub add_elem : Frame → ℕ → Call Disk Outcome
  unfolding new_elem
  add_elem f file = do
    fe ← call malloc
    check (not (fe == null))
    path ← get (λ s. s.system.path)
    isdir ← call (isdir_by_name m path (f.string (f.word 1)))
    es ← get (λ s. s.fd_list)
    let e = new_elem m.cur file (f.word 1) (f.is_thread (f.string (f.word 1))) path isdir es
    put_list (es ++ (e ∷ []))
    pure (gives (pos e.fd))

  unfoldable pub syscall_open : Frame → List ℕ → Call Disk Outcome
  unfolding add_elem reset_path
  syscall_open f fn_copy = check_arg m f 1 (
      branch (f.word 1 == 0) (pure (gives (negsuc 0))) (do
        acquire m
        reset_path
        file ← call (filesys_open m (f.string (f.word 1)) fn_copy)
        r ← branch (file == null) (pure (gives (negsuc 0))) (add_elem f file)
        path ← get (λ s. s.system.path)
        call (dir_close m path)
        release m
        pure r))

  -- With the inode of the name.
  unfoldable pub enter : ℕ → List ℕ → ℕ → Call Disk Bool
  unfolding get_pwd set_pwd
  enter path name inode = do
    isdir ← call (isdir_by_name m path name)
    branch (not isdir) (pure false) (do
      pwd ← get_pwd
      call (dir_close m pwd)
      new_pwd ← call (dir_open m inode)
      set_pwd new_pwd
      call (dir_close m path)
      pure true)

  unfoldable pub change_dir : List ℕ → List ℕ → Call Disk Bool
  unfolding enter
  change_dir name fn_copy = do
    pwd ← get_pwd
    dir ← call (dir_reopen m pwd)
    (found, name_copy) ← call (find_dir m name fn_copy dir)
    path ← get (λ s. s.system.path)
    branch (path == null) (pure false) (do
      inode ← call (dir_lookup m path name_copy)
      branch (inode == null) (pure false) (enter path name_copy inode))

  unfoldable pub syscall_chdir : Frame → List ℕ → Call Disk Outcome
  unfolding change_dir
  syscall_chdir f fn_copy = check_arg m f 1 (do
    acquire m
    result ←
        branch (same_string (f.string (f.word 1)) (slash ∷ []))
          (do root ← call (dir_open_root m); set_pwd root; pure true)
          (change_dir (f.string (f.word 1)) fn_copy)
    release m
    pure (gives (of_bool result)))

  unfoldable pub syscall_mkdir : Frame → List ℕ → Call Disk Outcome
  syscall_mkdir f fn_copy = check_arg m f 1 (do
    acquire m
    pwd ← get_pwd
    result ← call (mkdir_by_name m (f.string (f.word 1)) fn_copy pwd)
    release m
    pure (gives (of_bool result)))

  -- The name of the next entry, as dir_readdir() stores it.
  abbrev read_name : Option (List ℕ) → Outcome
  read_name none = gives (pos 0)
  read_name (some name) = returned (some (pos 1)) (name ++ (0 ∷ []))

  unfoldable pub read_dir : ℕ → Call Disk Outcome
  read_dir file = do
    inode ← call (inode_of m file)
    dir ← call (dir_open m inode)
    branch (dir == null) (pure (gives (pos 0)))
        (do name ← call (dir_readdir m dir); call (dir_close m dir); pure (read_name name))

  unfoldable pub syscall_readdir : Frame → Call Disk Outcome
  unfolding read_dir
  syscall_readdir f = check_arg m f 2 (do
    es ← get (λ s. s.fd_list)
    e ← lift (find_fd (int_of (f.word 1)) m.cur es)
    branch (not e.isdir) (pure (gives (pos 0))) (read_dir e.file))
