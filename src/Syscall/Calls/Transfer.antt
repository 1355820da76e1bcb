-- ===== src/Syscall/Calls/Transfer.antt =====
-- read() of a file: syscall_read() of userprog/syscall.c.
use pintos.Prelude.{
  ltb, leb, ◌==◌, ℕ, suc, ◌+◌, ◌≤◌, ◌<◌, ◌≡◌, refl, ◌≢◌, true, false, Option, none, some, List,
  arith,
}
use pintos.Prelude.Int.{ℤ, pos}
use pintos.Prelude.State.{Returns, Returns-bind}
use pintos.Cache.Coherent.{Coherent}
use pintos.Cache.Read.End.{deref_file-ok, file_read_user-file_bytes}
use pintos.Cache.User.{file_read_user}
use pintos.File.{File, file_length, file_tell}
use pintos.Inode.Bytes.{file_bytes, length-file_bytes}
use pintos.Inode.Read.{IsMapped}
use pintos.Inode.Table.{Inode, inode_length}
use pintos.Inode.Table.Inv.{deref-ok}
use pintos.Machine.{Machine}
use pintos.Syscall.Calls.{
  Calls, Frame, returned, int_of, count_of, phys_base, with_calls, call, file_of, bad_args,
}
use pintos.Syscall.Calls.Files.{read_file, syscall_read}
use pintos.Syscall.Fd.{FdElem, find_fd, get_file}
use pintos.System.{System, file_task}

module _ {Disk : Type 0} (m : Machine Disk) where
  -- A descriptor of the running thread, of a file that is no directory and no executable.
  pub record IsDescriptor (s : Calls Disk) (fd : ℤ) (elem : FdElem) (file : File) (node : Inode)
      : Type 0 where
    pub found : find_fd fd m.cur s.fd_list ≡ some elem
    pub not_exe : elem.is_exe ≡ false
    pub not_dir : elem.isdir ≡ false
    pub live : elem.file ≢ 0
    pub points : s.system.files.file elem.file ≡ some file
    pub node_points : s.system.files.fs.inode file.inode ≡ some node

  module _ (s : Calls Disk) (fd : ℤ) (elem : FdElem) (file : File) (node : Inode)
      (open_fd : IsDescriptor s fd elem file node) where
    not_null : (elem.file == 0) ≡ false
    not_null = let h = open_fd.live in ground arith

    file_of-ok : file_of m fd s ≡ some (elem.file, s)
    unfolding file_of get_file
    file_of-ok = rw open_fd.found (rw open_fd.not_exe refl)

    tell-ok : call (file_task (file_tell elem.file)) s ≡ some (file.pos, s)
    unfolding file_tell
    tell-ok = rw not_null (rw (deref_file-ok elem.file file s.system.files open_fd.points) refl)

    length-ok : call (file_task (file_length elem.file)) s ≡ some (node.disk.length, s)
    unfolding file_length inode_length
    length-ok = rw not_null (
        rw (deref_file-ok elem.file file s.system.files open_fd.points)
          (rw (deref-ok file.inode node s.system.files.fs open_fd.node_points) refl))

    read_file-file_bytes :
        (size : ℕ)
        → m.bounce ≡ true
        → file.pos < node.disk.length
        → file.pos + size ≤ node.disk.length
        → IsMapped m.dev s.system.files.fs.device node.disk
        → Coherent m.dev s.system.files.fs s.system.buffer_cache
        → s.system.buffer_iter < 64
        → Returns
            (λ o s'.
              (o
                ≡ returned
                    (some (pos size))
                    (file_bytes m.dev s.system.files.fs.device node.disk file.pos size))
              × (s'.system.files.file elem.file ≡ some (record file { pos = file.pos + size }))
              × (s'.fd_list ≡ s.fd_list))
            (read_file m elem.file size s)
    unfolding read_file
    read_file-file_bytes size b l h w c t =
        let inside : leb node.disk.length file.pos ≡ false = ground arith in
        rw tell-ok (
          rw length-ok (
            rw inside (
              Returns-bind _ _ (call (file_read_user m (suc size) elem.file size) s) _
                (lifted (file_read_user m (suc size) elem.file size s.system) (
                  file_read_user-file_bytes m (suc size) s.system elem.file size file node b
                    (omega arith) open_fd.points h open_fd.node_points w c t))
                (λ bs s' (e, p, k). (
                  rw e (
                      rw (length-file_bytes m.dev s.system.files.fs.device node.disk file.pos size)
                        refl),
                  p,
                  k,
                )))))
      where
        lifted :
            (r : Option (List ℕ × System Disk))
            → Returns
                (λ bs s'.
                  (bs ≡ file_bytes m.dev s.system.files.fs.device node.disk file.pos size)
                  × (s'.files.file elem.file ≡ some (record file { pos = file.pos + size }))
                  × (s'.files.fs ≡ s.system.files.fs)
                  × Coherent m.dev s.system.files.fs s'.buffer_cache)
                r
            → Returns
                (λ bs s'.
                  (bs ≡ file_bytes m.dev s.system.files.fs.device node.disk file.pos size)
                  × (s'.system.files.file elem.file ≡ some (record file { pos = file.pos + size }))
                  × (s'.fd_list ≡ s.fd_list))
                (with_calls s r)
        lifted none k = k
        lifted (some (bs, s')) (e, p, _, _) = (e, p, refl)

  -- read() inside a file returns the number of bytes that was asked for, puts exactly these bytes of
  -- the file into the buffer, and moves the position of the file behind them. The position is before
  -- the end of the file, and so is that of the last byte; the file's bytes are mapped to readable
  -- sectors, the cache is in order, and the buffer lies below the kernel.
  pub syscall_read-file_bytes :
      (f : Frame) (s : Calls Disk) (elem : FdElem) (file : File) (node : Inode)
      → m.bounce ≡ true
      → f.esp ≤ 3221225456
      → f.word 1 ≢ 0
      → f.word 1 ≢ 1
      → f.word 2 ≤ 3221225472
      → f.word 3 < 2147483648
      → IsDescriptor s (int_of (f.word 1)) elem file node
      → file.pos < node.disk.length
      → file.pos + f.word 3 ≤ node.disk.length
      → IsMapped m.dev s.system.files.fs.device node.disk
      → Coherent m.dev s.system.files.fs s.system.buffer_cache
      → s.system.buffer_iter < 64
      → Returns
          (λ o s'.
            (o
              ≡ returned
                  (some (pos (f.word 3)))
                  (file_bytes m.dev s.system.files.fs.device node.disk file.pos (f.word 3)))
            × (s'.system.files.file elem.file ≡ some (record file { pos = file.pos + f.word 3 }))
            × (s'.fd_list ≡ s.fd_list))
          (syscall_read m f s)
  unfolding syscall_read
  syscall_read-file_bytes f s elem file node b a n k u v h l r w c t =
      let args : bad_args m f 3 ≡ false = ground arith in
      let below : ltb phys_base (f.word 2) ≡ false = ground arith in
      let n' : (f.word 1 == 0) ≡ false = ground arith in
      let k' : (f.word 1 == 1) ≡ false = ground arith in
      let size : count_of (f.word 3) ≡ f.word 3 = ground arith in
      rw args (
        rw below (
          rw (k', n')
            (rw (file_of-ok s (int_of (f.word 1)) elem file node h) (
              rw (not_null s (int_of (f.word 1)) elem file node h) (
                rw size (
                  read_file-file_bytes s (int_of (f.word 1)) elem file node h (f.word 3) b l r w c
                    t))))))
