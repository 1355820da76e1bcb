-- ===== src/Cache/Write.antt =====
-- A write through the buffer cache of filesys/filesys.c, and a read of the same bytes: the functions
-- file_write_at_user() and file_read_at_user() of filesys/file.c inside one sector.
use pintos.Prelude.{
  length, take, drop, ltb, leb, ◌==◌, ℕ, zero, suc, ◌+◌, ◌-◌, ◌/◌, ◌%◌, ◌≤◌, ◌<◌, ◌≡◌, refl, ap,
  ◌∙◌, true, false, Option, none, some, List, [], ◌++◌, arith,
}
use pintos.Prelude.State.{◌>>◌, Returns, Returns-bind}
use pintos.Cache.{first_block, holds_key, find_cache_block}
use pintos.Cache.Coherent.{Coherent}
use pintos.Cache.Filled.{filled, no_more, fill_block-ok, Filled, Held-Filled}
use pintos.Cache.Find.{find_cache_block-Held}
use pintos.Cache.Load.{
  locked_by, unlocked, first_block-none, first_block-some, set_block_here, Held, acquire-ok,
}
use pintos.Cache.Read.{release-ok, inode_length-ok}
use pintos.Cache.Read.End.{deref_file-ok}
use pintos.Cache.User.{
  round_size, inode_of, read_block, read_round, read_user, file_read_at_user, write_user,
  write_grown, file_write_at_user,
}
use pintos.File.{File, file_get_inode}
use pintos.Inode.Read.{IsMapped}
use pintos.Inode.Table.{Inode, inode_deny_cnt}
use pintos.Inode.Table.Inv.{deref-ok}
use pintos.Machine.{Machine}
use pintos.System.{System, set_block}

module _ {Disk : Type 0} (m : Machine Disk) where
  write_user-none :
      (fuel : ℕ) (s : System Disk) (inode : ℕ) (buffer : List ℕ) (p : ℕ)
      → 0 < fuel
      → write_user m fuel inode buffer 0 p s ≡ some (0, s)
  unfolding write_user
  write_user-none zero s inode buffer p h = absurd (omega arith)
  write_user-none (suc fuel) s inode buffer p h = refl

  read_user-none :
      (fuel : ℕ) (s : System Disk) (inode p : ℕ)
      → 0 < fuel
      → read_user m fuel inode 0 p s ≡ some ([], s)
  unfolding read_user
  read_user-none zero s inode p h = absurd (omega arith)
  read_user-none (suc fuel) s inode p h = refl

  -- A write inside one sector is one round: what holds of the system after it.
  pub write_user_once :
      (Q : System Disk → Type 0)
      → (fuel : ℕ) (s : System Disk) (inode : ℕ) (buffer : List ℕ) (p : ℕ) (node : Inode)
      → m.bounce ≡ true
      → 0 < fuel
      → 0 < length buffer
      → p % 512 + length buffer ≤ 512
      → p + length buffer ≤ node.disk.length
      → s.files.fs.inode inode ≡ some node
      → IsMapped m.dev s.files.fs.device node.disk
      → Coherent m.dev s.files.fs s.buffer_cache
      → s.buffer_iter < 64
      → ((i : ℕ) (t : System Disk) → Held m s inode (p / 512) i t → Q (filled i p buffer t))
      → Returns
          (λ w s'. (w ≡ length buffer) × Q s')
          (write_user m (suc fuel) inode buffer (length buffer) p s)
  unfolding write_user
  write_user_once Q fuel s inode buffer p node b fl nz sec len e h c t w =
      let more : (length buffer == 0) ≡ false = ground arith in
      let size : round_size node.disk.length (length buffer) p ≡ length buffer = omega arith in
      let done : length buffer - length buffer ≡ 0 = omega arith in
      rw more (
        Returns-bind (λ i s'. Held m s inode (p / 512) i s') _ (find_cache_block m inode p s) _
          (find_cache_block-Held m s inode p node b e h c t)
          (λ i s' r.
            let e' : s'.files.fs.inode inode ≡ some node = rw r.same_files e in
            rw (inode_length-ok m s' inode node e') (
              rw
                (fill_block-ok m s' i node.disk.length buffer (length buffer) p (omega arith)
                  r.lock)
                (rw (size, done)
                  (rw
                    (write_user-none fuel _ inode (drop (length buffer) buffer) (p + length buffer)
                      fl)
                    (omega arith, w i s' r))))))

  Filled-find :
      (s s' : System Disk) (inode p : ℕ) (buffer : List ℕ) (r : Filled m s inode p buffer s')
      → find_cache_block m inode p s'
        ≡ some (
          r.index,
          record s' {
            buffer_cache =
                set_block s'.buffer_cache r.index (locked_by m.cur (s'.buffer_cache r.index));
          },
        )
  unfolding find_cache_block
  Filled-find s s' inode p buffer r =
      rw (hit (first_block (holds_key inode (p / 512)) s'.buffer_cache 64 0) refl)
        (rw (acquire-ok m s' r.index r.lock) refl)
    where
      hit :
          (q : Option ℕ)
          → first_block (holds_key inode (p / 512)) s'.buffer_cache 64 0 ≡ q
          → first_block (holds_key inode (p / 512)) s'.buffer_cache 64 0 ≡ some r.index
      hit none h =
          let no =
            first_block-none _ s'.buffer_cache 64 0 h r.index (omega arith)
              (omega (arith, r.bound)) in
          absurd (ground (arith, no, r.has_key))
      hit (some j) h =
          let (k, l) = first_block-some _ s'.buffer_cache 64 0 j h in
          h ∙ ap some (r.sole j (omega arith) k)

  read_user-Filled :
      (fuel : ℕ) (s s' : System Disk) (inode : ℕ) (buffer : List ℕ) (p : ℕ) (node : Inode)
      → 0 < fuel
      → 0 < length buffer
      → p % 512 + length buffer ≤ 512
      → p + length buffer ≤ node.disk.length
      → s.files.fs.inode inode ≡ some node
      → Filled m s inode p buffer s'
      → Returns (λ bs _. bs ≡ buffer) (read_user m (suc fuel) inode (length buffer) p s')
  unfolding read_user read_round read_block
  read_user-Filled fuel s s' inode buffer p node fl nz sec len e r =
      let more : (length buffer == 0) ≡ false = ground arith in
      let size : round_size node.disk.length (length buffer) p ≡ length buffer = omega arith in
      let done : length buffer - length buffer ≡ 0 = omega arith in
      let inside : leb p node.disk.length ≡ true = ground arith in
      let old = s'.buffer_cache r.index in
      let f = set_block s'.buffer_cache r.index (locked_by m.cur old) in
      let here : f r.index ≡ locked_by m.cur old = set_block_here s'.buffer_cache r.index _ in
      let t = record s' { buffer_cache = f } in
      let e' : t.files.fs.inode inode ≡ some node = rw r.same_files e in
      let back = set_block_here f r.index (unlocked (f r.index)) in
      let bytes =
        ap (λ b. take (length buffer) (drop (p % 512) b.contents)) back
        ∙ ap (λ b. take (length buffer) (drop (p % 512) b.contents)) here
        ∙ r.bytes_held in
      rw more (
        rw (Filled-find s s' inode p buffer r) (
          rw (inode_length-ok m t inode node e') (
            rw (release-ok m t r.index (ap (λ b. b.block_lock) here)) (
              rw (inside, size, done)
                (rw (read_user-none fuel _ inode (p + length buffer) fl)
                  (ap (λ x. x ++ []) bytes ∙ no_more buffer))))))

  -- The same through the file.
  pub file_write_at_user_once :
      (Q : System Disk → Type 0)
      → (s : System Disk) (file : ℕ) (buffer : List ℕ) (p : ℕ) (f : File) (node : Inode)
      → m.bounce ≡ true
      → 0 < length buffer
      → p % 512 + length buffer ≤ 512
      → p + length buffer ≤ node.disk.length
      → node.deny_write_cnt ≡ 0
      → s.files.file file ≡ some f
      → s.files.fs.inode f.inode ≡ some node
      → IsMapped m.dev s.files.fs.device node.disk
      → Coherent m.dev s.files.fs s.buffer_cache
      → s.buffer_iter < 64
      → ((i : ℕ) (t : System Disk) → Held m s f.inode (p / 512) i t → Q (filled i p buffer t))
      → Returns
          (λ w s'. (w ≡ length buffer) × Q s')
          (file_write_at_user m (suc (length buffer)) file buffer (length buffer) p s)
  unfolding file_write_at_user write_grown inode_of file_get_inode inode_deny_cnt
  file_write_at_user_once Q s file buffer p f node b nz sec len z q e h c t w =
      let inside : ltb node.disk.length (p + length buffer) ≡ false = ground arith in
      rw (deref_file-ok file f s.files q) (
        rw (deref-ok f.inode node s.files.fs e) (
          rw z (
            rw (inode_length-ok m s f.inode node e) (
              rw inside (
                write_user_once Q (length buffer) s f.inode buffer p node b nz nz sec len e h c t
                  w)))))

  -- file_read_at_user() after file_write_at_user(), at the same position of the same file, gives the
  -- bytes that were written, before any of them are on the disk. The write is of at least one byte,
  -- inside one sector and inside the file, and writes are not denied; the cache is in order with nothing
  -- to be written back, and the file's bytes are mapped to readable sectors. Both get a round more than
  -- there are bytes.
  pub file_read_at_user-file_write_at_user :
      (s : System Disk) (file : ℕ) (buffer : List ℕ) (p : ℕ) (f : File) (node : Inode)
      → m.bounce ≡ true
      → 0 < length buffer
      → p % 512 + length buffer ≤ 512
      → p + length buffer ≤ node.disk.length
      → node.deny_write_cnt ≡ 0
      → s.files.file file ≡ some f
      → s.files.fs.inode f.inode ≡ some node
      → IsMapped m.dev s.files.fs.device node.disk
      → Coherent m.dev s.files.fs s.buffer_cache
      → s.buffer_iter < 64
      → Returns
          (λ bs _. bs ≡ buffer)
          ((file_write_at_user m (suc (length buffer)) file buffer (length buffer) p
              >> file_read_at_user m (suc (length buffer)) file (length buffer) p)
            s)
  unfolding file_read_at_user inode_of file_get_inode
  file_read_at_user-file_write_at_user s file buffer p f node b nz sec len z q e h c t =
      Returns-bind (λ w s'. (w ≡ length buffer) × Filled m s f.inode p buffer s') _
        (file_write_at_user m (suc (length buffer)) file buffer (length buffer) p s) _
        (file_write_at_user_once (Filled m s f.inode p buffer) s file buffer p f node b nz sec len z
          q e h c t (λ i t' r. Held-Filled m s t' f.inode i p buffer r))
        (λ w s' (_, r).
          rw (deref_file-ok file f s'.files (rw r.same_files q))
            (read_user-Filled (length buffer) s s' f.inode buffer p node nz nz sec len e r))
