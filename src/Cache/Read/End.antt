-- ===== src/Cache/Read/End.antt =====
-- file_read_user() of filesys/file.c: at the end of the file, and up to it.
use pintos.Prelude.{
  length, ◌==◌, ℕ, zero, suc, ◌+◌, ◌-◌, ◌≤◌, ◌<◌, ◌≡◌, refl, ap, ◌∙◌, true, false, Option, none,
  some, arith,
}
use pintos.Prelude.State.{pure, ◌>>=◌, Returns, Returns-bind, Returns-mono, Returns-none}
use pintos.Cache.Coherent.{Coherent}
use pintos.Cache.Read.{Same, read_round-Same, read_user-file_bytes}
use pintos.Cache.User.{round_size, read_round, read_user, set_pos, file_read_user}
use pintos.File.{File, Files, put_file, deref_file, store_file}
use pintos.Inode.Bytes.{file_bytes, length-file_bytes}
use pintos.Inode.Read.{IsMapped}
use pintos.Inode.Table.{Inode}
use pintos.Machine.{Machine}
use pintos.System.{System, Task}

put_here : (f : ℕ → Option File) (p : ℕ) (v : Option File) → put_file f p v p ≡ v
put_here f p v = ground arith

pub deref_file-ok :
    {Disk : Type 0} (p : ℕ) (f : File) (s : Files Disk)
    → s.file p ≡ some f
    → deref_file p s ≡ some (f, s)
unfolding deref_file
deref_file-ok p f s h = rw (h, deref_file) refl

module _ {Disk : Type 0} (m : Machine Disk) where
  -- The bytes still to be read, and the position, after a number of rounds of the loop.
  unfoldable pub read_rounds : ℕ → ℕ → ℕ → ℕ → Task Disk (ℕ × ℕ)
  read_rounds zero inode size p = pure (size, p)
  read_rounds (suc n) inode size p = do
    r ← read_round m inode size p
    read_rounds n inode (size - r.1) (p + r.1)

  kept_total : (size p k len : ℕ) → k ≡ round_size len size p → p + k + (size - k) ≡ p + size
  kept_total size p k len h = omega arith

  -- file_read_user() beyond the end of the file never returns: when it asks for more bytes than there
  -- are from its position on, any number of rounds of its loop succeeds, leaves the files and the
  -- device as they are, stays within the file, and leaves bytes to be read; so no fuel is enough.
  pub read_user_past_end :
      (n : ℕ) (s : System Disk) (inode size p : ℕ) (node : Inode)
      → m.bounce ≡ true
      → p ≤ node.disk.length
      → node.disk.length < p + size
      → s.files.fs.inode inode ≡ some node
      → IsMapped m.dev s.files.fs.device node.disk
      → Coherent m.dev s.files.fs s.buffer_cache
      → s.buffer_iter < 64
      → Returns
          (λ r s'.
            (0 < r.0) × (r.1 ≤ node.disk.length) × (r.1 + r.0 ≡ p + size) × (s'.files ≡ s.files))
          (read_rounds n inode size p s)
        × (read_user m n inode size p s ≡ none)
  unfolding read_rounds read_user
  read_user_past_end zero s inode size p node b l g e h c t = ((omega arith, l, refl, refl), refl)
  read_user_past_end (suc n) s inode size p node b l g e h c t =
      let unread : (size == 0) ≡ false = ground arith in
      let round = read_round-Same m s inode size p node b l e h c t in
      let later : (k : ℕ) (s' : System Disk)
          → Same m s s'
          → k ≡ round_size node.disk.length size p
          → Returns
              (λ r s''.
                (0 < r.0)
                × (r.1 ≤ node.disk.length)
                × (r.1 + r.0 ≡ p + k + (size - k))
                × (s''.files ≡ s'.files))
              (read_rounds n inode (size - k) (p + k) s')
            × (read_user m n inode (size - k) (p + k) s' ≡ none) =
        λ k s' q len.
          read_user_past_end n s' inode (size - k) (p + k) node b (omega arith) (omega arith)
            (rw q.same_files e) (rw q.same_files h) (rw q.same_files q.coherent) q.iter in
      (
        Returns-bind _ _ (read_round m inode size p s) _ round (λ (bs, k) s' (q, w, len).
            let (next, _) = later k s' q len in
            Returns-mono _ _ (read_rounds n inode (size - k) (p + k) s') next
              (λ r s'' (left, inside, total, same). (
                left,
                inside,
                total ∙ kept_total size p k node.disk.length len,
                same ∙ q.same_files,
              ))),
        rw unread (
            Returns-none _ (read_round m inode size p s) _ round
              (λ (bs, k) s' (q, w, len). let (_, stuck) = later k s' q len in rw stuck refl)),
      )

  -- file_read_user() of bytes that the file has returns them, for enough rounds: one more than there
  -- are bytes. It moves the position behind them, and leaves the inodes and the device as they are and
  -- the cache in order.
  pub file_read_user-file_bytes :
      (fuel : ℕ) (s : System Disk) (file size : ℕ) (f : File) (node : Inode)
      → m.bounce ≡ true
      → size < fuel
      → s.files.file file ≡ some f
      → f.pos + size ≤ node.disk.length
      → s.files.fs.inode f.inode ≡ some node
      → IsMapped m.dev s.files.fs.device node.disk
      → Coherent m.dev s.files.fs s.buffer_cache
      → s.buffer_iter < 64
      → Returns
          (λ bs s'.
            (bs ≡ file_bytes m.dev s.files.fs.device node.disk f.pos size)
            × (s'.files.file file ≡ some (record f { pos = f.pos + size }))
            × (s'.files.fs ≡ s.files.fs)
            × Coherent m.dev s.files.fs s'.buffer_cache)
          (file_read_user m fuel file size s)
  unfolding file_read_user set_pos store_file
  file_read_user-file_bytes fuel s file size f node b lt q l e h c t =
      rw (deref_file-ok file f s.files q) (
        Returns-bind _ _ (read_user m fuel f.inode size f.pos s) _
          (read_user-file_bytes m fuel s f.inode size f.pos node b lt l e h c t)
          (λ bs s' (w, r). rw (deref_file-ok file f s'.files (rw w.same_files q)) (
            r,
            put_here s'.files.file file _
                ∙ ap (λ k. some (record f { pos = f.pos + k }))
                    (ap length r ∙ length-file_bytes m.dev s.files.fs.device node.disk f.pos size),
            ap (λ f. f.fs) w.same_files,
            w.coherent,
          )))
