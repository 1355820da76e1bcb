-- ===== src/Cache/User.antt =====
-- The operations of filesys/file.c that go through the buffer cache: file_read_user(),
-- file_read_at_user(), file_write_user(), file_write_at_user() and file_close_user(). The loops are
-- on fuel for their rounds: `none` when it runs out.
use Prim.Native.Nat.{min, max}
use pintos.Prelude.{
  length, take, drop, ltb, leb, ◌==◌, ℕ, zero, suc, ◌+◌, ◌-◌, ◌%◌, true, not, List, [], ◌++◌,
}
use pintos.Prelude.State.{pure, ◌>>=◌, ◌>>◌, stop, check, branch, when}
use pintos.Block.{block_sector_size}
use pintos.Cache.{release_block, find_cache_block, file_write_back}
use pintos.File.{deref_file, store_file, file_get_inode, file_close}
use pintos.Inode.Table.{inode_length, inode_deny_cnt}
use pintos.Inode.Table.Extend.{file_extension}
use pintos.Machine.{Machine}
use pintos.System.{Task, fs_task, file_task, inspect, update_block}

-- The bytes of a round: up to the end of the request, of the file and of the sector. A position
-- beyond the end makes the count negative, and memcpy() faults.
abbrev pub round_size : ℕ → ℕ → ℕ → ℕ
round_size len size p = min size (min (len - p) (block_sector_size - p % block_sector_size))

module _ {Disk : Type 0} (m : Machine Disk) where
  -- The inode that a file refers to.
  unfoldable pub inode_of : ℕ → Task Disk ℕ
  inode_of file = file_task (file_get_inode file)

  -- The copy out of block `i`, whose lock is held.
  unfoldable pub read_block : ℕ → ℕ → ℕ → ℕ → Task Disk (List ℕ)
  read_block i len size p = do
    release_block m i
    check (leb p len)
    let n = round_size len size p
    let ofs = p % block_sector_size
    b ← inspect (λ s. s.buffer_cache i)
    update_block i (λ b. record b { size = max (n + ofs) b.size; accessed = true })
    pure (take n (drop ofs b.contents))

  -- A round of the loop: the bytes that it copies, and their number.
  unfoldable pub read_round : ℕ → ℕ → ℕ → Task Disk (List ℕ × ℕ)
  read_round inode size p = do
    i ← find_cache_block m inode p
    len ← fs_task (inode_length inode)
    bs ← read_block i len size p
    pure (bs, round_size len size p)

  unfoldable pub read_user : ℕ → ℕ → ℕ → ℕ → Task Disk (List ℕ)
  unfolding read_round
  read_user zero inode size p = stop
  read_user (suc fuel) inode size p = branch (size == 0) (pure []) (do
    r ← read_round inode size p
    more ← read_user fuel inode (size - r.1) (p + r.1)
    pure (r.0 ++ more))

  unfoldable pub file_read_at_user : ℕ → ℕ → ℕ → ℕ → Task Disk (List ℕ)
  unfolding read_user
  file_read_at_user fuel file size file_ofs = do
    inode ← inode_of file
    read_user fuel inode size file_ofs

  unfoldable pub set_pos : ℕ → ℕ → Task Disk (Unit {0})
  set_pos file n = file_task (do f ← deref_file file; store_file file (record f { pos = n }))

  unfoldable pub file_read_user : ℕ → ℕ → ℕ → Task Disk (List ℕ)
  unfolding read_user
  file_read_user fuel file size = do
    f ← file_task (deref_file file)
    bs ← read_user fuel f.inode size f.pos
    set_pos file (f.pos + length bs)
    pure bs

  -- The copy into block `i`.
  unfoldable pub fill_block : ℕ → ℕ → List ℕ → ℕ → ℕ → Task Disk (Unit {0})
  fill_block i len buffer size p = do
    check (leb p len)
    let n = round_size len size p
    let ofs = p % block_sector_size
    update_block i (λ b. record b {
      size = max (n + ofs) b.size;
      contents = take ofs b.contents ++ (take n buffer ++ drop (ofs + n) b.contents);
      accessed = true;
      dirty = true;
    })
    release_block m i

  -- The number of bytes written.
  unfoldable pub write_user : ℕ → ℕ → List ℕ → ℕ → ℕ → Task Disk ℕ
  write_user zero inode buffer size p = stop
  write_user (suc fuel) inode buffer size p = branch (size == 0) (pure 0) (do
    i ← find_cache_block m inode p
    len ← fs_task (inode_length inode)
    fill_block i len buffer size p
    let n = round_size len size p
    more ← write_user fuel inode (drop n buffer) (size - n) (p + n)
    pure (n + more))

  -- The test for denied writes, and the growth of the file.
  unfoldable pub write_grown : ℕ → ℕ → List ℕ → ℕ → ℕ → Task Disk ℕ
  unfolding write_user
  write_grown fuel inode buffer size p = do
    denied ← fs_task (inode_deny_cnt inode)
    branch (not (denied == 0)) (pure 0) (do
      len ← fs_task (inode_length inode)
      when (ltb len (p + size)) (fs_task (file_extension m inode size p))
      write_user fuel inode buffer size p)

  unfoldable pub file_write_at_user : ℕ → ℕ → List ℕ → ℕ → ℕ → Task Disk ℕ
  unfolding write_grown
  file_write_at_user fuel file buffer size file_ofs = do
    inode ← inode_of file
    write_grown fuel inode buffer size file_ofs

  unfoldable pub file_write_user : ℕ → ℕ → List ℕ → ℕ → Task Disk ℕ
  unfolding write_grown
  file_write_user fuel file buffer size = do
    f ← file_task (deref_file file)
    n ← write_grown fuel f.inode buffer size f.pos
    set_pos file (f.pos + n)
    pure n

  unfoldable pub file_close_user : ℕ → Task Disk (Unit {0})
  file_close_user file = do
    inode ← inode_of file
    file_write_back m inode
    file_task (file_close m.dev m.bitmap_write file)
