-- ===== src/Cache/Durable.antt =====
-- The write-back of the buffer cache of filesys/filesys.c: what cache_write_back() and
-- file_write_back() leave on the device.
use pintos.Prelude.{
  length, get_or, ltb, ◌==◌, ==_iff, Bool-cases, apart, ℕ, zero, suc, ◌+◌, ◌*◌, ◌≤◌, ◌<◌, ◌≡◌, refl,
  ap, ◌∙◌, ◌≢◌, ◌⊎◌, inl, inr, Bool, true, false, not, ◌&&◌, ◌||◌, none, some, List, arith,
}
use pintos.Prelude.State.{pure, ◌>>◌, Returns, Returns-bind}
use pintos.Block.Words.{bytes}
use pintos.Cache.{release_block, write_block, cache_write_back, write_back_from}
use pintos.Cache.Load.{locked_by, unlocked, set_block_here, acquire-ok}
use pintos.Cache.Read.{release-ok}
use pintos.Inode.Bytes.{file_bytes}
use pintos.Inode.Table.{Inode, Fs}
use pintos.Inode.Table.Access.{write_at}
use pintos.Inode.Table.Inv.{deref-ok}
use pintos.Inode.Update.{write_loop-file_bytes}
use pintos.Machine.{Machine}
use pintos.System.{CacheBlock, System, set_block}

-- A block that cache_write_back() writes.
abbrev pub to_write : CacheBlock → Bool
to_write b = b.valid && b.dirty

pub set_block_apart :
    (f : ℕ → CacheBlock) (i : ℕ) (b c : CacheBlock) (j : ℕ)
    → j ≢ i
    → set_block (set_block f i b) i c j ≡ f j
set_block_apart f i b c j ne = ground arith

module _ {Disk : Type 0} (m : Machine Disk) where
  -- A block that holds a whole sector of a file, to be written back.
  pub record IsFull (fs : Fs Disk) (node : Inode) (old : List ℕ) (b : CacheBlock) : Type 0 where
    pub lock : b.block_lock ≡ none
    pub valid : b.valid ≡ true
    pub dirty : b.dirty ≡ true
    pub full : b.size ≡ 512
    pub whole : length b.contents ≡ 512
    pub points : fs.inode b.inode ≡ some node
    pub allowed : node.deny_write_cnt ≡ 0
    pub direct : b.block_no < 10
    pub inside : b.block_no * 512 + 512 ≤ node.disk.length
    pub stored : m.dev.block_read fs.device (get_or node.disk.direct b.block_no 0) ≡ some old

  -- The block is on the device, and nothing else has changed.
  pub record WrittenBack (s : System Disk) (node : Inode) (i : ℕ) (s' : System Disk) : Type 0 where
    pub same_inodes : s'.files.fs.inode ≡ s.files.fs.inode
    pub bytes_stored :
        let b = s.buffer_cache i in
        file_bytes m.dev s'.files.fs.device node.disk (b.block_no * 512) 512 ≡ b.contents
    pub other_sectors :
        (r : ℕ)
        → (r ≡ get_or node.disk.direct (s.buffer_cache i).block_no 0)
          ⊎ (m.dev.block_read s'.files.fs.device r ≡ m.dev.block_read s.files.fs.device r)
    pub cleaned : (s'.buffer_cache i).dirty ≡ false
    pub other_blocks : (j : ℕ) → j ≢ i → s'.buffer_cache j ≡ s.buffer_cache j

  write_at-full :
      (fs : Fs Disk) (node : Inode) (old : List ℕ) (b : CacheBlock)
      → IsFull fs node old b
      → (d' : Disk) × (write_at m b.inode b.contents b.size (b.block_no * 512) fs
          ≡ some (512, record fs { device = d' }))
        × (file_bytes m.dev d' node.disk (b.block_no * 512) 512 ≡ b.contents)
        × ((r : ℕ)
            → (r ≡ get_or node.disk.direct b.block_no 0)
              ⊎ (m.dev.block_read d' r ≡ m.dev.block_read fs.device r))
  unfolding write_at
  write_at-full fs node old b f =
      let fits : ltb node.disk.length (b.block_no * 512 + 512) ≡ false = ground (arith, f.inside) in
      let (d', w, bytes, rest) =
        write_loop-file_bytes m.dev fs.device node.disk b.contents old (b.block_no * 512) b.block_no
          (omega arith) (omega arith) f.direct f.inside f.whole f.stored in
      (
        d',
        rw (deref-ok b.inode node fs f.points, f.allowed, f.full)
            (rw fits (rw (deref-ok b.inode node fs f.points) (rw w refl))),
        bytes,
        rest,
      )

  release-WrittenBack :
      (s : System Disk) (node : Inode) (i : ℕ) (t : System Disk)
      → (t.buffer_cache i).block_lock ≡ some m.cur
      → WrittenBack s node i t
      → Returns (λ r s'. (r ≡ true) × WrittenBack s node i s') ((release_block m i >> pure true) t)
  release-WrittenBack s node i t l w =
      let at = set_block_here t.buffer_cache i (unlocked (t.buffer_cache i)) in
      rw (release-ok m t i l) (
        refl,
        record {
          same_inodes = w.same_inodes;
          bytes_stored = w.bytes_stored;
          other_sectors = w.other_sectors;
          cleaned = ap (λ x. x.dirty) at ∙ w.cleaned;
          other_blocks = λ j ne. unfolded j ne ∙ w.other_blocks j ne;
        },
      )
    where
      unfolded :
          (j : ℕ)
          → j ≢ i
          → set_block t.buffer_cache i (unlocked (t.buffer_cache i)) j ≡ t.buffer_cache j
      unfolded j ne = ground arith

  -- A valid, dirty block of 512 bytes whose lock is open, of one of the first ten sectors of a file
  -- in which writes are not denied: cache_write_back() puts its bytes into the file on the device and
  -- leaves the block clean; no other sector and no other block changes.
  pub cache_write_back-WrittenBack :
      (s : System Disk) (node : Inode) (old : List ℕ) (i : ℕ)
      → IsFull s.files.fs node old (s.buffer_cache i)
      → Returns (λ r s'. (r ≡ true) × WrittenBack s node i s') (cache_write_back m i s)
  unfolding cache_write_back write_block
  cache_write_back-WrittenBack s node old i f =
      let b = s.buffer_cache i in
      let g = set_block s.buffer_cache i (locked_by m.cur b) in
      let at : g i ≡ locked_by m.cur b = set_block_here s.buffer_cache i _ in
      let (d', w, bytes, rest) = write_at-full s.files.fs node old b f in
      let saved = record s {
        files = record s.files { fs = record s.files.fs { device = d' } };
        buffer_cache = set_block g i (record (g i) { dirty = false });
      } in
      let lock : (saved.buffer_cache i).block_lock ≡ some m.cur =
        ap (λ x. x.block_lock) (set_block_here g i _) ∙ ap (λ x. x.block_lock) at in
      let to_do : (not b.valid || not b.dirty) ≡ false = ground (arith, f.valid, f.dirty) in
      rw (to_do, acquire-ok m s i f.lock)
        (rw (at, w)
          (release-WrittenBack s node i saved lock (record {
            same_inodes = refl;
            bytes_stored = bytes;
            other_sectors = rest;
            cleaned = ap (λ x. x.dirty) (set_block_here g i _);
            other_blocks = set_block_apart s.buffer_cache i _ _;
          })))

  write_back-clean :
      (s : System Disk) (i : ℕ)
      → to_write (s.buffer_cache i) ≡ false
      → cache_write_back m i s ≡ some (false, s)
  unfolding cache_write_back
  write_back-clean s i h =
      let nothing : (not (s.buffer_cache i).valid || not (s.buffer_cache i).dirty) ≡ true =
        ground (arith, h) in
      rw nothing refl

  write_back_from-clean :
      (inode n i : ℕ) (s : System Disk)
      → ((j : ℕ) → i ≤ j → j < i + n → to_write (s.buffer_cache j) ≡ false)
      → write_back_from m inode n i s ≡ some (tt, s)
  unfolding write_back_from
  write_back_from-clean inode zero i s h = refl
  write_back_from-clean inode (suc n) i s h =
      let c = write_back-clean s i (h i (omega arith) (omega arith)) in
      let rest =
        write_back_from-clean inode n (suc i) s (λ j l u. h j (omega arith) (omega arith)) in
      elim (Bool-cases ((s.buffer_cache i).inode == inode)) [
        | inl e ↦ rw (e, c, rest) refl
        | inr e ↦ rw (e, rest) refl
      ]

  write_back_from_here :
      (inode n i : ℕ) (s : System Disk) (node : Inode) (old : List ℕ)
      → (s.buffer_cache i).inode ≡ inode
      → IsFull s.files.fs node old (s.buffer_cache i)
      → ((j : ℕ) → i < j → j < i + suc n → to_write (s.buffer_cache j) ≡ false)
      → Returns (λ _ s'. WrittenBack s node i s') (write_back_from m inode (suc n) i s)
  unfolding write_back_from
  write_back_from_here inode n i s node old e f h =
      let same : ((s.buffer_cache i).inode == inode) ≡ true = (==_iff _ inode).1 e in
      rw same (
        Returns-bind _ (λ _ s'. WrittenBack s node i s') (cache_write_back m i s) _
          (cache_write_back-WrittenBack s node old i f)
          (λ r t (_, w).
            rw
              (write_back_from-clean inode n (suc i) t
                (λ j l u. rw (w.other_blocks j (omega arith)) (h j (omega arith) (omega arith))))
              w))

  -- The loop passes the clean blocks before the one that is to be written back, and those after it.
  pub write_back_from-WrittenBack :
      (inode n i k : ℕ) (s : System Disk) (node : Inode) (old : List ℕ)
      → i ≤ k
      → k < i + n
      → (s.buffer_cache k).inode ≡ inode
      → IsFull s.files.fs node old (s.buffer_cache k)
      → ((j : ℕ) → i ≤ j → j < i + n → j ≢ k → to_write (s.buffer_cache j) ≡ false)
      → Returns (λ _ s'. WrittenBack s node k s') (write_back_from m inode n i s)
  unfolding write_back_from
  write_back_from-WrittenBack inode zero i k s node old l u e f h = absurd (omega arith)
  write_back_from-WrittenBack inode (suc n) i k s node old l u e f h = elim (Bool-cases (i == k)) [
    | inl y ↦
        let at : k ≡ i = ground arith in
        rw at (
          write_back_from_here inode n i s node old (rw at at e) (rw at at f)
            (λ j a b. h j (omega arith) b (omega arith)))
    | inr y ↦ elim (Bool-cases ((s.buffer_cache i).inode == inode)) [
      | inl z ↦
          rw (z, write_back-clean s i (h i (omega arith) (omega arith) (apart i k y)))
            (write_back_from-WrittenBack inode n (suc i) k s node old (ground arith) (omega arith) e
              f (λ j a b ne. h j (omega arith) (omega arith) ne))
      | inr z ↦ rw z (
          write_back_from-WrittenBack inode n (suc i) k s node old (ground arith) (omega arith) e f
            (λ j a b ne. h j (omega arith) (omega arith) ne))
    ]
  ]
