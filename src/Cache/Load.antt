-- ===== src/Cache/Load.antt =====
-- find_cache_block(), load_inode_block() and evict_cache_block() of filesys/filesys.c while files are
-- only read.
use Prim.Native.Nat.{min}
use pintos.Prelude.{
  length, take, drop, length-append, length-drop, take-append, ◌==◌, ==_iff, Bool-cases, ℕ, zero,
  suc, ◌+◌, ◌-◌, ◌*◌, ◌≤◌, ◌<◌, ◌≡◌, refl, sym, ap, ◌∙◌, inl, inr, Bool, true, false, not, ◌||◌,
  none, some, List, ◌++◌, arith,
}
use pintos.Prelude.State.{Returns}
use pintos.Cache.{first_block, acquire_block, cache_write_back, evict_cache_block, use_free}
use pintos.Cache.Coherent.{part, Clean, Coherent, Unmarks-Coherent}
use pintos.Cache.Sweep.{Unmarks, sweep-Swept}
use pintos.Inode.Bytes.{file_bytes, length-file_bytes}
use pintos.Inode.Read.{IsMapped, inode_read_at-file_bytes}
use pintos.Inode.Table.{Inode, Fs}
use pintos.Inode.Table.Access.{read_at}
use pintos.Inode.Table.Inv.{deref-ok}
use pintos.Machine.{Machine}
use pintos.System.{CacheBlock, System, set_block}

abbrev pub locked_by : ℕ → CacheBlock → CacheBlock
locked_by h b = record b { block_lock = some h }

abbrev pub unlocked : CacheBlock → CacheBlock
unlocked b = record b { block_lock = none }

pub first_block-none :
    (test : CacheBlock → Bool) (f : ℕ → CacheBlock) (n i : ℕ)
    → first_block test f n i ≡ none
    → (j : ℕ) → i ≤ j
    → j < i + n
    → test (f j) ≡ false
unfolding first_block
first_block-none test f zero i h j l u = absurd (omega arith)
first_block-none test f (suc n) i h j l u = elim (Bool-cases (j == i)) [
  | inl e ↦ let e' : j ≡ i = (==_iff j i).0 e in rw e' (ground arith)
  | inr e ↦ first_block-none test f n (suc i) (ground arith) j (ground arith) (omega arith)
]

pub first_block-some :
    (test : CacheBlock → Bool) (f : ℕ → CacheBlock) (n i k : ℕ)
    → first_block test f n i ≡ some k
    → (test (f k) ≡ true) × (k < i + n)
unfolding first_block
first_block-some test f zero i k h = absurd (ground arith)
first_block-some test f (suc n) i k h = elim (Bool-cases (test (f i))) [
  | inl e ↦ let e' : i ≡ k = ground arith in (rw (← e') e, omega arith)
  | inr e ↦ let (t, l) = first_block-some test f n (suc i) k (ground arith) in (t, omega arith)
]

pub set_block_here : (f : ℕ → CacheBlock) (i : ℕ) (b : CacheBlock) → set_block f i b i ≡ b
set_block_here f i b = ground arith

-- The last store counts.
pub set_block_twice :
    (f : ℕ → CacheBlock) (i : ℕ) (b : CacheBlock) (h : CacheBlock → CacheBlock) (j : ℕ)
    → set_block (set_block f i b) i (h (set_block f i b i)) j ≡ set_block f i (h b) j
set_block_twice f i b h j = ground arith

module _ {Disk : Type 0} (m : Machine Disk) where
  -- Block `i` has been taken for a new key: it is locked, and the others are in order.
  pub record Room (s : System Disk) (i : ℕ) (s' : System Disk) : Type 0 where
    pub bound : i < 64
    pub same_files : s'.files ≡ s.files
    pub iter : s'.buffer_iter < 64
    pub rest : ℕ → CacheBlock
    pub coherent : Coherent m.dev s.files.fs rest
    pub old : (j : ℕ) → Unmarks (s.buffer_cache j) (rest j)
    pub taken : CacheBlock
    pub cache : (j : ℕ) → s'.buffer_cache j ≡ set_block rest i taken j
    pub lock : taken.block_lock ≡ some m.cur
    pub whole : length taken.contents ≡ 512

  -- Block `i` is locked and has the key; without the lock all blocks are in order.
  pub record Held (s : System Disk) (inode block_no : ℕ) (i : ℕ) (s' : System Disk) : Type 0 where
    pub bound : i < 64
    pub same_files : s'.files ≡ s.files
    pub iter : s'.buffer_iter < 64
    pub lock : (s'.buffer_cache i).block_lock ≡ some m.cur
    pub valid_block : (s'.buffer_cache i).valid ≡ true
    pub same_inode : (s'.buffer_cache i).inode ≡ inode
    pub same_block : (s'.buffer_cache i).block_no ≡ block_no
    pub coherent :
        Coherent m.dev s.files.fs (set_block s'.buffer_cache i (unlocked (s'.buffer_cache i)))

  pub acquire-ok :
      (s : System Disk) (i : ℕ)
      → (s.buffer_cache i).block_lock ≡ none
      → acquire_block m i s
        ≡ some (
          tt,
          record s {
            buffer_cache = set_block s.buffer_cache i (locked_by m.cur (s.buffer_cache i));
          },
        )
  unfolding acquire_block
  acquire-ok s i h = rw (h, acquire_block) refl

  pub evict-Room :
      (s : System Disk)
      → Coherent m.dev s.files.fs s.buffer_cache
      → s.buffer_iter < 64
      → Returns (λ i s'. Room s i s') (evict_cache_block m s)
  unfolding evict_cache_block cache_write_back
  evict-Room s c l =
      let (i, (g, e, w)) = sweep-Swept s.buffer_cache s.buffer_iter l in
      let c' = Unmarks-Coherent m.dev s.files.fs s.buffer_cache g w.others c in
      let k = c'.clean i w.bound in
      let t : (not (g i).valid || not (g i).dirty) ≡ true = ground (arith, k.not_dirty) in
      let s1 = record s { buffer_cache = g; buffer_iter = i } in
      rw e (
        rw t (
          rw (acquire-ok s1 i k.unlocked) (record {
            bound = w.bound;
            same_files = refl;
            iter = omega arith;
            rest = g;
            coherent = c';
            old = w.others;
            taken = record (g i) { block_lock = some m.cur; valid = false };
            cache = λ j.
                set_block_twice g i (locked_by m.cur (g i)) (λ b. record b { valid = false }) j;
            lock = refl;
            whole = k.whole;
          })))

  pub free-Room :
      (s : System Disk) (i : ℕ)
      → Coherent m.dev s.files.fs s.buffer_cache
      → s.buffer_iter < 64
      → i < 64
      → Returns (λ i s'. Room s i s') (use_free m (some i) s)
  free-Room s i c l h =
      let k = c.clean i h in
      rw (acquire-ok s i k.unlocked) (record {
        bound = h;
        same_files = refl;
        iter = l;
        rest = s.buffer_cache;
        coherent = c;
        old = λ j. inl refl;
        taken = locked_by m.cur (s.buffer_cache i);
        cache = λ j. refl;
        lock = refl;
        whole = k.whole;
      })

  pub read_at-file_bytes :
      (fs : Fs Disk) (p size offset : ℕ) (node : Inode)
      → m.bounce ≡ true
      → fs.inode p ≡ some node
      → IsMapped m.dev fs.device node.disk
      → read_at m p size offset fs
        ≡ some
            (file_bytes m.dev fs.device node.disk offset (min size (node.disk.length - offset)), fs)
  unfolding read_at
  read_at-file_bytes fs p size offset node b e h =
      rw (deref-ok p node fs e)
        (rw b (rw (inode_read_at-file_bytes m.dev fs.device node.disk size offset h) refl))

  -- What load_inode_block() makes of a block, once its lock is open again.
  module _ (s : System Disk) (inode block_no : ℕ) (node : Inode) where
    abbrev pub bytes_read : List ℕ
    bytes_read =
        file_bytes m.dev s.files.fs.device node.disk (block_no * 512)
          (part node.disk.length block_no)

    abbrev pub loaded : CacheBlock → CacheBlock
    loaded b = record b {
      contents = bytes_read ++ drop (length bytes_read) b.contents;
      dirty = false;
      accessed = false;
      inode = inode;
      block_no = block_no;
      valid = true;
      size = 0;
    }

    pub loaded-Clean :
        (b : CacheBlock)
        → s.files.fs.inode inode ≡ some node
        → length b.contents ≡ 512
        → Clean m.dev s.files.fs (unlocked (loaded b))
    loaded-Clean b e l =
        let n : length bytes_read ≡ part node.disk.length block_no =
          length-file_bytes m.dev s.files.fs.device node.disk (block_no * 512)
            (part node.disk.length block_no) in
        record {
          unlocked = refl;
          not_dirty = refl;
          whole = omega (
            arith,
            length-append bytes_read (drop (length bytes_read) b.contents),
            length-drop (length bytes_read) b.contents,
          );
          fits = omega arith;
          stored = λ v. record {
            node = node;
            points = e;
            bytes_held =
                ap (λ k. take k (bytes_read ++ drop (length bytes_read) b.contents)) (sym n)
                ∙ take-append bytes_read (drop (length bytes_read) b.contents);
          };
        }
