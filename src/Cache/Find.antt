-- ===== src/Cache/Find.antt =====
-- The block that find_cache_block() of filesys/filesys.c gives while files are only read.
use pintos.Prelude.{
  length, drop, ◌==◌, ==_iff, Bool-cases, ℕ, ◌*◌, ◌/◌, ◌<◌, ◌≡◌, refl, sym, ap, ◌∙◌, inl, inr, true,
  false, not, Option, none, some, List, ◌++◌, arith,
}
use pintos.Prelude.State.{and_then, Returns, Returns-bind}
use pintos.Cache.{
  first_block, holds_key, use_free, load_into, load_inode_block, use_found, find_cache_block,
}
use pintos.Cache.Coherent.{SameKey, Coherent, Coherent-ext, Coherent-set}
use pintos.Cache.Load.{
  locked_by, unlocked, first_block-none, first_block-some, set_block_here, set_block_twice, Room,
  Held, acquire-ok, evict-Room, free-Room, read_at-file_bytes, bytes_read, loaded, loaded-Clean,
}
use pintos.Cache.Sweep.{Unmarks}
use pintos.Inode.Read.{IsMapped}
use pintos.Inode.Table.{Inode}
use pintos.Machine.{Machine}
use pintos.System.{CacheBlock, System, set_block}

module _ {Disk : Type 0} (m : Machine Disk) where
  -- No valid block has the key.
  NoKey : ℕ → ℕ → (ℕ → CacheBlock) → Type 0
  NoKey inode block_no f = (j : ℕ) → j < 64 → holds_key inode block_no (f j) ≡ false

  unmark_key :
      (inode block_no : ℕ) (b c : CacheBlock)
      → Unmarks b c
      → holds_key inode block_no b ≡ false
      → holds_key inode block_no c ≡ false
  unmark_key inode block_no b c (inl e) h = rw e h
  unmark_key inode block_no b c (inr e) h = rw e h

  other_key :
      (inode block_no : ℕ) (b c : CacheBlock)
      → b.inode ≡ inode
      → b.block_no ≡ block_no
      → holds_key inode block_no c ≡ false
      → ¬ SameKey b c
  other_key inode block_no b c e n h (v, w, i, k) = ground arith

  set_block_same :
      (f : ℕ → CacheBlock) (i : ℕ) (b : CacheBlock) → b ≡ f i → (j : ℕ) → set_block f i b j ≡ f j
  set_block_same f i b e j = elim (Bool-cases (j == i)) [
    | inl y ↦ rw y (e ∙ ap f (sym ((==_iff j i).0 y)))
    | inr y ↦ rw y refl
  ]

  -- The key of a new block, and its bytes.
  abbrev keyed : ℕ → ℕ → CacheBlock → CacheBlock
  keyed inode block_no b = record b {
    dirty = false;
    accessed = false;
    inode = inode;
    block_no = block_no;
  }

  abbrev filled : List ℕ → CacheBlock → CacheBlock
  filled bs b = record b { contents = bs ++ drop (length bs) b.contents; size = 0; valid = true }

  load_into-ok :
      (s : System Disk) (inode block_no i : ℕ) (node : Inode)
      → m.bounce ≡ true
      → s.files.fs.inode inode ≡ some node
      → IsMapped m.dev s.files.fs.device node.disk
      → let f = set_block s.buffer_cache i (keyed inode block_no (s.buffer_cache i)) in
        load_into m inode block_no i s
        ≡ some (
          i,
          record s {
            buffer_cache = set_block f i (filled (bytes_read m s inode block_no node) (f i));
          },
        )
  unfolding load_into
  load_into-ok s inode block_no i node b e h =
      rw (read_at-file_bytes m s.files.fs inode 512 (block_no * 512) node b e h) refl

  -- The block that has been loaded, its lock aside.
  loaded_twice :
      (s : System Disk) (inode block_no i : ℕ) (node : Inode) (j : ℕ)
      → let f = set_block s.buffer_cache i (keyed inode block_no (s.buffer_cache i)) in
        set_block f i (filled (bytes_read m s inode block_no node) (f i)) j
        ≡ set_block s.buffer_cache i (loaded m s inode block_no node (s.buffer_cache i)) j
  loaded_twice s inode block_no i node j =
      set_block_twice s.buffer_cache i (keyed inode block_no (s.buffer_cache i))
        (filled (bytes_read m s inode block_no node)) j

  Held-loaded :
      (s : System Disk) (inode block_no i : ℕ) (node : Inode) (s' : System Disk)
      → s.files.fs.inode inode ≡ some node
      → NoKey inode block_no s.buffer_cache
      → (r : Room m s i s') → (g : ℕ → CacheBlock)
      → ((j : ℕ)
          → g j
            ≡ set_block s'.buffer_cache i (loaded m s inode block_no node (s'.buffer_cache i)) j)
      → Held m s inode block_no i (record s' { buffer_cache = g })
  unfolding NoKey
  Held-loaded s inode block_no i node s' e n r g h =
      let at : s'.buffer_cache i ≡ r.taken = r.cache i ∙ set_block_here r.rest i r.taken in
      let b = loaded m s inode block_no node (s'.buffer_cache i) in
      let gi : g i ≡ b = h i ∙ set_block_here s'.buffer_cache i b in
      let k =
        loaded-Clean m s inode block_no node (s'.buffer_cache i) e
          (ap (λ x. length x.contents) at ∙ r.whole) in
      record {
        bound = r.bound;
        same_files = r.same_files;
        iter = r.iter;
        lock = ap (λ x. x.block_lock) gi ∙ ap (λ x. x.block_lock) at ∙ r.lock;
        valid_block = ap (λ x. x.valid) gi;
        same_inode = ap (λ x. x.inode) gi;
        same_block = ap (λ x. x.block_no) gi;
        coherent =
            Coherent-ext m.dev s.files.fs (set_block r.rest i (unlocked b)) _ (λ j. without j)
              (Coherent-set m.dev s.files.fs r.rest i (unlocked b) r.coherent k (λ j l ne.
                other_key inode block_no (unlocked b) (r.rest j) refl refl
                  (unmark_key inode block_no (s.buffer_cache j) (r.rest j) (r.old j) (n j l))));
      }
    where
      without :
          (j : ℕ)
          → set_block g i (unlocked (g i)) j
            ≡ set_block r.rest i (unlocked (loaded m s inode block_no node (s'.buffer_cache i))) j
      without j = elim (Bool-cases (j == i)) [
        | inl y ↦ rw y (ap unlocked (h i ∙ set_block_here s'.buffer_cache i _))
        | inr y ↦ rw y (h j ∙ rw y (r.cache j ∙ rw y refl))
      ]

  module _ (s : System Disk) (inode p : ℕ) (node : Inode) where
    load_into-Held :
        (i : ℕ) (s' : System Disk)
        → m.bounce ≡ true
        → s.files.fs.inode inode ≡ some node
        → IsMapped m.dev s.files.fs.device node.disk
        → NoKey inode (p / 512) s.buffer_cache
        → Room m s i s'
        → Returns (λ i s''. Held m s inode (p / 512) i s'') (load_into m inode (p / 512) i s')
    load_into-Held i s' b e h n r =
        let same = r.same_files in
        rw (load_into-ok s' inode (p / 512) i node b (rw same e) (rw same h)) (
          Held-loaded s inode (p / 512) i node s' e n r _ (λ j.
            loaded_twice s' inode (p / 512) i node j
            ∙ ap
                (λ f.
                  set_block s'.buffer_cache i
                    (loaded m (record s { files = f }) inode (p / 512) node (s'.buffer_cache i)) j)
                same))

    hit-Held :
        (i : ℕ)
        → Coherent m.dev s.files.fs s.buffer_cache
        → s.buffer_iter < 64
        → i < 64
        → holds_key inode (p / 512) (s.buffer_cache i) ≡ true
        → Returns (λ i s'. Held m s inode (p / 512) i s') (use_found m inode p (some i) s)
    hit-Held i c l h k =
        let u = (c.clean i h).unlocked in
        let f = s.buffer_cache in
        let at = set_block_here f i (locked_by m.cur (f i)) in
        rw (acquire-ok m s i u) (record {
          bound = h;
          same_files = refl;
          iter = l;
          lock = ap (λ x. x.block_lock) at;
          valid_block = ap (λ x. x.valid) at ∙ ground arith;
          same_inode = ap (λ x. x.inode) at ∙ ground arith;
          same_block = ap (λ x. x.block_no) at ∙ ground arith;
          coherent =
              Coherent-ext m.dev s.files.fs f _
                (λ j.
                  set_block_twice f i (locked_by m.cur (f i)) unlocked j
                  ∙ set_block_same f i (unlocked (locked_by m.cur (f i)))
                      (ap (λ k. record (f i) { block_lock = k }) (sym u)) j)
                c;
        })

    -- While files are only read find_cache_block() always returns: with a valid block of the inode and
    -- of the position's sector, whose lock the thread holds. When the lock is released all blocks are in
    -- order again: no two of them have the same inode and sector, and each holds the bytes of its file.
    pub find_cache_block-Held :
        m.bounce ≡ true
        → s.files.fs.inode inode ≡ some node
        → IsMapped m.dev s.files.fs.device node.disk
        → Coherent m.dev s.files.fs s.buffer_cache
        → s.buffer_iter < 64
        → Returns (λ i s'. Held m s inode (p / 512) i s') (find_cache_block m inode p s)
    unfolding find_cache_block load_inode_block NoKey
    find_cache_block-Held b e h c l =
        by_hit (first_block (holds_key inode (p / 512)) s.buffer_cache 64 0) refl
      where
        miss :
            NoKey inode (p / 512) s.buffer_cache
            → Returns (λ i s'. Held m s inode (p / 512) i s') (load_inode_block m inode p s)
        miss n = by_free (first_block (λ b. not b.valid) s.buffer_cache 64 0) refl
          where
            by_free :
                (r : Option ℕ)
                → first_block (λ b. not b.valid) s.buffer_cache 64 0 ≡ r
                → Returns
                    (λ i s'. Held m s inode (p / 512) i s')
                    (and_then (use_free m r s) (λ i. load_into m inode (p / 512) i))
            by_free none q =
                Returns-bind (λ i s'. Room m s i s') _ (use_free m none s) _ (evict-Room m s c l)
                  (λ i s'. load_into-Held i s' b e h n)
            by_free (some i) q =
                Returns-bind (λ i s'. Room m s i s') _ (use_free m (some i) s) _
                  (free-Room m s i c l
                    (omega (arith, (first_block-some _ s.buffer_cache 64 0 i q).1)))
                  (λ i s'. load_into-Held i s' b e h n)

        by_hit :
            (r : Option ℕ)
            → first_block (holds_key inode (p / 512)) s.buffer_cache 64 0 ≡ r
            → Returns (λ i s'. Held m s inode (p / 512) i s') (use_found m inode p r s)
        by_hit none q =
            miss (λ j k. first_block-none _ s.buffer_cache 64 0 q j (omega arith) (omega arith))
        by_hit (some i) q =
            let (k, n) = first_block-some _ s.buffer_cache 64 0 i q in
            hit-Held i c l (omega arith) k
