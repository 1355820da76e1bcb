-- ===== src/Cache/Saved.antt =====
-- From a write through the buffer cache of filesys/filesys.c to the device: file_write_at_user() of
-- filesys/file.c and then file_write_back().
use pintos.Prelude.{
  length, get_or, take, drop, take_all, ℕ, zero, suc, ◌+◌, ◌*◌, ◌/◌, ◌%◌, ◌≤◌, ◌<◌, ◌≡◌, refl, sym,
  ap, ◌∙◌, ◌≢◌, ◌⊎◌, true, false, some, List, [], ◌∷◌, arith,
}
use pintos.Prelude.State.{◌>>◌, Returns, Returns-bind, Returns-mono}
use pintos.Cache.{file_write_back}
use pintos.Cache.Coherent.{Coherent}
use pintos.Cache.Durable.{
  to_write, set_block_apart, IsFull, WrittenBack, write_back_from-WrittenBack,
}
use pintos.Cache.Filled.{overwritten, filled, no_more}
use pintos.Cache.Load.{unlocked, set_block_here, Held}
use pintos.Cache.User.{file_write_at_user}
use pintos.Cache.Write.{file_write_at_user_once}
use pintos.File.{File}
use pintos.Inode.Bytes.{file_bytes}
use pintos.Inode.Read.{IsMapped}
use pintos.Inode.Table.{Inode}
use pintos.Machine.{Machine}
use pintos.System.{CacheBlock, System, set_block}

nothing_left : (n : ℕ) (bs : List ℕ) → length bs ≤ n → drop n bs ≡ []
nothing_left zero [] h = refl
nothing_left zero (x ∷ bs) h = absurd (omega arith)
nothing_left (suc n) [] h = refl
nothing_left (suc n) (x ∷ bs) h = nothing_left n bs (omega arith)

-- A buffer of a whole sector replaces the block's bytes.
overwritten_whole :
    (b : CacheBlock) (buffer : List ℕ) (n ofs : ℕ)
    → ofs ≡ 0
    → n ≡ 512
    → length buffer ≡ 512
    → length b.contents ≡ 512
    → (overwritten n ofs buffer b).contents ≡ buffer
overwritten_whole b buffer n ofs z w l k =
    rw (z, w, nothing_left 512 b.contents (omega arith))
      (no_more (take 512 buffer) ∙ take_all buffer 512 l)

module _ {Disk : Type 0} (m : Machine Disk) where
  filled_block :
      (s t : System Disk) (inode i p : ℕ) (buffer : List ℕ)
      → Held m s inode (p / 512) i t
      → p % 512 ≡ 0
      → length buffer ≡ 512
      → let b = (filled i p buffer t).buffer_cache i in
        (b.inode ≡ inode) × (b.block_no ≡ p / 512) × (b.contents ≡ buffer)
  filled_block s t inode i p buffer r z l =
      let b = overwritten (length buffer) (p % 512) buffer (t.buffer_cache i) in
      let at : (filled i p buffer t).buffer_cache i ≡ unlocked b =
        set_block_here (set_block t.buffer_cache i b) i _
        ∙ ap unlocked (set_block_here t.buffer_cache i b) in
      let here = set_block_here t.buffer_cache i (unlocked (t.buffer_cache i)) in
      let whole : length (t.buffer_cache i).contents ≡ 512 =
        ap (λ x. length x.contents) (sym here) ∙ (r.coherent.clean i r.bound).whole in
      (
        ap (λ x. x.inode) at ∙ r.same_inode,
        ap (λ x. x.block_no) at ∙ r.same_block,
        ap (λ x. x.contents) at
            ∙ overwritten_whole (t.buffer_cache i) buffer (length buffer) (p % 512) z l l whole,
      )

  filled-IsFull :
      (s t : System Disk) (inode i p : ℕ) (node : Inode) (buffer old : List ℕ)
      → Held m s inode (p / 512) i t
      → p % 512 ≡ 0
      → length buffer ≡ 512
      → p / 512 < 10
      → p + 512 ≤ node.disk.length
      → node.deny_write_cnt ≡ 0
      → s.files.fs.inode inode ≡ some node
      → m.dev.block_read s.files.fs.device (get_or node.disk.direct (p / 512) 0) ≡ some old
      → IsFull m (filled i p buffer t).files.fs node old ((filled i p buffer t).buffer_cache i)
  filled-IsFull s t inode i p node buffer old r z l ten fits deny e stored =
      let b = overwritten (length buffer) (p % 512) buffer (t.buffer_cache i) in
      let at : (filled i p buffer t).buffer_cache i ≡ unlocked b =
        set_block_here (set_block t.buffer_cache i b) i _
        ∙ ap unlocked (set_block_here t.buffer_cache i b) in
      let k = r.coherent.clean i r.bound in
      let here = set_block_here t.buffer_cache i (unlocked (t.buffer_cache i)) in
      let whole : length (t.buffer_cache i).contents ≡ 512 =
        ap (λ x. length x.contents) (sym here) ∙ k.whole in
      let small : (t.buffer_cache i).size ≤ 512 = rw here at k.fits in
      rw at (record {
        lock = refl;
        valid = r.valid_block;
        dirty = refl;
        full = omega arith;
        whole =
            ap length
              (overwritten_whole (t.buffer_cache i) buffer (length buffer) (p % 512) z l l whole)
            ∙ l;
        points = rw (r.same_files, r.same_inode) e;
        allowed = deny;
        direct = rw r.same_block ten;
        inside = rw r.same_block (omega arith);
        stored = rw (r.same_files, r.same_block) stored;
      })

  rest_clean :
      (s t : System Disk) (inode k i p : ℕ) (buffer : List ℕ)
      → Held m s inode k i t
      → (j : ℕ) → j < 64
      → j ≢ i
      → to_write ((filled i p buffer t).buffer_cache j) ≡ false
  rest_clean s t inode k i p buffer r j l ne =
      let b = overwritten (length buffer) (p % 512) buffer (t.buffer_cache i) in
      let f = set_block t.buffer_cache i b in
      let c = (r.coherent.clean j l).not_dirty in
      let other : set_block t.buffer_cache i (unlocked (t.buffer_cache i)) j ≡ t.buffer_cache j =
        ground (arith, ne) in
      rw (set_block_apart t.buffer_cache i b (unlocked (f i)) j ne) (rw other at c)

  -- file_write_at_user() of a whole sector, and then file_write_back(): the file has the bytes on the
  -- device, and no other sector of the device has changed. The sector is one of the first ten of the
  -- file and inside it, writes are not denied, the cache is in order with nothing to be written back,
  -- and the file's bytes are mapped to readable sectors.
  pub file_write_back-file_write_at_user :
      (s : System Disk) (file : ℕ) (buffer old : List ℕ) (p : ℕ) (f : File) (node : Inode)
      → m.bounce ≡ true
      → length buffer ≡ 512
      → p % 512 ≡ 0
      → p / 512 < 10
      → p + 512 ≤ node.disk.length
      → node.deny_write_cnt ≡ 0
      → s.files.file file ≡ some f
      → s.files.fs.inode f.inode ≡ some node
      → m.dev.block_read s.files.fs.device (get_or node.disk.direct (p / 512) 0) ≡ some old
      → IsMapped m.dev s.files.fs.device node.disk
      → Coherent m.dev s.files.fs s.buffer_cache
      → s.buffer_iter < 64
      → Returns
          (λ _ s'.
            (file_bytes m.dev s'.files.fs.device node.disk p 512 ≡ buffer)
            × ((r : ℕ)
                → (r ≡ get_or node.disk.direct (p / 512) 0)
                  ⊎ (m.dev.block_read s'.files.fs.device r ≡ m.dev.block_read s.files.fs.device r)))
          ((file_write_at_user m (suc (length buffer)) file buffer (length buffer) p
              >> file_write_back m f.inode)
            s)
  unfolding file_write_back
  file_write_back-file_write_at_user s file buffer old p f node b l z ten fits deny q e stored h c
        t =
      Returns-bind
        (λ w s'. (w ≡ length buffer) × Returns (λ _ s''. Safe s'') (file_write_back m f.inode s')) _
        (file_write_at_user m (suc (length buffer)) file buffer (length buffer) p s) _
        (file_write_at_user_once m
          (λ s'. Returns (λ _ s''. Safe s'') (file_write_back m f.inode s')) s file buffer p f node
          b (omega arith) (omega arith) (omega arith) deny q e h c t (λ i t' r. back i t' r))
        (λ w s' (_, r). r)
    where
      Safe : System Disk → Type 0
      Safe s' =
          (file_bytes m.dev s'.files.fs.device node.disk p 512 ≡ buffer)
          × ((r : ℕ)
              → (r ≡ get_or node.disk.direct (p / 512) 0)
                ⊎ (m.dev.block_read s'.files.fs.device r ≡ m.dev.block_read s.files.fs.device r))

      back :
          (i : ℕ) (t : System Disk)
          → Held m s f.inode (p / 512) i t
          → Returns (λ _ s''. Safe s'') (file_write_back m f.inode (filled i p buffer t))
      back i t r =
          let u = filled i p buffer t in
          let full = filled-IsFull s t f.inode i p node buffer old r z l ten fits deny e stored in
          Returns-mono (λ _ s''. WrittenBack m u node i s'') _ (file_write_back m f.inode u)
            (write_back_from-WrittenBack m f.inode 64 0 i u node old (omega arith)
              (omega (arith, r.bound)) (filled_block s t f.inode i p buffer r z l).0 full
              (λ j a b ne. rest_clean s t f.inode (p / 512) i p buffer r j (omega arith) ne))
            (λ _ s'' w.
              let (_, n, c) = filled_block s t f.inode i p buffer r z l in
              let start : p / 512 * 512 ≡ p = omega arith in
              (rw (n, c, start) at w.bytes_stored, λ q. rw (n, r.same_files) at w.other_sectors q))
