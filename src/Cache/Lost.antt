-- ===== src/Cache/Lost.antt =====
-- cache_write_back() of filesys/filesys.c on a block that is not full: inode_write_at() of
-- filesys/inode.c writes no part of a sector.
use pintos.Prelude.{
  ◌==◌, ==_iff, Bool-cases, ℕ, ◌+◌, ◌*◌, ◌≤◌, ◌<◌, ◌≡◌, refl, ap, ◌∙◌, ◌⊎◌, inl, inr, true, false,
  not, ◌||◌, none, some, arith,
}
use pintos.Prelude.State.{Returns}
use pintos.Cache.{write_block, cache_write_back}
use pintos.Cache.Durable.{to_write}
use pintos.Cache.Load.{locked_by, unlocked, set_block_here, acquire-ok}
use pintos.Cache.Read.{release-ok}
use pintos.Inode.Read.{IsMapped}
use pintos.Inode.Table.{Inode}
use pintos.Inode.Table.Part.{write_at-part}
use pintos.Machine.{Machine}
use pintos.System.{System, set_block}

module _ {Disk : Type 0} (m : Machine Disk) where
  -- A dirty block of which less than a sector is in use, inside a file in which writes are not
  -- denied: cache_write_back() reports that it wrote the block and marks it clean, but no byte of it
  -- is on the device; the files and the other blocks are as before. The lock is open, and the file's
  -- bytes are mapped to readable sectors.
  pub cache_write_back-lost :
      (s : System Disk) (i : ℕ) (node : Inode)
      → (s.buffer_cache i).block_lock ≡ none
      → to_write (s.buffer_cache i) ≡ true
      → 0 < (s.buffer_cache i).size
      → (s.buffer_cache i).size < 512
      → (s.buffer_cache i).block_no * 512 + (s.buffer_cache i).size ≤ node.disk.length
      → s.files.fs.inode (s.buffer_cache i).inode ≡ some node
      → node.deny_write_cnt ≡ 0
      → IsMapped m.dev s.files.fs.device node.disk
      → Returns
          (λ r s'.
            (r ≡ true)
            × (s'.files ≡ s.files)
            × ((s'.buffer_cache i).dirty ≡ false)
            × ((s'.buffer_cache i).contents ≡ (s.buffer_cache i).contents)
            × ((j : ℕ) → (j ≡ i) ⊎ (s'.buffer_cache j ≡ s.buffer_cache j)))
          (cache_write_back m i s)
  unfolding cache_write_back write_block
  cache_write_back-lost s i node lock dirty l u k e z h =
      let b = s.buffer_cache i in
      let g = set_block s.buffer_cache i (locked_by m.cur b) in
      let at : g i ≡ locked_by m.cur b = set_block_here s.buffer_cache i _ in
      let f = set_block g i (record (g i) { dirty = false }) in
      let here : f i ≡ record (g i) { dirty = false } = set_block_here g i _ in
      let t = record s { buffer_cache = f } in
      let held : (t.buffer_cache i).block_lock ≡ some m.cur =
        ap (λ x. x.block_lock) here ∙ ap (λ x. x.block_lock) at in
      let to_do : (not b.valid || not b.dirty) ≡ false = ground (arith, dirty) in
      let nothing =
        write_at-part m s.files.fs b.inode node b.contents b.size (b.block_no * 512) e z h l u k in
      let last = set_block_here f i (unlocked (f i)) in
      rw (to_do, acquire-ok m s i lock)
        (rw (at, nothing)
          (rw (release-ok m t i held) (
            refl,
            refl,
            ap (λ x. x.dirty) last ∙ ap (λ x. x.dirty) here,
            ap (λ x. x.contents) last ∙ ap (λ x. x.contents) here ∙ ap (λ x. x.contents) at,
            λ j. elim (Bool-cases (j == i)) [
              | inl y ↦ inl ((==_iff j i).0 y)
              | inr y ↦ inr (rw y refl)
            ],
          )))
