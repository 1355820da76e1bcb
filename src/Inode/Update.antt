-- ===== src/Inode/Update.antt =====
-- inode_write_at() of filesys/inode.c on a whole sector of a file, and reading it back.
use pintos.Prelude.{
  length, get_or, take, drop, take_all, ltb, ◌==◌, ==_iff, Bool-cases, apart, ℕ, zero, suc, ◌+◌,
  ◌/◌, ◌%◌, ◌≤◌, ◌<◌, ◌≡◌, refl, sym, ◌∙◌, ◌⊎◌, inl, inr, true, false, Option, some, List, arith,
}
use pintos.Block.{BlockDevice}
use pintos.Block.Words.{bytes}
use pintos.Inode.{
  InodeDisk, chunk_size, byte_to_sector, write_loop, inode_write_at, write_chunk, write_extended,
}
use pintos.Inode.Bytes.{file_bytes, chunk-file_bytes}

module _ {Disk : Type 0} (dev : BlockDevice Disk) where
  -- The blocks of the inode itself do not depend on the device.
  direct_sector :
      (d : Disk) (i : InodeDisk) (p k : ℕ)
      → p / 512 ≡ k
      → k < 10
      → byte_to_sector dev d i p ≡ some (get_or i.direct k 0)
  unfolding byte_to_sector
  direct_sector d i p k q h = let e : ltb k 10 ≡ true = ground arith in rw (q, e) refl

  loop_ends :
      (fuel : ℕ) (d : Disk) (i : InodeDisk) (buffer : List ℕ) (offset : ℕ)
      → write_loop dev fuel d i false buffer 0 offset ≡ some (0, d)
  unfolding write_loop
  loop_ends zero d i buffer offset = refl
  loop_ends (suc fuel) d i buffer offset = refl

  one_round :
      (fuel : ℕ) (d d' : Disk) (i : InodeDisk) (buffer : List ℕ) (offset s : ℕ)
      → offset % 512 ≡ 0
      → offset + 512 ≤ i.length
      → length buffer ≡ 512
      → byte_to_sector dev d i offset ≡ some s
      → dev.block_write d s buffer ≡ some d'
      → write_loop dev (suc fuel) d i false buffer 512 offset ≡ some (512, d')
  unfolding write_loop write_chunk
  one_round fuel d d' i buffer offset s z l b e w =
      let c : chunk_size i 512 offset ≡ 512 = omega arith in
      let t : take 512 buffer ≡ buffer = take_all buffer 512 b in
      rw (e, c, z)
        (rw (t, w) (rw c (rw (loop_ends fuel d' i (drop 512 buffer) (offset + 512)) refl)))

  -- The loop on a whole sector: the bytes are then those of the file, and nothing else has changed.
  pub write_loop-file_bytes :
      (d : Disk) (i : InodeDisk) (buffer old : List ℕ) (offset k : ℕ)
      → offset % 512 ≡ 0
      → offset / 512 ≡ k
      → k < 10
      → offset + 512 ≤ i.length
      → length buffer ≡ 512
      → dev.block_read d (get_or i.direct k 0) ≡ some old
      → (d' : Disk) × (write_loop dev 512 d i false buffer 512 offset ≡ some (512, d'))
        × (file_bytes dev d' i offset 512 ≡ buffer)
        × ((r : ℕ) → (r ≡ get_or i.direct k 0) ⊎ (dev.block_read d' r ≡ dev.block_read d r))
  write_loop-file_bytes d i buffer old offset k z q h l b e =
      let s = get_or i.direct k 0 in
      let (d', w) = dev.writable d s old buffer e in
      let whole =
        chunk-file_bytes dev d' i s buffer 512 offset (direct_sector d' i offset k q h)
          (dev.write_same d d' s buffer b w) (omega arith) in
      (
        d',
        one_round 511 d d' i buffer offset s z l b (direct_sector d i offset k q h) w,
        sym whole ∙ rw z (take_all buffer 512 b),
        λ r. elim (Bool-cases (r == s)) [
          | inl y ↦ inl ((==_iff r s).0 y)
          | inr y ↦ inr (dev.write_other d d' s r buffer (apart r s y) w)
        ],
      )

  -- While writes are not denied, a write of 512 bytes at the start of one of the first ten sectors of
  -- the file, inside its length, on a sector that the device can read, succeeds: the file then has
  -- these bytes there, and no other sector of the device has changed.
  pub inode_write_at-file_bytes :
      (extend : Disk → InodeDisk → ℕ → ℕ → Option (Disk × InodeDisk))
      → (d : Disk) (i : InodeDisk) (buffer old : List ℕ) (offset : ℕ) → offset % 512 ≡ 0
      → offset / 512 < 10
      → offset + 512 ≤ i.length
      → length buffer ≡ 512
      → dev.block_read d (get_or i.direct (offset / 512) 0) ≡ some old
      → (d' : Disk) × (inode_write_at dev extend d i 0 buffer 512 offset ≡ some (512, d', i))
        × (file_bytes dev d' i offset 512 ≡ buffer)
        × ((r : ℕ)
            → (r ≡ get_or i.direct (offset / 512) 0) ⊎ (dev.block_read d' r ≡ dev.block_read d r))
  unfolding inode_write_at write_extended
  inode_write_at-file_bytes extend d i buffer old offset z h l b e =
      let fits : ltb i.length (offset + 512) ≡ false = ground arith in
      let (d', w, bytes, rest) =
        write_loop-file_bytes d i buffer old offset (offset / 512) z refl h l b e in
      (d', rw fits (rw w refl), bytes, rest)
