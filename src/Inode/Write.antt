-- ===== src/Inode/Write.antt =====
-- inode_write_at() of filesys/inode.c.
use pintos.Prelude.{
  drop, ltb, ◌==◌, if◌then◌else◌, Bool-cases, Option-cases, ℕ, zero, suc, ◌+◌, ◌-◌, ◌%◌, ◌≤◌, ◌<◌,
  ◌≡◌, refl, ap, ◌∙◌, ◌≢◌, ◌⊎◌, inl, inr, false, Option, none, some, List, arith,
}
use pintos.Block.{block_sector_size, BlockDevice}
use pintos.Inode.{
  InodeDisk, chunk_size, count_bytes, with_inode, byte_to_sector, write_loop, inode_write_at,
  write_chunk, write_extended,
}
use pintos.Inode.Read.{IsMapped}

module _ {Disk : Type 0} (dev : BlockDevice Disk) where
  -- Without a bounce buffer, a round that goes on has written a whole sector.
  write_chunk_whole :
      (d d' : Disk) (buffer : List ℕ) (s ofs chunk : ℕ)
      → write_chunk dev d false buffer s ofs chunk ≡ some (some d')
      → (ofs ≡ 0) × (chunk ≡ 512)
  unfolding write_chunk
  write_chunk_whole d d' buffer s ofs chunk h = ground arith

  -- The bytes written are a number of whole sectors, and none unless the offset is that of a sector.
  unfoldable pub IsWhole : ℕ → Option (ℕ × Disk) → Type 0
  IsWhole offset none = Unit {0}
  IsWhole offset (some (n, d)) = (n % 512 ≡ 0) × ((offset % 512 ≡ 0) ⊎ (n ≡ 0))

  count_bytes-IsWhole :
      (offset : ℕ) (r : Option (ℕ × Disk))
      → offset % 512 ≡ 0
      → IsWhole (offset + 512) r
      → IsWhole offset (count_bytes 512 r)
  unfolding IsWhole
  count_bytes-IsWhole offset none e h = tt
  count_bytes-IsWhole offset (some (n, d)) e h = (omega arith, inl e)

  failure-IsWhole : (offset : ℕ) → IsWhole offset none
  unfolding IsWhole
  failure-IsWhole offset = tt

  nothing-IsWhole : (offset : ℕ) (d : Disk) → IsWhole offset (some (0, d))
  unfolding IsWhole
  nothing-IsWhole offset d = (refl, inr refl)

  pub write_loop-IsWhole :
      (fuel : ℕ) (d : Disk) (i : InodeDisk) (buffer : List ℕ) (size offset : ℕ)
      → IsWhole offset (write_loop dev fuel d i false buffer size offset)
  unfolding write_loop
  write_loop-IsWhole zero d i buffer size offset = nothing-IsWhole offset d
  write_loop-IsWhole (suc fuel) d i buffer size offset =
      let c = chunk_size i size offset in
      let o = offset % block_sector_size in
      elim (Bool-cases (size == 0)) [
        | inl done ↦ rw done (nothing-IsWhole offset d)
        | inr more ↦ elim (Option-cases (byte_to_sector dev d i offset)) [
          | inl e ↦ rw (more, e) (failure-IsWhole offset)
          | inr (s, e) ↦ elim (Option-cases (write_chunk dev d false buffer s o c)) [
            | inl f ↦ rw (more, e, f) (failure-IsWhole offset)
            | inr (r, f) ↦ elim (Option-cases r) [
              | inl g ↦ rw (more, e, f, g) (nothing-IsWhole offset d)
              | inr (d', g) ↦
                  let (z, w) = write_chunk_whole d d' buffer s o c (f ∙ ap some g) in
                  let ih = write_loop-IsWhole fuel d' i (drop c buffer) (size - c) (offset + c) in
                  rw (more, e, f, g) (rw w (count_bytes-IsWhole offset _ z (rw w at ih)))
            ]
          ]
        ]
      ]

  result-IsWhole :
      (r : Option (ℕ × Disk)) (d' : Disk) (i i' : InodeDisk) (n offset : ℕ)
      → with_inode i r ≡ some (n, d', i')
      → IsWhole offset r
      → (n % 512 ≡ 0) × ((offset % 512 ≡ 0) ⊎ (n ≡ 0))
  unfolding IsWhole
  result-IsWhole none d' i i' n offset h w = absurd (cc)
  result-IsWhole (some (m, d)) d' i i' n offset h w = let e : m ≡ n = ground arith in rw (← e) w

  extended-IsWhole :
      (x : Option (Disk × InodeDisk)) (d' : Disk) (i' : InodeDisk) (buffer : List ℕ)
      → (size offset n : ℕ) → write_extended dev buffer size offset x ≡ some (n, d', i')
      → (n % 512 ≡ 0) × ((offset % 512 ≡ 0) ⊎ (n ≡ 0))
  unfolding write_extended
  extended-IsWhole none d' i' buffer size offset n h = absurd (cc)
  extended-IsWhole (some (d, i)) d' i' buffer size offset n h =
      result-IsWhole (write_loop dev size d i false buffer size offset) d' i i' n offset h
        (write_loop-IsWhole size d i buffer size offset)

  part_chunk :
      (d : Disk) (buffer : List ℕ) (sector ofs chunk : ℕ)
      → chunk < 512
      → write_chunk dev d false buffer sector ofs chunk ≡ some none
  unfolding write_chunk
  part_chunk d buffer sector ofs chunk h = ground arith

  -- A write of less than a sector inside the file ends at once.
  pub part_loop :
      (fuel size : ℕ) (d : Disk) (i : InodeDisk) (buffer : List ℕ) (ofs : ℕ)
      → IsMapped dev d i
      → 0 < size
      → size < 512
      → ofs + size ≤ i.length
      → write_loop dev (suc fuel) d i false buffer size ofs ≡ some (0, d)
  unfolding write_loop
  part_loop fuel size d i buffer ofs mapped z l h =
      let at = mapped ofs (omega arith) in
      let more : (size == 0) ≡ false = ground arith in
      rw (more, at.maps)
        (rw (part_chunk d buffer at.sector (ofs % 512) (chunk_size i size ofs) (omega arith)) refl)

  -- inode_write_at() writes whole sectors only: the number of bytes that it reports is a multiple of
  -- 512, and it is zero unless the offset is that of a sector. This holds whatever file_extension()
  -- does.
  pub inode_write_at-IsWhole :
      (extend : Disk → InodeDisk → ℕ → ℕ → Option (Disk × InodeDisk))
      → (d d' : Disk) (i i' : InodeDisk) (deny : ℕ) (buffer : List ℕ) (size offset n : ℕ)
      → inode_write_at dev extend d i deny buffer size offset ≡ some (n, d', i')
      → (n % 512 ≡ 0) × ((offset % 512 ≡ 0) ⊎ (n ≡ 0))
  unfolding inode_write_at
  inode_write_at-IsWhole extend d d' i i' deny buffer size offset n h =
      elim (Bool-cases (deny == 0)) [
        | inl open_ ↦
            extended-IsWhole
              (if ltb i.length (offset + size) then extend d i size offset else some (d, i)) d' i'
              buffer size offset n (rw open_ at h)
        | inr denied ↦ let e : 0 ≡ n = ground arith in rw (← e) (refl, inr refl)
      ]

  -- While writes are denied inode_write_at() writes nothing.
  pub inode_write_at_denied :
      (extend : Disk → InodeDisk → ℕ → ℕ → Option (Disk × InodeDisk))
      → (d : Disk) (i : InodeDisk) (deny : ℕ) (buffer : List ℕ) (size offset : ℕ) → deny ≢ 0
      → inode_write_at dev extend d i deny buffer size offset ≡ some (0, d, i)
  unfolding inode_write_at
  inode_write_at_denied extend d i deny buffer size offset h = ground arith
