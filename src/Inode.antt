-- ===== src/Inode.antt =====
-- The inodes of filesys/inode.c: the inode of the disk and of memory, the sector of a byte, and the
-- loops that read and write. `off_t` values are natural numbers, offsets and sizes that are not
-- negative and whose sum fits an `int`.
pub mod Bytes
pub mod Index
pub mod Read
pub mod Write
pub mod Update
pub mod Table
use Prim.Native.Nat.{min}
use mathlib.Core.Option
use pintos.Prelude.{
  get_or, take, drop, replicate, ltb, ◌==◌, if◌then◌else◌, ℕ, zero, suc, ◌+◌, ◌-◌, ◌*◌, ◌/◌, ◌%◌,
  Bool, false, not, ◌&&◌, Option, none, some, List, [], ◌∷◌, ◌++◌, map,
}
use pintos.Block.{block_sector_size, BlockDevice}
use pintos.Block.Words.{words}

-- The value -1 of an unsigned 32-bit sector number.
abbrev pub no_sector : ℕ
no_sector = 4294967295

abbrev pub inode_magic : ℕ
inode_magic = 0x494e4f44

pub record InodeDisk : Type 0 where
  pub direct : List ℕ
  pub single_level : ℕ
  pub double_level : ℕ
  pub length : ℕ
  pub magic : ℕ
  pub unused : List ℕ

-- The 128 words of the structure.
unfoldable pub disk_words : InodeDisk → List ℕ
disk_words i = i.direct ++ (i.single_level ∷ i.double_level ∷ i.length ∷ i.magic ∷ i.unused)

unfoldable pub of_words : List ℕ → InodeDisk
of_words ws = record {
  direct = take 10 ws;
  single_level = get_or ws 10 0;
  double_level = get_or ws 11 0;
  length = get_or ws 12 0;
  magic = get_or ws 13 0;
  unused = drop 14 ws;
}

unfoldable pub bytes_to_sectors : ℕ → ℕ
bytes_to_sectors size = (size + block_sector_size - 1) / block_sector_size

-- The bytes that one round of a loop handles: up to the end of the request, of the file and of
-- the sector. Nothing is left where the offset is not below the length.
abbrev pub chunk_size : InodeDisk → ℕ → ℕ → ℕ
chunk_size i size offset =
    min size (min (i.length - offset) (block_sector_size - offset % block_sector_size))

abbrev pub prepend : List ℕ → Option (List ℕ) → Option (List ℕ)
prepend bs none = none
prepend bs (some cs) = some (bs ++ cs)

abbrev pub count_bytes : {Disk : Type 0} → ℕ → Option (ℕ × Disk) → Option (ℕ × Disk)
count_bytes n none = none
count_bytes n (some (m, d)) = some (n + m, d)

abbrev pub with_inode :
    {Disk : Type 0} → InodeDisk → Option (ℕ × Disk) → Option (ℕ × Disk × InodeDisk)
with_inode i none = none
with_inode i (some (n, d)) = some (n, d, i)

module _ {Disk : Type 0} (dev : BlockDevice Disk) where
  -- The entry `i` of the index block in sector `s`.
  index_entry : Disk → ℕ → ℕ → Option ℕ
  index_entry d s i = elim (dev.block_read d s) [
    | none ↦ none
    | some b ↦ some (get_or (words b) i 0)
  ]

  double_entry : Option ℕ → Disk → ℕ → Option ℕ
  double_entry none d i = none
  double_entry (some s) d i = index_entry d s i

  -- By the number of the block in the file.
  sector_at : Disk → InodeDisk → ℕ → Option ℕ
  sector_at d i quotient =
      if ltb quotient 10
      then some (get_or i.direct quotient 0)
      else if ltb (quotient - 10) 128
      then index_entry d i.single_level (quotient - 10)
      else if ltb (quotient - 138) (128 * 128)
      then double_entry (index_entry d i.double_level ((quotient - 138) / 128)) d
          ((quotient - 138) % 128)
      else some no_sector

  unfoldable pub byte_to_sector : Disk → InodeDisk → ℕ → Option ℕ
  unfolding sector_at index_entry double_entry
  byte_to_sector d i p = sector_at d i (p / block_sector_size)

  -- What a round copies to the buffer. `bounce` says whether malloc() gives the bounce buffer; no
  -- bytes mean that the loop ends.
  read_chunk : Disk → Bool → ℕ → ℕ → ℕ → Option (List ℕ)
  read_chunk d bounce sector_idx sector_ofs chunk =
      if ltb 0 chunk
      then (if (sector_ofs == 0) && (chunk == block_sector_size)
          then dev.block_read d sector_idx
          else if bounce
          then Option.map (λ b. take chunk (drop sector_ofs b)) (dev.block_read d sector_idx)
          else some [])
      else some []

  -- The loop of inode_read_at(), on fuel for its rounds. The result is what it puts into the buffer.
  read_loop : ℕ → Disk → InodeDisk → Bool → ℕ → ℕ → Option (List ℕ)
  read_loop zero d i bounce size offset = some []
  read_loop (suc fuel) d i bounce size offset =
      let chunk = chunk_size i size offset in
      let rest = read_loop fuel d i bounce (size - chunk) (offset + chunk) in
      if size == 0 then some [] else elim (byte_to_sector d i offset) [
        | none ↦ none
        | some s ↦ elim (read_chunk d bounce s (offset % block_sector_size) chunk) [
          | none ↦ none
          | some [] ↦ some []
          | some (x ∷ xs) ↦ prepend (x ∷ xs) rest
        ]
      ]

  -- A request beyond the end is cut; one that starts beyond it reads nothing.
  unfoldable pub inode_read_at : Disk → InodeDisk → Bool → ℕ → ℕ → Option (List ℕ)
  unfolding read_loop read_chunk
  inode_read_at d i bounce size offset =
      if ltb i.length (offset + size)
      then (if ltb i.length offset
          then some []
          else read_loop (i.length - offset) d i bounce (i.length - offset) offset)
      else read_loop size d i bounce size offset

  -- A sector with `n` bytes of the buffer at `ofs`.
  splice : List ℕ → ℕ → ℕ → List ℕ → List ℕ
  splice b ofs n new = take ofs b ++ (take n new ++ drop (ofs + n) b)

  -- `bounce` says whether the pointer is set: the source compares it with what malloc() returns,
  -- where it means to assign. `some none` ends the loop.
  write_chunk : Disk → Bool → List ℕ → ℕ → ℕ → ℕ → Option (Option Disk)
  write_chunk d bounce buffer sector_idx sector_ofs chunk =
      if not (ltb 0 chunk)
      then some none
      else if (sector_ofs == 0) && (chunk == block_sector_size)
      then Option.map some (dev.block_write d sector_idx (take chunk buffer))
      else if not bounce
      then some none
      else elim (if ltb 0 sector_ofs && ltb chunk (block_sector_size - sector_ofs)
          then dev.block_read d sector_idx
          else some (replicate block_sector_size 0)) [
            | none ↦ none
            | some b ↦
                Option.map some (dev.block_write d sector_idx (splice b sector_ofs chunk buffer))
          ]

  -- The number of bytes written, and the device; on fuel for the rounds.
  pub write_loop : ℕ → Disk → InodeDisk → Bool → List ℕ → ℕ → ℕ → Option (ℕ × Disk)
  write_loop zero d i bounce buffer size offset = some (0, d)
  write_loop (suc fuel) d i bounce buffer size offset =
      let chunk = chunk_size i size offset in
      if size == 0 then some (0, d) else elim (byte_to_sector d i offset) [
        | none ↦ none
        | some s ↦ elim (write_chunk d bounce buffer s (offset % block_sector_size) chunk) [
          | none ↦ none
          | some none ↦ some (0, d)
          | some (some d') ↦
              count_bytes chunk
                (write_loop fuel d' i bounce (drop chunk buffer) (size - chunk) (offset + chunk))
        ]
      ]

  write_extended : List ℕ → ℕ → ℕ → Option (Disk × InodeDisk) → Option (ℕ × Disk × InodeDisk)
  write_extended buffer size offset none = none
  write_extended buffer size offset (some (d, i)) =
      with_inode i (write_loop size d i false buffer size offset)

  -- `extend` is file_extension(), which gives the device and the inode with room for the bytes; the
  -- inode of memory is part of the result. A denied write writes nothing.
  unfoldable pub inode_write_at :
      (Disk → InodeDisk → ℕ → ℕ → Option (Disk × InodeDisk))
      → Disk
      → InodeDisk
      → ℕ
      → List ℕ
      → ℕ
      → ℕ
      → Option (ℕ × Disk × InodeDisk)
  unfolding write_extended write_loop write_chunk splice
  inode_write_at extend d i deny_write_cnt buffer size offset =
      if not (deny_write_cnt == 0)
      then some (0, d, i)
      else write_extended buffer size offset
          (if ltb i.length (offset + size) then extend d i size offset else some (d, i))
