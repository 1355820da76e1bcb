-- ===== src/Block.antt =====
-- The block device (devices/block.h), which is not in this repository's sources: an interface with
-- its documented behaviour. A sector is a list of 512 bytes. An access past the end of the device
-- stops the kernel (`none`).
pub mod Ram
pub mod Words
use pintos.Prelude.{length, ℕ, ◌≡◌, ◌≢◌, Option, some, List}

abbrev pub block_sector_size : ℕ
block_sector_size = 512

pub record BlockDevice (Disk : Type 0) : Type 0 where
  pub block_read : Disk → ℕ → Option (List ℕ)
  pub block_write : Disk → ℕ → List ℕ → Option Disk
  pub length-block_read :
      (d : Disk) (s : ℕ) (b : List ℕ) → block_read d s ≡ some b → length b ≡ block_sector_size
  pub write_same :
      (d d' : Disk) (s : ℕ) (b : List ℕ)
      → length b ≡ block_sector_size
      → block_write d s b ≡ some d'
      → block_read d' s ≡ some b
  pub write_other :
      (d d' : Disk) (s r : ℕ) (b : List ℕ)
      → r ≢ s
      → block_write d s b ≡ some d'
      → block_read d' r ≡ block_read d r
  pub writable :
      (d : Disk) (s : ℕ) (b c : List ℕ)
      → block_read d s ≡ some b
      → (d' : Disk) × (block_write d s c ≡ some d')
