-- ===== src/Machine.antt =====
-- What the file system takes from outside this repository's sources, as one record.
use pintos.Prelude.{ℕ, Bool, Option, List}
use pintos.Block.{BlockDevice}
use pintos.Inode.Table.{Cmd}

pub record Machine (Disk : Type 0) : Type 0 where
  -- devices/block.h
  pub dev : BlockDevice Disk
  -- lib/kernel/bitmap.h: bitmap_write(), bitmap_scan_and_flip()
  pub bitmap_write : (ℕ → Bool) → Cmd Disk Bool
  pub bitmap_scan : (ℕ → Bool) → ℕ → Option ℕ
  -- Whether the free map file is open, and whether malloc() gives a bounce buffer to inode_read_at().
  pub free_map_file : Bool
  pub bounce : Bool
  -- thread_current ()
  pub cur : ℕ
  -- What a local variable of 24 bytes holds before it is set, and whether the pointers that
  -- filesys/directory.c leaves unset are null.
  pub unset : List ℕ
  pub unset_null : Bool
