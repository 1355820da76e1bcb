-- ===== src/FileSystem/Init.antt =====
-- The start of the file system: inode_init() of filesys/inode.c, free_map_init(), free_map_create(),
-- free_map_open() and free_map_close() of filesys/free-map.c, do_format() and filesys_init() of
-- filesys/filesys.c. The address of the free map file is passed on. filesys_init()
-- takes thread_create() of the thread that flushes the cache as a parameter.
use pintos.Prelude.{replicate, ◌==◌, ℕ, Bool, true, false, not, none, some, List, [], ◌∷◌}
use pintos.Prelude.State.{pure, ◌>>=◌, ◌>>◌, check, when}
use pintos.Block.Words.{bytes}
use pintos.Directory.{root_dir_sector, open_inode, dir_open_root, dir_create}
use pintos.File.{file_close}
use pintos.FileSystem.{free_map_sector, open_file}
use pintos.Inode.{no_sector, InodeDisk, disk_words}
use pintos.Inode.Table.{Cmd, write_sector, set_multiple}
use pintos.Machine.{Machine}
use pintos.System.{CacheBlock, Task, put_pwd, fs_task, file_task}
use pintos.Thread.{null}

-- What the calls find: the device, memory for the bitmap, the size of the bitmap's file, bitmap_read(),
-- and what malloc() leaves in an inode of the disk and in the data of a block.
pub record Boot (Disk : Type 0) : Type 0 where
  pub fs_device : Bool
  pub bitmap_create : Bool
  pub bitmap_file_size : ℕ
  pub bitmap_read : Cmd Disk Bool
  pub old_inode : InodeDisk
  pub old_data : ℕ → List ℕ

module _ {Disk : Type 0} where
  unfoldable pub inode_init : Cmd Disk (Unit {0})
  inode_init s = some (tt, record s { open_inodes = [] })

  abbrev bitmap_mark : ℕ → Cmd Disk (Unit {0})
  bitmap_mark sector = λ s. some (tt, record s { free_map = set_multiple s.free_map sector 1 true })

  unfoldable pub free_map_init : Boot Disk → Cmd Disk (Unit {0})
  free_map_init boot = do
    check boot.bitmap_create
    (λ s. some (tt, record s { free_map = λ n. false }))
    bitmap_mark free_map_sector
    bitmap_mark root_dir_sector

module _ {Disk : Type 0} (m : Machine Disk) where
  unfoldable pub free_map_open : Boot Disk → Task Disk ℕ
  free_map_open boot = do
    inode ← open_inode m free_map_sector
    file ← open_file m inode
    check (not (file == null))
    ok ← fs_task boot.bitmap_read
    check ok
    pure file

  unfoldable pub free_map_close : ℕ → Task Disk (Unit {0})
  free_map_close file = file_task (file_close m.dev m.bitmap_write file)

  unfoldable pub free_map_create : Boot Disk → Task Disk ℕ
  free_map_create boot = do
    fs_task (bitmap_mark free_map_sector)
    let d = record boot.old_inode {
      direct = free_map_sector ∷ replicate 9 no_sector;
      single_level = no_sector;
      double_level = no_sector;
      length = boot.bitmap_file_size;
    }
    fs_task (write_sector m.dev free_map_sector (bytes (disk_words d)))
    inode ← open_inode m free_map_sector
    file ← open_file m inode
    check (not (file == null))
    ok ← fs_task (λ s. m.bitmap_write s.free_map s)
    check ok
    pure file

  unfoldable pub do_format : Boot Disk → Task Disk (Unit {0})
  unfolding free_map_create free_map_close
  do_format boot = do
    file ← free_map_create boot
    success ← dir_create m root_dir_sector 16 root_dir_sector
    check success
    free_map_close file

  abbrev pub new_block : List ℕ → CacheBlock
  new_block bs = record {
    contents = bs;
    dirty = false;
    accessed = false;
    inode = null;
    block_no = 0;
    valid = false;
    size = 0;
    block_lock = none;
  }

  -- The blocks of the cache, and the second hand of the clock.
  unfoldable pub init_cache : Boot Disk → Task Disk (Unit {0})
  init_cache boot s =
      some (tt, record s { buffer_cache = λ i. new_block (boot.old_data i); buffer_iter = 0 })

  -- The result is the free map file.
  unfoldable pub filesys_init : Boot Disk → Task Disk (Unit {0}) → Bool → Task Disk ℕ
  unfolding inode_init free_map_init free_map_open do_format init_cache
  filesys_init boot create_flush format = do
    check boot.fs_device
    fs_task inode_init
    fs_task (free_map_init boot)
    when format (do_format boot)
    file ← free_map_open boot
    init_cache boot
    root ← dir_open_root m
    (λ s. some (tt, record s { pwd = put_pwd m.cur root s.pwd }))
    create_flush
    pure file
