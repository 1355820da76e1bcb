-- ===== src/FileSystem.antt =====
-- The file system operations of filesys/filesys.c on names, with the file of the free map of
-- filesys/free-map.c. Printing is left out. `fn_copy` is what the page for the copy of a name holds
-- at first.
pub mod Create
pub mod Init
use pintos.Prelude.{length, leb, ◌==◌, ℕ, Bool, false, not, ◌&&◌, Option, none, some, List, [], ◌∷◌}
use pintos.Prelude.State.{pure, ◌>>=◌, ◌>>◌, branch, when}
use pintos.Cache.{cache_flush}
use pintos.Directory.{
  root_dir_sector, malloc, open_inode, dir_open_root, dir_reopen, dir_close, dir_lookup, dir_add,
}
use pintos.Directory.Entry.{name_max, same_string}
use pintos.Directory.Path.{slash, find_dir, allocate_inode, release_inode}
use pintos.Directory.Remove.{dir_remove}
use pintos.File.{file_open, file_close}
use pintos.Inode.Table.{inode_create}
use pintos.Machine.{Machine}
use pintos.System.{Task, fs_task, file_task, inspect}
use pintos.Thread.{null}

abbrev pub free_map_sector : ℕ
free_map_sector = 0

module _ {Disk : Type 0} (m : Machine Disk) where
  -- The directory in which a search starts.
  unfoldable pub start_dir : Task Disk ℕ
  start_dir = do
    path ← inspect (λ s. s.path)
    branch (path == null) (dir_open_root m) (dir_reopen m path)

  -- calloc() of the struct file, then file_open().
  unfoldable pub open_file : ℕ → Task Disk ℕ
  open_file inode = do fresh ← malloc; file_task (file_open m.dev m.bitmap_write fresh inode)

  abbrev pub create_at : ℕ → List ℕ → ℕ → Option ℕ → Task Disk Bool
  create_at path name initial_size none = pure false
  create_at path name initial_size (some sector) = do
    memory ← malloc
    created ← fs_task (inode_create m.dev (not (memory == null)) sector initial_size)
    success ← branch created (dir_add m path name sector false) (pure false)
    when (not success) (release_inode m sector)
    pure success

  unfoldable pub create_file : List ℕ → ℕ → Task Disk Bool
  create_file name initial_size = do
    path ← inspect (λ s. s.path)
    branch (not (path == null) && leb (length name) name_max)
        (do sector ← allocate_inode m; create_at path name initial_size sector) (pure false)

  unfoldable pub filesys_create : List ℕ → List ℕ → ℕ → Task Disk Bool
  unfolding start_dir create_file
  filesys_create name fn_copy initial_size = do
    dir ← start_dir
    (found, name_copy) ← find_dir m name fn_copy dir
    success ← create_file name_copy initial_size
    dir_close m dir
    pure success

  -- The file, or null.
  unfoldable pub filesys_open : List ℕ → List ℕ → Task Disk ℕ
  unfolding start_dir open_file
  filesys_open name fn_copy =
      branch (same_string name (slash ∷ []))
        (do inode ← open_inode m root_dir_sector; open_file inode)
        (do
          dir ← start_dir
          (found, name_copy) ← find_dir m name fn_copy dir
          path ← inspect (λ s. s.path)
          inode ← branch (path == null) (pure null) (dir_lookup m path name_copy)
          dir_close m dir
          open_file inode)

  unfoldable pub filesys_remove : List ℕ → List ℕ → Task Disk Bool
  unfolding start_dir
  filesys_remove name fn_copy = do
    dir ← start_dir
    (found, name_copy) ← find_dir m name fn_copy dir
    path ← inspect (λ s. s.path)
    success ← branch (path == null) (pure false) (dir_remove m path name_copy)
    dir_close m dir
    pure success

  -- cache_flush(), and the close of the free map file at address `free_map_file`.
  unfoldable pub filesys_done : ℕ → Task Disk (Unit {0})
  filesys_done free_map_file = do
    cache_flush m
    file_task (file_close m.dev m.bitmap_write free_map_file)
