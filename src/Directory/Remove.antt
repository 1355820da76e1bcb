-- ===== src/Directory/Remove.antt =====
-- Removing entries of the directories of filesys/directory.c, with dir_is_pwd() of threads/thread.c.
use pintos.Prelude.{
  ◌==◌, ℕ, zero, suc, Bool, true, false, not, ◌||◌, Option, none, some, List, [], ◌∷◌,
}
use pintos.Prelude.State.{pure, ◌>>=◌, ◌>>◌, stop, branch}
use pintos.Directory.{
  points_valid, root_dir_sector, deref_dir, put_dir_at, dir_get_inode, rounds_of, open_inode,
  close_inode, dir_open, dir_open_root, lookup, dir_lookup, dir_readdir,
}
use pintos.Directory.Entry.{
  entry_size, DirEntry, same_string, entry_sector, entry_isdir, set_in_use,
}
use pintos.Inode.Table.{inode_get_inumber, inode_remove}
use pintos.Inode.Table.Access.{written, write_at}
use pintos.Machine.{Machine}
use pintos.System.{Task, fs_task, inspect}
use pintos.Thread.{null}

abbrev pub dot : List ℕ
dot = 46 ∷ []

abbrev pub dot_dot : List ℕ
dot_dot = 46 ∷ 46 ∷ []

module _ {Disk : Type 0} (m : Machine Disk) where
  -- A round of dir_is_empty() with what dir_readdir() gives; `rest` are the rounds to come.
  abbrev other_name : ℕ → Task Disk Bool → Option (List ℕ) → Task Disk Bool
  other_name dir rest none = pure true
  other_name dir rest (some name) =
      branch (same_string dot_dot name || same_string dot name) rest
        (do inode ← dir_lookup m dir name; branch (inode == null) rest (pure false))

  unfoldable pub empty_from : ℕ → ℕ → Task Disk Bool
  empty_from zero dir = stop
  empty_from (suc fuel) dir = do name ← dir_readdir m dir; other_name dir (empty_from fuel dir) name

  unfoldable pub dir_is_empty : ℕ → Task Disk Bool
  unfolding empty_from
  dir_is_empty dir = do
    d ← deref_dir dir
    put_dir_at dir (some (record d { pos = 0 }))
    n ← rounds_of d.inode
    empty_from n dir

  unfoldable pub sector_of : ℕ → Task Disk ℕ
  sector_of dir = do inode ← dir_get_inode dir; fs_task (inode_get_inumber inode)

  -- The threads with their directories, and whether one of these is that of `sector`. A thread
  -- without a directory gets the root.
  unfoldable pub pwd_from : ℕ → List (ℕ × ℕ) → Task Disk (List (ℕ × ℕ) × Bool)
  pwd_from sector [] = pure ([], false)
  pwd_from sector ((t, p) ∷ ps) = do
    pwd ← branch (p == null) (dir_open_root m) (pure p)
    n ← sector_of pwd
    branch (sector == n) (pure ((t, pwd) ∷ ps, true))
        (do (qs, found) ← pwd_from sector ps; pure ((t, pwd) ∷ qs, found))

  unfoldable pub dir_is_pwd : ℕ → Task Disk Bool
  unfolding pwd_from
  dir_is_pwd dir = do
    sector ← sector_of dir
    ps ← inspect (λ s. s.pwd)
    (qs, found) ← pwd_from sector ps
    (λ s. some (tt, record s { pwd = qs }))
    pure found

  unfoldable pub dir_can_removed : ℕ → Task Disk Bool
  unfolding dir_is_empty dir_is_pwd
  dir_can_removed dir = do
    sector ← sector_of dir
    branch (sector == root_dir_sector) (pure false) (do
      empty ← dir_is_empty dir
      branch (not empty) (pure false) (do used ← dir_is_pwd dir; pure (not used)))

  -- With an entry that may be removed: it is marked free, and the inode removed.
  unfoldable pub erase_entry : ℕ → ℕ → DirEntry → ℕ → Task Disk Bool
  erase_entry dir inode e ofs = do
    d ← dir_get_inode dir
    written ← fs_task (write_at m d (set_in_use false e) entry_size ofs)
    branch (not (written == entry_size)) (pure false) (do fs_task (inode_remove inode); pure true)

  -- With the inode of the entry open.
  unfoldable pub remove_open : ℕ → ℕ → DirEntry → ℕ → Task Disk Bool
  unfolding dir_can_removed erase_entry
  remove_open dir inode e ofs = branch (inode == null) (pure false) (do
    allowed ← branch (entry_isdir e) (do sub ← dir_open m inode; dir_can_removed sub) (pure true)
    branch allowed (erase_entry dir inode e ofs) (pure false))

  abbrev remove_found : ℕ → Option (DirEntry × ℕ) → Task Disk Bool
  remove_found dir none = pure false
  remove_found dir (some (e, ofs)) = do
    inode ← open_inode m (entry_sector e)
    success ← remove_open dir inode e ofs
    close_inode m inode
    pure success

  unfoldable pub dir_remove : ℕ → List ℕ → Task Disk Bool
  unfolding remove_open
  dir_remove dir name = do r ← lookup m dir name points_valid points_valid; remove_found dir r
