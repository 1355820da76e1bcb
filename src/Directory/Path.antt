-- ===== src/Directory/Path.antt =====
-- Paths: find_dir(), mkdir_by_name(), fd_elem_isdir() and isdir_by_name() of filesys/directory.c.
pub mod Tokens
use pintos.Prelude.{
  take, ◌==◌, if◌then◌else◌, ℕ, ◌-◌, Bool, true, false, not, Option, none, some, List, [], ◌∷◌,
  ◌++◌,
}
use pintos.Prelude.State.{pure, ◌>>=◌, ◌>>◌, stop, branch, when}
use pintos.Directory.{
  Pointer, points_null, points_valid, points_unset, malloc, dir_get_inode, set_path, open_inode,
  dir_open, dir_open_root, dir_reopen, dir_close, lookup, dir_lookup, is_found, dir_add, dir_create,
}
use pintos.Directory.Entry.{DirEntry, entry_sector, entry_isdir}
use pintos.FreeMap.{free_map_allocate}
use pintos.Inode.Table.{inode_get_inumber, free_map_release}
use pintos.Machine.{Machine}
use pintos.System.{Task, fs_task, inspect}
use pintos.Thread.{null}

abbrev pub page_size : ℕ
page_size = 4096

abbrev pub slash : ℕ
slash = 47

abbrev add_token : List ℕ → List (List ℕ) → List (List ℕ)
add_token [] ts = ts
add_token (b ∷ bs) ts = (b ∷ bs) ∷ ts

-- The tokens of strtok_r() with the delimiter "/": `token` is the one being read.
unfoldable pub tokens_from : List ℕ → List ℕ → List (List ℕ)
tokens_from token [] = add_token token []
tokens_from token (b ∷ bs) =
    let split = add_token token (tokens_from [] bs) in
    let more = tokens_from (token ++ (b ∷ [])) bs in if b == slash then split else more

unfoldable pub tokens : List ℕ → List (List ℕ)
unfolding tokens_from
tokens s = tokens_from [] s

abbrev pub starts_slash : List ℕ → Bool
starts_slash [] = false
starts_slash (b ∷ bs) = b == slash

module _ {Disk : Type 0} (m : Machine Disk) where
  -- The entry of the token before, if there was one. `e` says what malloc() gave for the entry.
  abbrev before : ℕ → List ℕ → Pointer → Task Disk (Option (DirEntry × ℕ))
  before dir [] e = pure none
  before dir (b ∷ bs) e = lookup m dir (b ∷ bs) e points_unset

  -- The directory of an entry of a directory takes the place of `dir`; the flag says whether it
  -- cannot be opened.
  abbrev descend : ℕ → Pointer → Option (DirEntry × ℕ) → Task Disk (ℕ × Bool)
  descend dir e none = pure (dir, false)
  descend dir points_null (some r) = stop
  descend dir _ (some (e, ofs)) =
      branch (entry_isdir e)
        (do
          dir_close m dir
          inode ← open_inode m (entry_sector e)
          next ← dir_open m inode
          pure (next, next == null))
        (pure (dir, false))

  -- The loop over the tokens: the directory, the last token that was copied to `fn_copy`, and
  -- whether the code returns from inside of the loop.
  unfoldable pub walk :
      ℕ → List ℕ → Pointer → List ℕ → List (List ℕ) → Task Disk (ℕ × List ℕ × Bool)
  walk dir before_tok e fn_copy [] = pure (dir, fn_copy, false)
  walk dir before_tok e fn_copy (token ∷ ts) = do
    r ← before dir before_tok e
    (next, failed) ← descend dir e r
    branch failed (pure (next, fn_copy, true)) (walk next token e token ts)

  -- The directory, and what `fn_copy` holds.
  unfoldable pub find_dir : List ℕ → List ℕ → ℕ → Task Disk (ℕ × List ℕ)
  unfolding walk tokens
  find_dir file_name fn_copy dir = do
    let s = take (page_size - 1) file_name
    p ← malloc
    let e = if p == null then points_null else points_valid
    start ← branch (starts_slash s) (dir_open_root m) (dir_reopen m dir)
    (last, name, failed) ← walk start [] e fn_copy (tokens s)
    branch failed (pure (last, name))
        (do new_path ← dir_reopen m last; set_path m new_path; pure (last, name))

  -- `e` is a null pointer, which is read when the name is found.
  unfoldable pub fd_elem_isdir : ℕ → List ℕ → Task Disk Bool
  fd_elem_isdir dir name = do
    r ← lookup m dir name points_null points_unset
    branch (is_found m r) stop (pure false)

  abbrev isdir_of : Option (DirEntry × ℕ) → Bool
  isdir_of none = false
  isdir_of (some (e, ofs)) = entry_isdir e

  unfoldable pub isdir_by_name : ℕ → List ℕ → Task Disk Bool
  isdir_by_name dir name = do r ← lookup m dir name points_valid points_unset; pure (isdir_of r)

  -- A sector for an inode, if free_map_allocate() finds one.
  unfoldable pub allocate_inode : Task Disk (Option ℕ)
  allocate_inode = fs_task (free_map_allocate m.bitmap_write m.bitmap_scan m.free_map_file 1)

  abbrev pub release_inode : ℕ → Task Disk (Unit {0})
  release_inode sector =
      when (not (sector == 0)) (fs_task (free_map_release m.bitmap_write sector 1))

  abbrev pub make_dir : List ℕ → Option ℕ → Task Disk Bool
  make_dir name none = pure false
  make_dir name (some sector) = do
    path ← inspect (λ s. s.path)
    inode ← dir_get_inode path
    parent ← fs_task (inode_get_inumber inode)
    created ← dir_create m sector 16 parent
    added ← branch created (dir_add m path name sector true) (pure false)
    when (not added) (release_inode sector)
    pure added

  -- `fn_copy` is what the page for the copy of the name holds at first.
  unfoldable pub mkdir_by_name : List ℕ → List ℕ → ℕ → Task Disk Bool
  unfolding find_dir allocate_inode
  mkdir_by_name name fn_copy dir = do
    start ← branch (dir == null) (dir_open_root m) (pure dir)
    (found, name_copy) ← find_dir name fn_copy start
    path ← inspect (λ s. s.path)
    branch (path == null) (pure false) (do
      inode ← dir_lookup m path name_copy
      branch (not (inode == null)) (pure false) (do
        sector ← allocate_inode
        success ← make_dir name_copy sector
        last ← inspect (λ s. s.path)
        dir_close m last
        pure success))
