-- ===== src/Directory.antt =====
-- The directories of filesys/directory.c. A struct dir is named by its address. The loops over the
-- entries are on fuel: one round for each whole entry, and one more. palloc_get_page() gives a page.
pub mod Entry
pub mod Slot
pub mod Search
pub mod Add
pub mod Remove
pub mod Path
use pintos.Prelude.{
  length, take, ltb, ◌==◌, if◌then◌else◌, ℕ, zero, suc, ◌+◌, ◌*◌, ◌/◌, Bool, true, false, not, ◌&&◌,
  ◌||◌, Option, none, some, List, [], ◌∷◌,
}
use pintos.Prelude.Int.{pos}
use pintos.Prelude.State.{pure, ◌>>=◌, ◌>>◌, stop, check, branch, when}
use pintos.Directory.Entry.{
  entry_size, name_max, DirEntry, same_string, entry_sector, entry_name, entry_in_use, overlay,
  fill_entry,
}
use pintos.Inode.Table.{
  find_open, inode_reopen, inode_length, inode_create, inode_open, inode_close,
}
use pintos.Inode.Table.Access.{written, read_at, write_at}
use pintos.Machine.{Machine}
use pintos.System.{Dir, Task, fs_task, inspect}
use pintos.Thread.{null}

-- What an argument of lookup() points to.
pub data Pointer : Type 0 where
  points_null : Pointer
  points_valid : Pointer
  points_unset : Pointer

abbrev pub root_dir_sector : ℕ
root_dir_sector = 1

abbrev pub put_dir : (ℕ → Option Dir) → ℕ → Option Dir → ℕ → Option Dir
put_dir f p v q = if q == p then v else f q

abbrev pub is_new : Option (Option ℕ) → Bool
is_new (some none) = true
is_new _ = false

module _ {Disk : Type 0} where
  -- malloc (), or calloc (): no memory, when the supply is used up.
  unfoldable pub malloc : Task Disk ℕ
  malloc s = elim s.mallocs [ [] ↦ some (null, s) | p ∷ ps ↦ some (p, record s { mallocs = ps }) ]

  unfoldable pub deref_dir : ℕ → Task Disk Dir
  deref_dir p s = elim (s.dir p) [ none ↦ none | some d ↦ some (d, s) ]

  abbrev pub put_dir_at : ℕ → Option Dir → Task Disk (Unit {0})
  put_dir_at p v = λ s. some (tt, record s { dir = put_dir s.dir p v })

  unfoldable pub dir_get_inode : ℕ → Task Disk ℕ
  dir_get_inode p = do d ← deref_dir p; pure d.inode

  -- The rounds of a loop over the entries of an inode.
  unfoldable pub rounds_of : ℕ → Task Disk ℕ
  rounds_of inode = do len ← fs_task (inode_length inode); pure (suc (len / entry_size))

module _ {Disk : Type 0} (m : Machine Disk) where
  abbrev pub set_path : ℕ → Task Disk (Unit {0})
  set_path p = λ s. some (tt, record s { path = p })

  -- inode_open() allocates when the inode is not open.
  unfoldable pub open_inode : ℕ → Task Disk ℕ
  open_inode sector = do
    found ← inspect (λ s. find_open s.files.fs.inode sector s.files.fs.open_inodes)
    fresh ← branch (is_new found) malloc (pure null)
    fs_task (inode_open m.dev fresh sector)

  abbrev pub close_inode : ℕ → Task Disk (Unit {0})
  close_inode p = fs_task (inode_close m.dev m.bitmap_write p)

  unfoldable pub dir_open : ℕ → Task Disk ℕ
  dir_open inode = do
    dir ← malloc
    branch (not (inode == null) && not (dir == null))
        (do put_dir_at dir (some (record { inode = inode; pos = 0 })); pure dir)
        (do close_inode inode; when (not (dir == null)) (put_dir_at dir none); pure null)

  unfoldable pub dir_open_root : Task Disk ℕ
  unfolding dir_open open_inode
  dir_open_root = do inode ← open_inode root_dir_sector; dir_open inode

  unfoldable pub dir_reopen : ℕ → Task Disk ℕ
  unfolding dir_open
  dir_reopen p = do d ← deref_dir p; inode ← fs_task (inode_reopen d.inode); dir_open inode

  unfoldable pub dir_close : ℕ → Task Disk (Unit {0})
  dir_close p = when (not (p == null)) (do d ← deref_dir p; close_inode d.inode; put_dir_at p none)

  -- The loop of lookup(): the entry and its offset. `e` is the local variable of the function.
  unfoldable pub lookup_from : ℕ → ℕ → List ℕ → DirEntry → ℕ → Task Disk (Option (DirEntry × ℕ))
  lookup_from zero inode name e ofs = stop
  lookup_from (suc fuel) inode name e ofs = do
    bs ← fs_task (read_at m inode entry_size ofs)
    let e' = overlay bs e
    branch (length bs == entry_size)
        (branch (entry_in_use e' && same_string name (entry_name e')) (pure (some (e', ofs)))
          (lookup_from fuel inode name e' (ofs + entry_size)))
        (pure none)

  -- A result is stored through the pointer, unless that is null.
  unfoldable pub store_result : Pointer → Task Disk (Unit {0})
  store_result points_null = pure tt
  store_result points_valid = pure tt
  store_result points_unset = check m.unset_null

  abbrev pub store_results :
      Pointer → Pointer → Option (DirEntry × ℕ) → Task Disk (Option (DirEntry × ℕ))
  store_results ep ofsp none = pure none
  store_results ep ofsp (some r) = do store_result ep; store_result ofsp; pure (some r)

  unfoldable pub lookup : ℕ → List ℕ → Pointer → Pointer → Task Disk (Option (DirEntry × ℕ))
  unfolding lookup_from store_result
  lookup dir name ep ofsp = do
    check (not (dir == null))
    d ← deref_dir dir
    n ← rounds_of d.inode
    r ← lookup_from n d.inode name m.unset 0
    store_results ep ofsp r

  abbrev pub open_found : Option (DirEntry × ℕ) → Task Disk ℕ
  open_found none = pure null
  open_found (some (e, ofs)) = open_inode (entry_sector e)

  -- The inode, or null: the code returns whether it is not null.
  unfoldable pub dir_lookup : ℕ → List ℕ → Task Disk ℕ
  dir_lookup dir name = do r ← lookup dir name points_valid points_null; open_found r

  -- The search for a free slot: what `e` holds then, and the offset.
  unfoldable pub free_slot : ℕ → ℕ → DirEntry → ℕ → Task Disk (DirEntry × ℕ)
  free_slot zero inode e ofs = stop
  free_slot (suc fuel) inode e ofs = do
    bs ← fs_task (read_at m inode entry_size ofs)
    let e' = overlay bs e
    branch ((length bs == entry_size) && entry_in_use e')
        (free_slot fuel inode e' (ofs + entry_size)) (pure (e', ofs))

  -- The new entry is written.
  unfoldable pub write_slot : ℕ → List ℕ → ℕ → Bool → Task Disk Bool
  unfolding free_slot fill_entry
  write_slot inode name inode_sector isdir = do
    n ← rounds_of inode
    (e, ofs) ← free_slot n inode m.unset 0
    written ← fs_task (write_at m inode (fill_entry name inode_sector isdir e) entry_size ofs)
    pure (written == entry_size)

  abbrev pub is_found : {A : Type 0} → Option A → Bool
  is_found none = false
  is_found (some a) = true

  unfoldable pub dir_add : ℕ → List ℕ → ℕ → Bool → Task Disk Bool
  dir_add dir name inode_sector isdir = do
    check (not (dir == null))
    branch ((length name == 0) || ltb name_max (length name)) (pure false) (do
      r ← lookup dir name points_null points_null
      branch (is_found r) (pure false)
          (do inode ← dir_get_inode dir; write_slot inode name inode_sector isdir))

  -- calloc() of the inode, whose memory is freed at once.
  unfoldable pub dir_create : ℕ → ℕ → ℕ → Task Disk Bool
  unfolding dir_add dir_close
  dir_create sector entry_cnt parent = do
    memory ← malloc
    success ← fs_task (inode_create m.dev (not (memory == null)) sector (entry_cnt * entry_size))
    inode ← open_inode sector
    dir ← dir_open inode
    dir_add dir (46 ∷ 46 ∷ []) parent true
    dir_add dir (46 ∷ []) sector true
    dir_close dir
    pure success

  -- The loop of dir_readdir() through the directory `p`: the name, if there is one.
  unfoldable pub readdir_from : ℕ → ℕ → DirEntry → Task Disk (Option (List ℕ))
  readdir_from zero p e = stop
  readdir_from (suc fuel) p e = do
    d ← deref_dir p
    bs ← fs_task (read_at m d.inode entry_size d.pos)
    let e' = overlay bs e
    branch (length bs == entry_size)
        (do
          put_dir_at p (some (record d { pos = d.pos + entry_size }))
          branch (entry_in_use e') (pure (some (take name_max (entry_name e'))))
              (readdir_from fuel p e'))
        (pure none)

  unfoldable pub dir_readdir : ℕ → Task Disk (Option (List ℕ))
  unfolding readdir_from
  dir_readdir p = do d ← deref_dir p; n ← rounds_of d.inode; readdir_from n p m.unset
