-- ===== src/FileSystem/Create.antt =====
-- filesys_create() of filesys/filesys.c and mkdir_by_name() of filesys/directory.c, which end with
-- dir_add().
use pintos.Prelude.{
  length, leb, ◌==◌, Bool-cases, ℕ, ◌≡◌, refl, inl, inr, Bool, true, false, not, ◌&&◌, Option, none,
  some, List,
}
use pintos.Prelude.State.{pure, branch, when, Ensures, Ensures-after, Ensures-bind, never_returns}
use pintos.Directory.{
  malloc, dir_get_inode, dir_open_root, dir_close, dir_lookup, dir_add, dir_create,
}
use pintos.Directory.Add.{dir_add-Ensures}
use pintos.Directory.Entry.{name_max}
use pintos.Directory.Path.{find_dir, allocate_inode, release_inode, make_dir, mkdir_by_name}
use pintos.FileSystem.{start_dir, create_at, create_file, filesys_create}
use pintos.Inode.Table.{inode_get_inumber, inode_create}
use pintos.Machine.{Machine}
use pintos.System.{System, fs_task}
use pintos.Thread.{null}

module _ {Disk : Type 0} (m : Machine Disk) where
  create_at-Ensures :
      (path : ℕ) (name : List ℕ) (size : ℕ) (r : Option ℕ) (s : System Disk)
      → Ensures (λ b _. b ≡ false) (create_at m path name size r s)
  create_at-Ensures path name size none s = refl
  create_at-Ensures path name size (some sector) s = Ensures-after _ (malloc s) _ (λ memory t.
      Ensures-after _ (fs_task (inode_create m.dev (not (memory == null)) sector size) t) _
        (λ created t'.
          Ensures-bind (λ b _. b ≡ false) _
            (branch created (dir_add m path name sector false) (pure false) t') _
            (by_created created t')
            (λ success t'' h.
              Ensures-after _ (when (not success) (release_inode m sector) t'') _ (λ _ u. h))))
    where
      by_created :
          (created : Bool) (t : System Disk)
          → Ensures
              (λ b _. b ≡ false)
              (branch created (dir_add m path name sector false) (pure false) t)
      by_created true t = dir_add-Ensures m path name sector false t
      by_created false t = refl

  create_file-Ensures :
      (name : List ℕ) (size : ℕ) (s : System Disk)
      → Ensures (λ b _. b ≡ false) (create_file m name size s)
  unfolding create_file
  create_file-Ensures name size s =
      elim (Bool-cases (not (s.path == null) && leb (length name) name_max)) [
        | inl e ↦
            rw e (
              Ensures-after _ (allocate_inode m s) _
                (λ r t. create_at-Ensures s.path name size r t))
        | inr e ↦ rw e refl
      ]

  filesys_create-Ensures :
      (name fn_copy : List ℕ) (size : ℕ) (s : System Disk)
      → Ensures (λ b _. b ≡ false) (filesys_create m name fn_copy size s)
  unfolding filesys_create
  filesys_create-Ensures name fn_copy size s = Ensures-after _ (start_dir m s) _ (λ dir t.
      Ensures-after _ (find_dir m name fn_copy dir t) _ (λ (found, name_copy) t'.
        Ensures-bind (λ b _. b ≡ false) _ (create_file m name_copy size t') _
          (create_file-Ensures name_copy size t')
          (λ success t'' h. Ensures-after _ (dir_close m dir t'') _ (λ _ u. h))))

  make_dir-Ensures :
      (name : List ℕ) (r : Option ℕ) (s : System Disk)
      → Ensures (λ b _. b ≡ false) (make_dir m name r s)
  make_dir-Ensures name none s = refl
  make_dir-Ensures name (some sector) s = Ensures-after _ (dir_get_inode s.path s) _ (λ inode t.
      Ensures-after _ (fs_task (inode_get_inumber inode) t) _ (λ parent t'.
        Ensures-after _ (dir_create m sector 16 parent t') _ (λ created u.
          Ensures-bind (λ b _. b ≡ false) _
            (branch created (dir_add m s.path name sector true) (pure false) u) _
            (by_created created u)
            (λ added u' h.
              Ensures-after _ (when (not added) (release_inode m sector) u') _ (λ _ w. h)))))
    where
      by_created :
          (created : Bool) (t : System Disk)
          → Ensures
              (λ b _. b ≡ false)
              (branch created (dir_add m s.path name sector true) (pure false) t)
      by_created true t = dir_add-Ensures m s.path name sector true t
      by_created false t = refl

  mkdir_by_name-Ensures :
      (name fn_copy : List ℕ) (dir : ℕ) (s : System Disk)
      → Ensures (λ b _. b ≡ false) (mkdir_by_name m name fn_copy dir s)
  unfolding mkdir_by_name
  mkdir_by_name-Ensures name fn_copy dir s =
      Ensures-after _ (branch (dir == null) (dir_open_root m) (pure dir) s) _ (λ start t.
        Ensures-after _ (find_dir m name fn_copy start t) _ (λ (found, name_copy) t'.
          elim (Bool-cases (t'.path == null)) [
            | inl e ↦ rw e refl
            | inr e ↦ rw e (
                Ensures-after _ (dir_lookup m t'.path name_copy t') _ (λ inode u.
                  elim (Bool-cases (not (inode == null))) [
                    | inl f ↦ rw f refl
                    | inr f ↦ rw f (
                        Ensures-after _ (allocate_inode m u) _ (λ r u'.
                          Ensures-bind (λ b _. b ≡ false) _ (make_dir m name_copy r u') _
                            (make_dir-Ensures name_copy r u')
                            (λ success w h. Ensures-after _ (dir_close m w.path w) _ (λ _ x. h))))
                  ]))
          ]))

  -- No file and no directory is ever created: neither filesys_create() nor mkdir_by_name() ever
  -- returns true, whatever the name, the size and the state of the system. dir_add() writes an entry
  -- of 24 bytes, and inode_write_at() writes whole sectors only.
  pub filesys_create-fails :
      (name fn_copy : List ℕ) (initial_size dir : ℕ) (s s' : System Disk)
      → (¬ (filesys_create m name fn_copy initial_size s ≡ some (true, s')))
        × (¬ (mkdir_by_name m name fn_copy dir s ≡ some (true, s')))
  filesys_create-fails name fn_copy initial_size dir s s' = (
    never_returns (filesys_create m name fn_copy initial_size s) s'
        (filesys_create-Ensures name fn_copy initial_size s),
    never_returns (mkdir_by_name m name fn_copy dir s) s'
        (mkdir_by_name-Ensures name fn_copy dir s),
  )
