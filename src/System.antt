-- ===== src/System.antt =====
-- The state of the file system above its inodes: the files of filesys/file.c, the buffer cache of
-- filesys/filesys.h, the directories of filesys/directory.c.
use pintos.Prelude.{◌==◌, if◌then◌else◌, ℕ, Bool, Option, none, some, List, [], ◌∷◌}
use pintos.File.{Files}
use pintos.Inode.Table.{Fs, Cmd}

-- struct cache_block; `contents` is what `data` points to, `block_lock` the thread that holds the
-- lock.
pub record CacheBlock : Type 0 where
  pub contents : List ℕ
  pub dirty : Bool
  pub accessed : Bool
  pub inode : ℕ
  pub block_no : ℕ
  pub valid : Bool
  pub size : ℕ
  pub block_lock : Option ℕ

-- struct dir.
pub record Dir : Type 0 where
  pub inode : ℕ
  pub pos : ℕ

-- `dir` is the heap of directories, `path` the global variable, `pwd` the threads of all_list, in
-- its order, each with its field of that name, and `mallocs` what the next calls of malloc() and
-- calloc() return.
pub record System (Disk : Type 0) : Type 0 where
  pub files : Files Disk
  pub buffer_cache : ℕ → CacheBlock
  pub buffer_iter : ℕ
  pub dir : ℕ → Option Dir
  pub path : ℕ
  pub pwd : List (ℕ × ℕ)
  pub mallocs : List ℕ

-- A command of the system.
abbrev pub Task : Type 0 → Type 0 → Type 0
Task Disk A = System Disk → Option (A × System Disk)

abbrev pub with_fs :
    {Disk A : Type 0} → System Disk → Option (A × Fs Disk) → Option (A × System Disk)
with_fs s none = none
with_fs s (some (a, fs)) = some (a, record s { files = record s.files { fs = fs } })

abbrev pub with_system :
    {Disk A : Type 0} → System Disk → Option (A × Files Disk) → Option (A × System Disk)
with_system s none = none
with_system s (some (a, f)) = some (a, record s { files = f })

abbrev pub set_block : (ℕ → CacheBlock) → ℕ → CacheBlock → ℕ → CacheBlock
set_block f i b j = if j == i then b else f j

-- The directory of thread `t`, and a change of it.
abbrev pub own_pwd : ℕ → List (ℕ × ℕ) → Option ℕ
own_pwd t [] = none
own_pwd t ((u, p) ∷ ps) = let rest = own_pwd t ps in if u == t then some p else rest

abbrev pub put_pwd : ℕ → ℕ → List (ℕ × ℕ) → List (ℕ × ℕ)
put_pwd t v [] = []
put_pwd t v ((u, p) ∷ ps) =
    let rest = put_pwd t v ps in if u == t then (u, v) ∷ ps else (u, p) ∷ rest

module _ {Disk : Type 0} where
  -- A command of the inodes, or of the files.
  abbrev pub fs_task : {A : Type 0} → Cmd Disk A → Task Disk A
  fs_task c = λ s. with_fs s (c s.files.fs)

  abbrev pub file_task : {A : Type 0} → (Files Disk → Option (A × Files Disk)) → Task Disk A
  file_task c = λ s. with_system s (c s.files)

  abbrev pub inspect : {A : Type 0} → (System Disk → A) → Task Disk A
  inspect f = λ s. some (f s, s)

  -- A change of a block of the cache.
  abbrev pub update_block : ℕ → (CacheBlock → CacheBlock) → Task Disk (Unit {0})
  update_block i f =
      λ s. some (tt, record s { buffer_cache = set_block s.buffer_cache i (f (s.buffer_cache i)) })
