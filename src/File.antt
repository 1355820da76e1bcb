-- ===== src/File.antt =====
-- The open files of filesys/file.c, but for the operations that go through the buffer cache. A
-- struct file is named by its address: `file` is the heap of these, where `none` is memory that is
-- not allocated.
pub mod Deny
pub mod Cursor
use pintos.Prelude.Int.{pos as nonneg}
use pintos.Prelude.{
  length, ◌==◌, if◌then◌else◌, ℕ, ◌+◌, Bool, true, false, not, ◌&&◌, Option, none, some, List,
}
use pintos.Prelude.Int.{ℤ, negsuc}
use pintos.Prelude.State.{pure, ◌>>=◌, ◌>>◌, stop, check}
use pintos.Block.{BlockDevice}
use pintos.Inode.{InodeDisk, inode_read_at, inode_write_at}
use pintos.Inode.Table.{
  Inode, Fs, Cmd, put_inode, deref, inode_reopen, inode_deny_write, inode_allow_write, inode_length,
  inode_close,
}
use pintos.Thread.{null}

-- struct file.
pub record File : Type 0 where
  pub inode : ℕ
  pub pos : ℕ
  pub deny_write : Bool

pub record Files (Disk : Type 0) : Type 0 where
  pub fs : Fs Disk
  pub file : ℕ → Option File

abbrev pub put_file : (ℕ → Option File) → ℕ → Option File → ℕ → Option File
put_file f p v q = if q == p then v else f q

abbrev pub with_files :
    {Disk A : Type 0} → Files Disk → Option (A × Fs Disk) → Option (A × Files Disk)
with_files s none = none
with_files s (some (a, fs)) = some (a, record s { fs = fs })

module _ {Disk : Type 0} where
  -- A command of the file system.
  abbrev pub on_fs : {A : Type 0} → Cmd Disk A → Files Disk → Option (A × Files Disk)
  on_fs m = λ s. with_files s (m s.fs)

  -- An access through a pointer to a file.
  unfoldable pub deref_file : ℕ → Files Disk → Option (File × Files Disk)
  deref_file p s = elim (s.file p) [ none ↦ none | some f ↦ some (f, s) ]

  unfoldable pub store_file : ℕ → File → Files Disk → Option (Unit {0} × Files Disk)
  store_file p f s = some (tt, record s { file = put_file s.file p (some f) })

  unfoldable pub free_file : ℕ → Files Disk → Option (Unit {0} × Files Disk)
  free_file p s = some (tt, record s { file = put_file s.file p none })

  unfoldable pub file_get_inode : ℕ → Files Disk → Option (ℕ × Files Disk)
  file_get_inode p = do f ← deref_file p; pure f.inode

  unfoldable pub file_deny_write : ℕ → Files Disk → Option (Unit {0} × Files Disk)
  unfolding deref_file store_file inode_deny_write
  file_deny_write p = do
    check (not (p == null))
    f ← deref_file p
    if f.deny_write
        then pure tt
        else do store_file p (record f { deny_write = true }); on_fs (inode_deny_write f.inode)

  unfoldable pub file_allow_write : ℕ → Files Disk → Option (Unit {0} × Files Disk)
  unfolding deref_file store_file inode_allow_write
  file_allow_write p = do
    check (not (p == null))
    f ← deref_file p
    if f.deny_write
        then (do store_file p (record f { deny_write = false }); on_fs (inode_allow_write f.inode))
        else pure tt

  unfoldable pub file_length : ℕ → Files Disk → Option (ℕ × Files Disk)
  file_length p = do check (not (p == null)); f ← deref_file p; on_fs (inode_length f.inode)

  unfoldable pub file_seek : ℕ → ℤ → Files Disk → Option (Unit {0} × Files Disk)
  file_seek p (negsuc n) = stop
  file_seek p (nonneg n) = do
    check (not (p == null))
    f ← deref_file p
    store_file p (record f { pos = n })

  unfoldable pub file_tell : ℕ → Files Disk → Option (ℕ × Files Disk)
  file_tell p = do check (not (p == null)); f ← deref_file p; pure f.pos

-- The bytes that a read puts into the buffer.
abbrev pub reading : {Disk : Type 0} → Files Disk → Option (List ℕ) → Option (List ℕ × Files Disk)
reading s none = none
reading s (some bs) = some (bs, s)

-- The new device, and the new data of the inode in memory.
abbrev pub writing :
    {Disk : Type 0}
    → ℕ
    → Inode
    → Files Disk
    → Option (ℕ × Disk × InodeDisk)
    → Option (ℕ × Files Disk)
writing p i s none = none
writing p i s (some (n, d, i')) = some (
  n,
  record s {
    fs = record s.fs { device = d; inode = put_inode s.fs.inode p (some (record i { disk = i' })) };
  },
)

module _ {Disk : Type 0} (dev : BlockDevice Disk) where
  -- `bounce` says whether malloc() gives the bounce buffer.
  unfoldable pub file_read_at : Bool → ℕ → ℕ → ℕ → Files Disk → Option (List ℕ × Files Disk)
  file_read_at bounce p size file_ofs = do
    f ← deref_file p
    i ← on_fs (deref f.inode)
    λ s. reading s (inode_read_at dev s.fs.device i.disk bounce size file_ofs)

  unfoldable pub file_read : Bool → ℕ → ℕ → Files Disk → Option (List ℕ × Files Disk)
  unfolding file_read_at
  file_read bounce p size = do
    f ← deref_file p
    bs ← file_read_at bounce p size f.pos
    store_file p (record f { pos = f.pos + length bs })
    pure bs

  module _ (extend : Disk → InodeDisk → ℕ → ℕ → Option (Disk × InodeDisk)) where
    unfoldable pub file_write_at : ℕ → List ℕ → ℕ → ℕ → Files Disk → Option (ℕ × Files Disk)
    file_write_at p buffer size file_ofs = do
      f ← deref_file p
      i ← on_fs (deref f.inode)
      λ s.
          writing f.inode i s
            (inode_write_at dev extend s.fs.device i.disk i.deny_write_cnt buffer size file_ofs)

    unfoldable pub file_write : ℕ → List ℕ → ℕ → Files Disk → Option (ℕ × Files Disk)
    unfolding file_write_at
    file_write p buffer size = do
      f ← deref_file p
      n ← file_write_at p buffer size f.pos
      store_file p (record f { pos = f.pos + n })
      pure n

  module _ (bitmap_write : (ℕ → Bool) → Cmd Disk Bool) where
    -- `fresh` is what calloc() returns.
    unfoldable pub file_open : ℕ → ℕ → Files Disk → Option (ℕ × Files Disk)
    file_open fresh inode =
        if not (inode == null) && not (fresh == null)
        then (do
          store_file fresh (record { inode = inode; pos = 0; deny_write = false })
          pure fresh)
        else do on_fs (inode_close dev bitmap_write inode); free_file fresh; pure null

    unfoldable pub file_reopen : ℕ → ℕ → Files Disk → Option (ℕ × Files Disk)
    unfolding file_open
    file_reopen fresh p = do
      f ← deref_file p
      inode ← on_fs (inode_reopen f.inode)
      file_open fresh inode

    unfoldable pub file_close : ℕ → Files Disk → Option (Unit {0} × Files Disk)
    file_close p = if p == null then pure tt else do
      file_allow_write p
      f ← deref_file p
      on_fs (inode_close dev bitmap_write f.inode)
      free_file p
