-- ===== src/Inode/Table/Access.antt =====
-- inode_read_at() and inode_write_at() of filesys/inode.c on an inode of memory, with
-- file_extension().
use pintos.Prelude.{ltb, ◌==◌, ℕ, ◌+◌, false, not, Option, none, some, List}
use pintos.Prelude.State.{pure, ◌>>=◌, ◌>>◌, branch, when}
use pintos.Inode.{inode_read_at, write_loop}
use pintos.Inode.Table.{Cmd, deref}
use pintos.Inode.Table.Extend.{file_extension}
use pintos.Machine.{Machine}

abbrev pub reading : {Disk : Type 0} → Option (List ℕ) → Cmd Disk (List ℕ)
reading none = λ s. none
reading (some bs) = λ s. some (bs, s)

abbrev pub written : {Disk : Type 0} → Option (ℕ × Disk) → Cmd Disk ℕ
written none = λ s. none
written (some (n, d)) = λ s. some (n, record s { device = d })

module _ {Disk : Type 0} (m : Machine Disk) where
  unfoldable pub read_at : ℕ → ℕ → ℕ → Cmd Disk (List ℕ)
  read_at p size offset = do
    i ← deref p
    λ s. reading (inode_read_at m.dev s.device i.disk m.bounce size offset) s

  -- The bytes written, with the `bounce` pointer of the source, which is never set.
  unfoldable pub write_open : ℕ → List ℕ → ℕ → ℕ → Cmd Disk ℕ
  write_open p buffer size offset = do
    i ← deref p
    λ s. written (write_loop m.dev size s.device i.disk false buffer size offset) s

  unfoldable pub write_at : ℕ → List ℕ → ℕ → ℕ → Cmd Disk ℕ
  unfolding write_open
  write_at p buffer size offset = do
    i ← deref p
    branch (not (i.deny_write_cnt == 0)) (pure 0) (do
      when (ltb i.disk.length (offset + size)) (file_extension m p size offset)
      write_open p buffer size offset)
