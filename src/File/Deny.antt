-- ===== src/File/Deny.antt =====
-- file_deny_write() and file_allow_write() of filesys/file.c.
use pintos.Prelude.{ℕ, ◌<◌, ◌≡◌, ◌≢◌, false, some, arith}
use pintos.Prelude.State.{◌>>◌, Returns}
use pintos.File.{File, Files, deref_file, store_file, file_deny_write, file_allow_write}
use pintos.Inode.Table.{Inode, deref, store, inode_deny_write, inode_allow_write}
use pintos.Thread.{null}

module _ {Disk : Type 0} where
  -- The same files and inodes.
  pub record SameFiles (s s' : Files Disk) : Type 0 where
    pub files : (q : ℕ) → s'.file q ≡ s.file q
    pub inodes : (q : ℕ) → s'.fs.inode q ≡ s.fs.inode q
    pub device : s'.fs.device ≡ s.fs.device
    pub open_inodes : s'.fs.open_inodes ≡ s.fs.open_inodes
    pub free_map : s'.fs.free_map ≡ s.fs.free_map

  -- file_allow_write() after file_deny_write(), on a file that does not deny writes and whose inode
  -- can be denied once more, succeeds and gives every file and every inode back as it was.
  pub file_allow_write-file_deny_write :
      (s : Files Disk) (p : ℕ) (f : File) (i : Inode)
      → p ≢ null
      → s.file p ≡ some f
      → f.deny_write ≡ false
      → s.fs.inode f.inode ≡ some i
      → i.deny_write_cnt < i.open_cnt
      → Returns (λ _ s'. SameFiles s s') ((file_deny_write p >> file_allow_write p) s)
  unfolding file_deny_write file_allow_write deref_file store_file inode_deny_write
      inode_allow_write deref store
  file_allow_write-file_deny_write s p f i ne a b c d = ground arith

  -- A second file_deny_write() on a file changes nothing.
  pub file_deny_write-file_deny_write :
      (s : Files Disk) (p : ℕ) → (file_deny_write p >> file_deny_write p) s ≡ file_deny_write p s
  unfolding file_deny_write deref_file store_file inode_deny_write deref store
  file_deny_write-file_deny_write s p = ground arith
