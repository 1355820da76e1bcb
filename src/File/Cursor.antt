-- ===== src/File/Cursor.antt =====
-- The position of a file of filesys/file.c.
use pintos.Prelude.Int.{pos as nonneg}
use pintos.Prelude.{ℕ, ◌≡◌, ◌≢◌, some, arith}
use pintos.Prelude.State.{◌>>◌, Returns}
use pintos.File.{File, Files, deref_file, store_file, file_seek, file_tell}
use pintos.Thread.{null}

module _ {Disk : Type 0} where
  -- file_seek() to a position that is not negative makes file_tell() return it.
  pub file_tell-file_seek :
      (s : Files Disk) (p n : ℕ) (f : File)
      → p ≢ null
      → s.file p ≡ some f
      → Returns (λ m s'. m ≡ n) ((file_seek p (nonneg n) >> file_tell p) s)
  unfolding file_seek file_tell deref_file store_file
  file_tell-file_seek s p n f ne a = ground arith
