-- ===== src/Syscall/Fd.antt =====
-- The table of file descriptors of userprog/syscall.c: one list for all processes, in the order of
-- the calls of open(). `cur` is thread_current().
pub mod Open
use pintos.Prelude.{◌==◌, if◌then◌else◌, ℕ, ◌+◌, Bool, ◌&&◌, Option, none, some, List, [], ◌∷◌}
use pintos.Prelude.Int.{ℤ, pos, eq_ℤ}
use pintos.Prelude.State.{pure, ◌>>◌}
use pintos.File.{Files, file_deny_write}
use pintos.Thread.{null}

-- struct fd_elem; `filename` is the address of the name.
pub record FdElem : Type 0 where
  pub owner : ℕ
  pub file : ℕ
  pub filename : ℕ
  pub fd : ℕ
  pub is_exe : Bool
  pub dir : ℕ
  pub isdir : Bool

-- How many descriptors a process has.
unfoldable pub current_fd : ℕ → List FdElem → ℕ
current_fd cur [] = 0
current_fd cur (e ∷ es) = (if e.owner == cur then 1 else 0) + current_fd cur es

-- The first entry of a descriptor.
unfoldable pub find_fd : ℤ → ℕ → List FdElem → Option FdElem
find_fd fd cur [] = none
find_fd fd cur (e ∷ es) =
    if (e.owner == cur) && eq_ℤ (pos e.fd) fd then some e else find_fd fd cur es

-- The entry that open() appends, for what filesys_open() returned.
unfoldable pub new_elem : ℕ → ℕ → ℕ → Bool → ℕ → Bool → List FdElem → FdElem
unfolding current_fd
new_elem cur file filename is_exe dir isdir es = record {
  owner = cur;
  file = file;
  filename = filename;
  fd = current_fd cur es + 2;
  is_exe = is_exe;
  dir = dir;
  isdir = isdir;
}

-- Removes the first entry of a file, which close() calls after the file is closed.
unfoldable pub elem_file : ℕ → ℕ → List FdElem → List FdElem
elem_file file cur [] = []
elem_file file cur (e ∷ es) =
    if (e.file == file) && (e.owner == cur) then es else e ∷ elem_file file cur es

abbrev pub isdir_of : Option FdElem → Option Bool
isdir_of none = none
isdir_of (some e) = some e.isdir

-- The result of a search is read without a test: an unknown descriptor is a fault (`none`).
unfoldable pub isdir_by_fd : ℤ → ℕ → List FdElem → Option Bool
unfolding find_fd
isdir_by_fd fd cur es = isdir_of (find_fd fd cur es)

module _ {Disk : Type 0} where
  -- The file of an entry; an executable is closed to writers on the way.
  found : Option FdElem → Files Disk → Option (ℕ × Files Disk)
  found none = pure null
  found (some e) = if e.is_exe then (do file_deny_write e.file; pure e.file) else pure e.file

  unfoldable pub get_file : ℤ → ℕ → List FdElem → Files Disk → Option (ℕ × Files Disk)
  unfolding find_fd found file_deny_write
  get_file fd cur es = found (find_fd fd cur es)
