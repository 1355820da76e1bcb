-- ===== src/Examples/Directories.antt =====
-- Directories and system calls on a disk in memory: filesys/directory.c, userprog/syscall.c.
use pintos.Prelude.{
  replicate, length-replicate, ◌==◌, if◌then◌else◌, ℕ, ◌/◌, ◌≡◌, refl, true, false, none, some,
  List, [], ◌∷◌, ◌++◌, arith,
}
use pintos.Prelude.Int.{pos}
use pintos.Prelude.State.{◌>>◌, Returns}
use pintos.Block.Ram.{whole, RamDisk, ram_read, ram}
use pintos.Directory.{points_null, points_valid, lookup, dir_add}
use pintos.Directory.Entry.{entry_sector, entry_name, entry_in_use, entry_isdir, fill_entry}
use pintos.Directory.Entry.Fields.{fill_entry-fields}
use pintos.Directory.Path.{mkdir_by_name}
use pintos.Directory.Search.{entry_at, Searched, lookup-Searched}
use pintos.Directory.Slot.{dir_add-nothing}
use pintos.Examples.Cache.{a_machine, a_system, empty-Coherent}
use pintos.Examples.FileSystem.{small-IsMapped, a_file}
use pintos.Examples.Inodes.{small, counting, one_open, one_open_fs}
use pintos.File.{File}
use pintos.FileSystem.{filesys_create}
use pintos.FileSystem.Create.{filesys_create-fails}
use pintos.Inode.{InodeDisk, byte_to_sector}
use pintos.Inode.Bytes.{file_byte, file_bytes}
use pintos.Inode.Read.{IsMapped}
use pintos.Inode.Table.{Inode, Fs}
use pintos.Syscall.Calls.{Calls, Frame, returned, put_list, all_close}
use pintos.Syscall.Calls.Exit.{others, close_owned, all_close-others}
use pintos.Syscall.Calls.Files.{syscall_read}
use pintos.Syscall.Calls.Transfer.{IsDescriptor, syscall_read-file_bytes}
use pintos.Syscall.Fd.{FdElem, find_fd}
use pintos.System.{System}

-- A directory with the file "a" in sector 30 and a free entry, in sector 20.
abbrev listing : List ℕ
listing = 30 ∷ 0 ∷ 0 ∷ 0 ∷ 97 ∷ 0 ∷ replicate 13 0 ++ (1 ∷ 0 ∷ replicate 27 0)

abbrev dir_disk : InodeDisk
dir_disk = record small { length = 48 }

abbrev dir_inode : Inode
dir_inode = record one_open { disk = dir_disk }

abbrev dir_device : RamDisk
dir_device = λ s. if s == 20 then listing else counting s

abbrev dir_fs : Fs RamDisk
dir_fs = record one_open_fs {
  device = dir_device;
  inode = λ p. if p == 5 then some dir_inode else none;
}

abbrev dir_system : System RamDisk
dir_system = record a_system {
  files = record { fs = dir_fs; file = λ p. none };
  dir = λ p. if p == 7 then some (record { inode = 5; pos = 0 }) else none;
}

dir-IsMapped : IsMapped ram dir_device dir_disk
unfolding ram ram_read byte_to_sector
dir-IsMapped p h =
    let q : p / 512 ≡ 0 = omega arith in
    record { sector = 20; contents = whole (dir_device 20); maps = rw q refl; reads = refl }

lookup-Searched_example :
    Returns
      (λ r s'. (s' ≡ dir_system) × Searched a_machine dir_device dir_disk (97 ∷ []) r)
      (lookup a_machine 7 (97 ∷ []) points_valid points_null dir_system)
lookup-Searched_example =
    lookup-Searched a_machine dir_system 7 (97 ∷ []) points_valid points_null
      (record { inode = 5; pos = 0 }) dir_inode refl (length-replicate {A = ℕ} 24 0)
      (λ e. omega arith) tt tt refl refl dir-IsMapped

second_free : entry_in_use (entry_at a_machine dir_device dir_disk 1) ≡ false
unfolding ram ram_read byte_to_sector entry_in_use file_bytes file_byte
second_free = refl

dir_add-nothing_example :
    Returns
      (λ r s'. (r ≡ false) × (s' ≡ dir_system))
      (dir_add a_machine 7 (98 ∷ []) 31 false dir_system)
dir_add-nothing_example =
    dir_add-nothing a_machine dir_system 7 (98 ∷ []) 31 false (record { inode = 5; pos = 0 })
      dir_inode 1 refl (length-replicate {A = ℕ} 24 0) (λ e. omega arith) refl refl refl
      dir-IsMapped (omega arith) second_free

filesys_create-fails_example :
    (¬ (filesys_create a_machine (98 ∷ []) [] 0 dir_system ≡ some (true, dir_system)))
    × (¬ (mkdir_by_name a_machine (98 ∷ []) [] 7 dir_system ≡ some (true, dir_system)))
filesys_create-fails_example = filesys_create-fails a_machine (98 ∷ []) [] 0 7 dir_system dir_system

-- Descriptor 2 of thread 1 for a file that is read from its start.
abbrev a_descriptor : FdElem
a_descriptor = record {
  owner = 1;
  file = 3;
  filename = 0;
  fd = 2;
  is_exe = false;
  dir = 0;
  isdir = false;
}

abbrev some_calls : File → Calls RamDisk
some_calls f = record {
  system = record a_system {
    files = record { fs = one_open_fs; file = λ p. if p == 3 then some f else none };
  };
  fd_list = a_descriptor ∷ [];
  child_info_list = [];
  tid = pos 3;
  keyboard = [];
  console = [];
}

abbrev end_file : File
end_file = record a_file { pos = 700 }

abbrev a_frame : Frame
a_frame = record {
  esp = 3221225400;
  word = λ i. if i == 1 then 2 else if i == 2 then 4096 else 600;
  string = λ p. replicate 600 7;
  is_thread = λ name. false;
}

opened :
    (f : File) → f.inode ≡ 5 → IsDescriptor a_machine (some_calls f) (pos 2) a_descriptor f one_open
unfolding find_fd
opened f h = record {
  found = refl;
  not_exe = refl;
  not_dir = refl;
  live = λ e. omega arith;
  points = refl;
  node_points = rw h refl;
}

syscall_read-file_bytes_example :
    Returns
      (λ o s'.
        (o ≡ returned (some (pos 600)) (file_bytes ram counting small 0 600))
        × (s'.system.files.file 3 ≡ some (record a_file { pos = 600 }))
        × (s'.fd_list ≡ a_descriptor ∷ []))
      (syscall_read a_machine a_frame (some_calls a_file))
syscall_read-file_bytes_example =
    syscall_read-file_bytes a_machine a_frame (some_calls a_file) a_descriptor a_file one_open refl
      (omega arith) (λ e. omega arith) (λ e. omega arith) (omega arith) (omega arith)
      (opened a_file refl) (omega arith) (omega arith) small-IsMapped empty-Coherent (omega arith)

fill_entry-fields_example :
    (entry_name (fill_entry (97 ∷ 98 ∷ []) 300 true (replicate 24 9)) ≡ 97 ∷ 98 ∷ [])
    × (entry_sector (fill_entry (97 ∷ 98 ∷ []) 300 true (replicate 24 9)) ≡ 300)
    × (entry_in_use (fill_entry (97 ∷ 98 ∷ []) 300 true (replicate 24 9)) ≡ true)
    × (entry_isdir (fill_entry (97 ∷ 98 ∷ []) 300 true (replicate 24 9)) ≡ true)
fill_entry-fields_example =
    fill_entry-fields (97 ∷ 98 ∷ []) 300 true (replicate 24 9) (omega arith)
      (λ e. omega arith, (λ e. omega arith, tt)) (omega arith) refl

-- Two processes with a descriptor each.
abbrev two_processes : Calls RamDisk
two_processes = record (some_calls end_file) {
  fd_list = record a_descriptor { owner = 6; fd = 2 } ∷ a_descriptor ∷ [];
}

all_close-others_example :
    (all_close a_machine two_processes
      ≡ (close_owned a_machine two_processes.fd_list >> put_list (others 1 two_processes.fd_list))
          two_processes)
    × (find_fd (pos 2) 1 (others 1 two_processes.fd_list) ≡ none)
    × (find_fd (pos 2) 6 (others 1 two_processes.fd_list) ≡ find_fd (pos 2) 6 two_processes.fd_list)
all_close-others_example = all_close-others a_machine two_processes (pos 2) 6 (λ e. omega arith)
