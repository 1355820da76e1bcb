-- ===== src/Examples/FileSystem.antt =====
-- Inodes, files and descriptors on a disk in memory: filesys/inode.c, filesys/file.c, userprog/syscall.c.
use Prim.Native.Nat.{min}
use pintos.Prelude.{
  take, replicate, ◌==◌, if◌then◌else◌, Bool-cases, ℕ, ◌+◌, ◌-◌, ◌/◌, ◌%◌, ◌≡◌, refl, ◌⊎◌, inl, inr,
  true, false, Option, none, some, List, [], ◌∷◌, ◌++◌, arith,
}
use pintos.Prelude.Int.{ℤ, pos}
use pintos.Block.Ram.{whole, RamDisk, ram_read, ram_write, ram}
use pintos.Examples.Inodes.{small, counting, one_open_fs}
use pintos.File.{File, Files}
use pintos.Inode.{InodeDisk, byte_to_sector, inode_read_at, inode_write_at}
use pintos.Inode.Bytes.{file_bytes}
use pintos.Inode.Read.{IsMapped, inode_read_at-file_bytes}
use pintos.Inode.Update.{inode_write_at-file_bytes}
use pintos.Inode.Write.{inode_write_at-IsWhole}
use pintos.Syscall.Fd.{FdElem, current_fd, find_fd, new_elem, elem_file}
use pintos.Syscall.Fd.Open.{IsBelow, find_fd-new_elem, new_elem-elem_file}

pub small-IsMapped : IsMapped ram counting small
unfolding ram ram_read byte_to_sector
small-IsMapped p h = elim (Bool-cases (p / 512 == 0)) [
  | inl e ↦
      let q : p / 512 ≡ 0 = ground arith in
      record { sector = 20; contents = whole (counting 20); maps = rw q refl; reads = refl }
  | inr e ↦
      let q : p / 512 ≡ 1 = ground arith in
      record { sector = 21; contents = whole (counting 21); maps = rw q refl; reads = refl }
]

inode_read_at-file_bytes_example :
    inode_read_at ram counting small true 1000 600
    ≡ some (file_bytes ram counting small 600 (min 1000 (700 - 600)))
inode_read_at-file_bytes_example =
    inode_read_at-file_bytes ram counting small 1000 600 small-IsMapped

-- A disk of which only the sectors below 64 exist, and a file that grows no further.
abbrev no_growth : RamDisk → InodeDisk → ℕ → ℕ → Option (RamDisk × InodeDisk)
no_growth d i size offset = some (d, i)

abbrev sevens : List ℕ
sevens = replicate 600 7

abbrev written : ℕ
written = 512

inode_write_at-IsWhole_example : (written % 512 ≡ 0) × ((0 % 512 ≡ 0) ⊎ (written ≡ 0))
unfolding inode_write_at byte_to_sector ram ram_write
inode_write_at-IsWhole_example =
    inode_write_at-IsWhole ram no_growth counting
      (λ r. if r == 20 then take 512 sevens else counting r) small small 0 sevens 600 0 written refl

abbrev one_sector : List ℕ
one_sector = replicate 512 7

inode_write_at-file_bytes_example :
    (d' : RamDisk) × (inode_write_at ram no_growth counting small 0 one_sector 512 0
      ≡ some (512, d', small))
    × (file_bytes ram d' small 0 512 ≡ one_sector)
    × ((r : ℕ) → (r ≡ 20) ⊎ (ram.block_read d' r ≡ ram.block_read counting r))
unfolding ram ram_read
inode_write_at-file_bytes_example =
    inode_write_at-file_bytes ram no_growth counting small one_sector (whole (counting 20)) 0 refl
      (omega arith) (omega arith) refl refl

abbrev pub a_file : File
a_file = record { inode = 5; pos = 0; deny_write = false }

abbrev pub one_file : Files RamDisk
one_file = record { fs = one_open_fs; file = λ p. if p == 3 then some a_file else none }

-- Two descriptors of process 1 and one of process 2.
abbrev an_elem : ℕ → ℕ → ℕ → FdElem
an_elem owner file fd = record {
  owner = owner;
  file = file;
  filename = 0;
  fd = fd;
  is_exe = false;
  dir = 0;
  isdir = false;
}

abbrev two_owners : List FdElem
two_owners = an_elem 1 100 2 ∷ an_elem 2 101 2 ∷ an_elem 1 102 3 ∷ []

find_fd-new_elem_example :
    let e = new_elem 1 103 0 false 0 false two_owners in
    let es' = two_owners ++ (e ∷ []) in
    (find_fd (pos e.fd) 1 es' ≡ some e)
    × ((fd : ℤ) → (fd ≡ pos e.fd) ⊎ (find_fd fd 1 es' ≡ find_fd fd 1 two_owners))
    × IsBelow 1 (current_fd 1 es' + 2) es'
unfolding current_fd
find_fd-new_elem_example =
    find_fd-new_elem 1 103 0 0 false false two_owners
      (inr (omega arith), (inr (omega arith), (inr (omega arith), tt)))

abbrev first_two : List FdElem
first_two = an_elem 1 100 2 ∷ an_elem 2 101 2 ∷ []

new_elem-elem_file_example :
    (elem_file 100 1 two_owners ≡ elem_file 100 1 first_two ++ (an_elem 1 102 3 ∷ []))
    × ((an_elem 1 104 3).fd ≡ (an_elem 1 102 3).fd)
unfolding new_elem current_fd elem_file
new_elem-elem_file_example =
    new_elem-elem_file 1 100 first_two (an_elem 1 102 3) (an_elem 1 104 3) (inl (refl, refl)) refl
      refl
