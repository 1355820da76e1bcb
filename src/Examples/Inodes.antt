-- ===== src/Examples/Inodes.antt =====
-- The open inodes of filesys/inode.c, with one inode open on a disk in memory.
use pintos.Prelude.{
  replicate, ◌==◌, if◌then◌else◌, ℕ, ◌+◌, ◌<◌, ◌≡◌, refl, Bool, true, false, none, some, [], ◌∷◌,
  arith,
}
use pintos.Prelude.State.{pure, Returns}
use pintos.Block.Ram.{whole, RamDisk, ram_read, ram}
use pintos.Inode.{no_sector, inode_magic, InodeDisk}
use pintos.Inode.Table.{Inode, Fs, Cmd, inode_open}
use pintos.Inode.Table.Inv.{IsTable}
use pintos.Inode.Table.Open.{inode_open-IsTable}
use pintos.KernelList.{count}

-- A file of 700 bytes in the sectors 20 and 21.
abbrev pub small : InodeDisk
small = record {
  direct = 20 ∷ 21 ∷ replicate 8 no_sector;
  single_level = no_sector;
  double_level = no_sector;
  length = 700;
  magic = inode_magic;
  unused = replicate 114 0;
}

abbrev pub counting : RamDisk
counting = λ s. s ∷ (s + 1) ∷ []

abbrev pub one_open : Inode
one_open = record { sector = 9; open_cnt = 1; removed = false; deny_write_cnt = 0; disk = small }

abbrev pub one_open_fs : Fs RamDisk
one_open_fs = record {
  device = counting;
  inode = λ p. if p == 5 then some one_open else none;
  open_inodes = 5 ∷ [];
  free_map = λ s. true;
  file_lock = none;
}

pub one_open-IsTable : IsTable one_open_fs.inode one_open_fs.open_inodes
one_open-IsTable = record {
  once = λ p. ground arith;
  live = λ p h. record {
    node = one_open;
    points = ground arith;
    opened = omega arith;
    denied = omega arith;
  };
  sole = λ p q i j h k a b c. ground arith;
  not_null = refl;
}

inode_open-IsTable_example :
    Returns
      (λ p s'.
        IsTable s'.inode s'.open_inodes
        × (0 < count p s'.open_inodes)
        × ((i : Inode) × (s'.inode p ≡ some i) × (i.sector ≡ 12)))
      (inode_open ram 8 12 one_open_fs)
unfolding ram ram_read
inode_open-IsTable_example =
    inode_open-IsTable ram 8 12 (whole (counting 12)) one_open_fs one_open-IsTable
      (λ e. omega arith) refl refl

abbrev writes_map : (ℕ → Bool) → Cmd RamDisk Bool
writes_map f = pure true

-- The inode of the file, removed while it is open.
abbrev removed_fs : Fs RamDisk
removed_fs = record one_open_fs {
  inode = λ p. if p == 5 then some (record one_open { removed = true }) else none;
}
