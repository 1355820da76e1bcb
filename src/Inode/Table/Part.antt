-- ===== src/Inode/Table/Part.antt =====
-- inode_write_at() of filesys/inode.c for a part of a sector.
use pintos.Prelude.{ltb, ℕ, zero, suc, ◌+◌, ◌≤◌, ◌<◌, ◌≡◌, refl, false, some, List, arith}
use pintos.Inode.Read.{IsMapped}
use pintos.Inode.Table.{Inode, Fs}
use pintos.Inode.Table.Access.{write_at}
use pintos.Inode.Table.Inv.{deref-ok}
use pintos.Inode.Write.{part_loop}
use pintos.Machine.{Machine}

module _ {Disk : Type 0} (m : Machine Disk) where
  -- Nothing is written, and the device is as before.
  pub write_at-part :
      (fs : Fs Disk) (p : ℕ) (node : Inode) (buffer : List ℕ) (size ofs : ℕ)
      → fs.inode p ≡ some node
      → node.deny_write_cnt ≡ 0
      → IsMapped m.dev fs.device node.disk
      → 0 < size
      → size < 512
      → ofs + size ≤ node.disk.length
      → write_at m p buffer size ofs fs ≡ some (0, fs)
  unfolding write_at
  write_at-part fs p node buffer zero ofs e z h l u k = absurd (omega arith)
  write_at-part fs p node buffer (suc n) ofs e z h l u k =
      let fits : ltb node.disk.length (ofs + suc n) ≡ false = ground arith in
      rw (deref-ok p node fs e, z)
        (rw fits (
          rw (deref-ok p node fs e)
            (rw (part_loop m.dev n (suc n) fs.device node.disk buffer ofs h l u k) refl)))
