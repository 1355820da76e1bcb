-- ===== src/Inode/Table.antt =====
-- The open inodes of filesys/inode.c: inode_create(), inode_open(), inode_reopen(), inode_close(),
-- inode_remove() and the counts that deny writes. An inode of memory is named by its address;
-- `inode` is the heap, where `none` is memory that is not allocated, `open_inodes` the list, front
-- first, `free_map` the bits of the free map, `file_lock` the thread that
-- holds FILELOCK (userprog/syscall.h). bitmap_write() is a parameter.
pub mod Inv
pub mod Close
pub mod Extend
pub mod Grown
pub mod Release
pub mod Access
pub mod Part
pub mod Open
use pintos.Prelude.{
  length, replicate, ltb, leb, ◌==◌, if◌then◌else◌, ℕ, zero, suc, ◌+◌, ◌-◌, Bool, true, false, ◌&&◌,
  Option, none, some, List, [], ◌∷◌,
}
use pintos.Prelude.State.{pure, ◌>>=◌, ◌>>◌, check}
use pintos.Block.{BlockDevice}
use pintos.Block.Words.{words, bytes}
use pintos.Inode.{no_sector, inode_magic, InodeDisk, disk_words, of_words}
use pintos.KernelList.{remove}
use pintos.Thread.{null}

pub record Inode : Type 0 where
  pub sector : ℕ
  pub open_cnt : ℕ
  pub removed : Bool
  pub deny_write_cnt : ℕ
  pub disk : InodeDisk

pub record Fs (Disk : Type 0) : Type 0 where
  pub device : Disk
  pub inode : ℕ → Option Inode
  pub open_inodes : List ℕ
  pub free_map : ℕ → Bool
  pub file_lock : Option ℕ

-- A command of the file system.
abbrev pub Cmd : Type 0 → Type 0 → Type 0
Cmd Disk A = Fs Disk → Option (A × Fs Disk)

abbrev pub put_inode : (ℕ → Option Inode) → ℕ → Option Inode → ℕ → Option Inode
put_inode f p v q = if q == p then v else f q

-- Entries of a new inode: no block yet, whatever length was asked for.
abbrev pub empty_inode : InodeDisk
empty_inode = record {
  direct = replicate 10 no_sector;
  single_level = no_sector;
  double_level = no_sector;
  length = 0;
  magic = inode_magic;
  unused = replicate 114 0;
}

-- The open inode of a sector, if there is one; a dangling pointer in the list is a fault.
unfoldable pub find_open : (ℕ → Option Inode) → ℕ → List ℕ → Option (Option ℕ)
find_open f sector [] = some none
find_open f sector (p ∷ ps) = elim (f p) [
  | none ↦ none
  | some i ↦ if i.sector == sector then some (some p) else find_open f sector ps
]

module _ {Disk : Type 0} where
  -- An access through a pointer.
  unfoldable pub deref : ℕ → Cmd Disk Inode
  deref p s = elim (s.inode p) [ none ↦ none | some i ↦ some (i, s) ]

  unfoldable pub store : ℕ → Inode → Cmd Disk (Unit {0})
  store p i s = some (tt, record s { inode = put_inode s.inode p (some i) })

  -- free ()
  unfoldable pub free_inode : ℕ → Cmd Disk (Unit {0})
  free_inode p s = some (tt, record s { inode = put_inode s.inode p none })

  unfoldable pub inode_reopen : ℕ → Cmd Disk ℕ
  inode_reopen p =
      if p == null
      then pure p
      else do i ← deref p; store p (record i { open_cnt = i.open_cnt + 1 }); pure p

  unfoldable pub inode_get_inumber : ℕ → Cmd Disk ℕ
  inode_get_inumber p = do i ← deref p; pure i.sector

  unfoldable pub inode_remove : ℕ → Cmd Disk (Unit {0})
  inode_remove p = do i ← deref p; store p (record i { removed = true })

  unfoldable pub inode_deny_write : ℕ → Cmd Disk (Unit {0})
  inode_deny_write p = do
    i ← deref p
    store p (record i { deny_write_cnt = i.deny_write_cnt + 1 })
    check (leb (i.deny_write_cnt + 1) i.open_cnt)

  unfoldable pub inode_allow_write : ℕ → Cmd Disk (Unit {0})
  inode_allow_write p = do
    i ← deref p
    check (ltb 0 i.deny_write_cnt)
    check (leb i.deny_write_cnt i.open_cnt)
    store p (record i { deny_write_cnt = i.deny_write_cnt - 1 })

  unfoldable pub inode_length : ℕ → Cmd Disk ℕ
  inode_length p = do i ← deref p; pure i.disk.length

  unfoldable pub inode_deny_cnt : ℕ → Cmd Disk ℕ
  inode_deny_cnt p = do i ← deref p; pure i.deny_write_cnt

module _ {Disk : Type 0} (dev : BlockDevice Disk) where
  unfoldable pub read_sector : ℕ → Cmd Disk (List ℕ)
  read_sector n s = elim (dev.block_read s.device n) [ none ↦ none | some b ↦ some (b, s) ]

  unfoldable pub write_sector : ℕ → List ℕ → Cmd Disk (Unit {0})
  write_sector n b s = elim (dev.block_write s.device n b) [
    | none ↦ none
    | some d ↦ some (tt, record s { device = d })
  ]

  -- `memory` says whether calloc() succeeds.
  unfoldable pub inode_create : Bool → ℕ → ℕ → Cmd Disk Bool
  unfolding write_sector disk_words bytes
  inode_create memory sector length =
      if memory
      then (do write_sector sector (bytes (disk_words empty_inode)); pure true)
      else pure false

  -- `fresh` is what malloc() returns.
  open_new : ℕ → ℕ → Cmd Disk ℕ
  open_new fresh sector = if fresh == null then pure null else do
    (λ s. some (tt, record s { open_inodes = fresh ∷ s.open_inodes }))
    b ← read_sector sector
    store fresh (record {
      sector = sector;
      open_cnt = 1;
      removed = false;
      deny_write_cnt = 0;
      disk = of_words (words b);
    })
    pure fresh

  unfoldable pub inode_open : ℕ → ℕ → Cmd Disk ℕ
  unfolding open_new
  inode_open fresh sector s = elim (find_open s.inode sector s.open_inodes) [
    | none ↦ none
    | some none ↦ open_new fresh sector s
    | some (some p) ↦ inode_reopen p s
  ]

-- The bits of a free map from `sector` on.
abbrev pub all_set : (ℕ → Bool) → ℕ → ℕ → Bool
all_set f sector zero = true
all_set f sector (suc n) = f sector && all_set f (suc sector) n

abbrev pub set_multiple : (ℕ → Bool) → ℕ → ℕ → Bool → ℕ → Bool
set_multiple f sector cnt v s = if leb sector s && ltb s (sector + cnt) then v else f s

module _ {Disk : Type 0} (bitmap_write : (ℕ → Bool) → Cmd Disk Bool) where
  unfoldable pub free_map_release : ℕ → ℕ → Cmd Disk (Unit {0})
  free_map_release sector cnt = do
    (λ s. check (all_set s.free_map sector cnt) s)
    (λ s. some (tt, record s { free_map = set_multiple s.free_map sector cnt false }))
    (λ s. bitmap_write s.free_map s)
    pure tt

module _ {Disk : Type 0} (dev : BlockDevice Disk) (bitmap_write : (ℕ → Bool) → Cmd Disk Bool) where
  -- Releases the sectors up to the first that is -1: there the command goes on with `stopped`, after
  -- the last with `ended`.
  release_until : List ℕ → Cmd Disk (Unit {0}) → Cmd Disk (Unit {0}) → Cmd Disk (Unit {0})
  release_until [] stopped ended = ended
  release_until (x ∷ xs) stopped ended =
      let rest = release_until xs stopped ended in
      if x == no_sector then stopped else (free_map_release bitmap_write x 1 >> rest)

  -- The entries of the double-level block at `double`.
  release_second : ℕ → List ℕ → Cmd Disk (Unit {0})
  release_second double [] = free_map_release bitmap_write double 1
  release_second double (x ∷ xs) =
      let rest = release_second double xs in
      if x == no_sector then free_map_release bitmap_write double 1 else do
        b ← read_sector dev x
        release_until (words b)
            (free_map_release bitmap_write x 1 >> free_map_release bitmap_write double 1)
            (free_map_release bitmap_write x 1 >> rest)

  release_double : InodeDisk → Cmd Disk (Unit {0})
  release_double i =
      if i.double_level == no_sector
      then pure tt
      else do b ← read_sector dev i.double_level; release_second i.double_level (words b)

  release_single : InodeDisk → Cmd Disk (Unit {0})
  release_single i = if i.single_level == no_sector then pure tt else do
    b ← read_sector dev i.single_level
    release_until (words b) (free_map_release bitmap_write i.single_level 1)
        (free_map_release bitmap_write i.single_level 1 >> release_double i)

  -- The blocks of a removed inode.
  unfoldable pub release_blocks : Inode → Cmd Disk (Unit {0})
  unfolding release_until release_second release_double release_single
  release_blocks i = do
    free_map_release bitmap_write i.sector 1
    release_until i.disk.direct (pure tt) (release_single i.disk)

  -- What follows when the last opener closes the inode.
  unfoldable pub close_last : ℕ → Inode → Cmd Disk (Unit {0})
  close_last p i = do
    (λ s. some (tt, record s { open_inodes = remove p s.open_inodes }))
    (if i.removed then release_blocks i else pure tt)
    free_inode p

  -- An inode that nobody has open has no count to decrement.
  unfoldable pub inode_close : ℕ → Cmd Disk (Unit {0})
  inode_close p = if p == null then pure tt else do
    i ← deref p
    check (ltb 0 i.open_cnt)
    store p (record i { open_cnt = i.open_cnt - 1 })
    if i.open_cnt == 1 then close_last p i else pure tt
