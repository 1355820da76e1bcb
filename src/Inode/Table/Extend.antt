-- ===== src/Inode/Table/Extend.antt =====
-- file_extension() of filesys/inode.c. malloc() gives memory for the lists of the function; the list
-- of new sectors ends where the source has -1. An index that free_map_allocate() leaves unset is a
-- fault (`none`).
use pintos.Prelude.{
  length, replicate, ◌==◌, if◌then◌else◌, ℕ, zero, suc, ◌+◌, ◌-◌, ◌*◌, ◌/◌, ◌%◌, Bool, true, false,
  not, Option, none, some, List, [], ◌∷◌,
}
use pintos.Prelude.State.{pure, ◌>>=◌, ◌>>◌, branch, when, lift}
use pintos.Block.{block_sector_size}
use pintos.Block.Words.{words, bytes}
use pintos.FreeMap.{free_map_allocate}
use pintos.Inode.{no_sector, InodeDisk, disk_words, byte_to_sector}
use pintos.Inode.Table.{Cmd, deref, store, read_sector, write_sector}
use pintos.Machine.{Machine}

abbrev pub keep_entry : ℕ → List ℕ × List ℕ → List ℕ × List ℕ
keep_entry x (xs, ys) = (x ∷ xs, ys)

-- Puts sectors into the entries that are -1, in order: the new entries, and the sectors left over.
unfoldable pub fill : List ℕ → List ℕ → List ℕ × List ℕ
fill [] ys = ([], ys)
fill (x ∷ xs) [] = (x ∷ xs, [])
fill (x ∷ xs) (y ∷ ys) =
    let taken = fill xs ys in
    let kept = fill xs (y ∷ ys) in if x == no_sector then keep_entry y taken else keep_entry x kept

-- The sectors that the file has, and the sectors that it has to have.
unfoldable pub allocated : ℕ → ℕ
allocated length = if length == 0 then 0 else (length - 1) / block_sector_size + 1

unfoldable pub required : ℕ → ℕ → ℕ
required size offset = (offset + size - 1) / block_sector_size + 1

-- The length after `n` sectors have been added.
unfoldable pub modified_length : ℕ → ℕ → ℕ
modified_length length n =
    length + (block_sector_size - length % block_sector_size + n * block_sector_size)

-- `level2_1`, and the block of its entry that was filled last with its sector.
pub record Double : Type 0 where
  pub level2_1 : List ℕ
  pub level2_2 : List ℕ
  pub sector2_2 : ℕ

pub record Levels : Type 0 where
  pub disk_inode : InodeDisk
  pub level1 : Option (List ℕ)
  pub level2 : Option Double

abbrev pub is_nil : List ℕ → Bool
is_nil [] = true
is_nil (_ ∷ _) = false

module _ {Disk : Type 0} (m : Machine Disk) where
  -- The locks of threads/synch.h, as their users rely on them: a lock that its own thread holds fails
  -- the assertion, and nobody else holds it while an operation runs alone.
  unfoldable pub lock_acquire : Cmd Disk (Unit {0})
  lock_acquire s = elim s.file_lock [
    | some h ↦ none
    | none ↦ some (tt, record s { file_lock = some m.cur })
  ]

  unfoldable pub lock_release : Cmd Disk (Unit {0})
  lock_release s = elim s.file_lock [
    | none ↦ none
    | some h ↦ if h == m.cur then some (tt, record s { file_lock = none }) else none
  ]

  unfoldable pub allocate_one : Cmd Disk (Option ℕ)
  allocate_one = free_map_allocate m.bitmap_write m.bitmap_scan m.free_map_file 1

  abbrev pub allocate_more : Option ℕ → Cmd Disk (List ℕ) → Cmd Disk (List ℕ)
  allocate_more none rest = pure []
  allocate_more (some x) rest = do xs ← rest; pure (x ∷ xs)

  -- Up to `n` sectors. The block of `n + 1` bytes that the source writes the list into is too short for
  -- it: what lies behind the block is not modelled.
  unfoldable pub allocate_list : ℕ → Cmd Disk (List ℕ)
  allocate_list zero = pure []
  allocate_list (suc n) = do r ← allocate_one; allocate_more r (allocate_list n)

  -- The sector of an index block, and its entries: a new block has none.
  unfoldable pub open_level : ℕ → Cmd Disk (ℕ × List ℕ)
  open_level x =
      branch (x == no_sector) (do r ← allocate_one; s ← lift r; pure (s, replicate 128 no_sector))
        (do b ← read_sector m.dev x; pure (x, words b))

  -- The loop over the entries of `level2_1`; `last` is the last block filled.
  unfoldable pub grow_second : ℕ × List ℕ → List ℕ → List ℕ → Cmd Disk (List ℕ × (ℕ × List ℕ))
  grow_second last [] slist = pure ([], last)
  grow_second last (x ∷ xs) slist = do
    (s, l) ← open_level x
    let (l', rest) = fill l slist
    branch (is_nil rest) (pure (s ∷ xs, (s, l'))) (do
      when (not (length rest == length slist)) (write_sector m.dev s (bytes l'))
      (ys, last') ← grow_second (s, l') xs rest
      pure (s ∷ ys, last'))

  unfoldable pub grow_double : InodeDisk → List ℕ → List ℕ → Cmd Disk Levels
  grow_double i l [] = pure (record { disk_inode = i; level1 = some l; level2 = none })
  grow_double i l (y ∷ ys) = do
    (s, entries) ← open_level i.double_level
    (entries', (s2, l2)) ← grow_second (no_sector, []) entries (y ∷ ys)
    pure (record {
      disk_inode = record i { double_level = s };
      level1 = some l;
      level2 = some (record { level2_1 = entries'; level2_2 = l2; sector2_2 = s2 });
    })

  unfoldable pub grow_single : InodeDisk → List ℕ → Cmd Disk Levels
  unfolding grow_double
  grow_single i [] = pure (record { disk_inode = i; level1 = none; level2 = none })
  grow_single i (y ∷ ys) = do
    (s, l) ← open_level i.single_level
    let (l', rest) = fill l (y ∷ ys)
    grow_double (record i { single_level = s }) l' rest

  -- The new sectors are put into the index, level after level, until none is left.
  unfoldable pub grow : InodeDisk → List ℕ → Cmd Disk Levels
  unfolding grow_single
  grow i slist =
      let (direct, rest) = fill i.direct slist in grow_single (record i { direct = direct }) rest

  write_level1 : ℕ → Option (List ℕ) → Cmd Disk (Unit {0})
  write_level1 s none = pure tt
  write_level1 s (some l) = write_sector m.dev s (bytes l)

  write_level2 : ℕ → Option Double → Cmd Disk (Unit {0})
  write_level2 s none = pure tt
  write_level2 s (some d) = do
    write_sector m.dev d.sector2_2 (bytes d.level2_2)
    write_sector m.dev s (bytes d.level2_1)

  -- From the label `fin` on.
  unfoldable pub finish : ℕ → ℕ → Levels → Cmd Disk (Unit {0})
  unfolding write_level1 write_level2
  finish p length g = do
    i ← deref p
    let d = record g.disk_inode { length = length }
    write_sector m.dev i.sector (bytes (disk_words d))
    store p (record i { disk = d })
    write_level1 d.single_level g.level1
    write_level2 d.double_level g.level2

  -- byte_to_sector() of the end of a file that ends inside a sector; its value is not used.
  find_last : InodeDisk → Cmd Disk (Unit {0})
  find_last i s = elim (byte_to_sector m.dev s.device i i.length) [
    | none ↦ none
    | some _ ↦ some (tt, s)
  ]

  unfoldable pub file_extension : ℕ → ℕ → ℕ → Cmd Disk (Unit {0})
  unfolding find_last
  file_extension p size offset = do
    lock_acquire
    i ← deref p
    slist ← allocate_list (required size offset - allocated i.disk.length)
    when (not (i.disk.length % block_sector_size == 0)) (find_last i.disk)
    g ← grow i.disk slist
    finish p (modified_length i.disk.length (length slist)) g
    lock_release
