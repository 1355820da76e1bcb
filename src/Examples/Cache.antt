-- ===== src/Examples/Cache.antt =====
-- The buffer cache of filesys/filesys.c on a disk in memory.
use pintos.Prelude.{
  length, replicate, length-replicate, ℕ, suc, ◌+◌, ◌/◌, ◌≤◌, ◌<◌, ◌≡◌, refl, ◌⊎◌, true, false,
  none, some, List, [], ◌∷◌, arith,
}
use pintos.Prelude.State.{pure, ◌>>◌, Returns}
use pintos.Block.Ram.{whole, RamDisk, ram_read, ram}
use pintos.Cache.{sweep, cache_write_back, find_cache_block, file_write_back}
use pintos.Cache.Coherent.{Coherent}
use pintos.Cache.Find.{find_cache_block-Held}
use pintos.Cache.Load.{Held}
use pintos.Cache.Lost.{cache_write_back-lost}
use pintos.Cache.Read.End.{read_rounds, read_user_past_end, file_read_user-file_bytes}
use pintos.Cache.Saved.{file_write_back-file_write_at_user}
use pintos.Cache.Sweep.{Swept, sweep-Swept}
use pintos.Cache.User.{read_user, file_read_at_user, file_read_user, file_write_at_user}
use pintos.Cache.Write.{file_read_at_user-file_write_at_user}
use pintos.Examples.FileSystem.{small-IsMapped, a_file, one_file}
use pintos.Examples.Inodes.{small, counting, one_open, one_open_fs}
use pintos.Inode.Bytes.{file_bytes}
use pintos.Machine.{Machine}
use pintos.System.{CacheBlock, System}

abbrev empty_block : CacheBlock
empty_block = record {
  contents = replicate 512 0;
  dirty = false;
  accessed = false;
  inode = 0;
  block_no = 0;
  valid = false;
  size = 0;
  block_lock = none;
}

abbrev pub a_machine : Machine RamDisk
a_machine = record {
  dev = ram;
  bitmap_write = λ f. pure true;
  bitmap_scan = λ f n. none;
  free_map_file = true;
  bounce = true;
  cur = 1;
  unset = replicate 24 0;
  unset_null = true;
}

abbrev pub a_system : System RamDisk
a_system = record {
  files = one_file;
  buffer_cache = λ i. empty_block;
  buffer_iter = 3;
  dir = λ p. none;
  path = 0;
  pwd = (1, 7) ∷ [];
  mallocs = [];
}

pub empty-Coherent : Coherent ram one_open_fs a_system.buffer_cache
empty-Coherent = record {
  clean = λ i l. record {
    unlocked = refl;
    not_dirty = refl;
    whole = length-replicate {A = ℕ} 512 0;
    fits = omega arith;
    stored = λ v. ground arith;
  };
  sole = λ i j l k h. ground (arith, h.0);
}

sweep-Swept_example :
    (j : ℕ) × ((g : ℕ → CacheBlock) × (sweep 65 (λ i. record empty_block { accessed = true }) 3
        ≡ some (j, g))
      × Swept (λ i. record empty_block { accessed = true }) j g)
sweep-Swept_example = sweep-Swept (λ i. record empty_block { accessed = true }) 3 (omega arith)

find_cache_block-Held_example :
    Returns
      (λ i s'. Held a_machine a_system 5 (600 / 512) i s')
      (find_cache_block a_machine 5 600 a_system)
find_cache_block-Held_example =
    find_cache_block-Held a_machine a_system 5 600 one_open refl refl small-IsMapped empty-Coherent
      (omega arith)

file_read_user-file_bytes_example :
    Returns
      (λ bs s'.
        (bs ≡ file_bytes ram counting small 0 600)
        × (s'.files.file 3 ≡ some (record a_file { pos = 600 }))
        × (s'.files.fs ≡ one_open_fs)
        × Coherent ram one_open_fs s'.buffer_cache)
      (file_read_user a_machine 601 3 600 a_system)
file_read_user-file_bytes_example =
    file_read_user-file_bytes a_machine 601 a_system 3 600 a_file one_open refl (omega arith) refl
      (omega arith) refl small-IsMapped empty-Coherent (omega arith)

read_user_past_end_example :
    Returns
      (λ r s'. (0 < r.0) × (r.1 ≤ 700) × (r.1 + r.0 ≡ 710) × (s'.files ≡ a_system.files))
      (read_rounds a_machine 1000 5 20 690 a_system)
    × (read_user a_machine 1000 5 20 690 a_system ≡ none)
read_user_past_end_example =
    read_user_past_end a_machine 1000 a_system 5 20 690 one_open refl (omega arith) (omega arith)
      refl small-IsMapped empty-Coherent (omega arith)

file_read_at_user-file_write_at_user_example :
    Returns
      (λ bs _. bs ≡ 1 ∷ 2 ∷ 3 ∷ [])
      ((file_write_at_user a_machine 4 3 (1 ∷ 2 ∷ 3 ∷ []) 3 600
          >> file_read_at_user a_machine 4 3 3 600)
        a_system)
file_read_at_user-file_write_at_user_example =
    file_read_at_user-file_write_at_user a_machine a_system 3 (1 ∷ 2 ∷ 3 ∷ []) 600 a_file one_open
      refl (omega arith) (omega arith) (omega arith) refl refl refl small-IsMapped empty-Coherent
      (omega arith)

abbrev a_sector : List ℕ
a_sector = replicate 512 7

file_write_back-file_write_at_user_example :
    Returns
      (λ _ s'.
        (file_bytes ram s'.files.fs.device small 0 512 ≡ a_sector)
        × ((r : ℕ) → (r ≡ 20) ⊎ (ram.block_read s'.files.fs.device r ≡ ram.block_read counting r)))
      ((file_write_at_user a_machine (suc (length a_sector)) 3 a_sector (length a_sector) 0
          >> file_write_back a_machine 5)
        a_system)
unfolding ram ram_read
file_write_back-file_write_at_user_example =
    file_write_back-file_write_at_user a_machine a_system 3 a_sector (whole (counting 20)) 0 a_file
      one_open refl refl refl (omega arith) (omega arith) refl refl refl refl small-IsMapped
      empty-Coherent (omega arith)

-- Three bytes of the first sector of the file have been written.
abbrev written_system : System RamDisk
written_system = record a_system {
  buffer_cache = λ i. record empty_block {
    dirty = true;
    valid = true;
    inode = 5;
    size = 3;
    contents = 1 ∷ 2 ∷ 3 ∷ replicate 509 0;
  };
}

cache_write_back-lost_example :
    Returns
      (λ r s'.
        (r ≡ true)
        × (s'.files ≡ written_system.files)
        × ((s'.buffer_cache 4).dirty ≡ false)
        × ((s'.buffer_cache 4).contents ≡ (written_system.buffer_cache 4).contents)
        × ((j : ℕ) → (j ≡ 4) ⊎ (s'.buffer_cache j ≡ written_system.buffer_cache j)))
      (cache_write_back a_machine 4 written_system)
cache_write_back-lost_example =
    cache_write_back-lost a_machine written_system 4 one_open refl refl (omega arith) (omega arith)
      (omega arith) refl refl small-IsMapped
