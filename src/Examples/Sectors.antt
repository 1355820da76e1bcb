-- ===== src/Examples/Sectors.antt =====
-- Allocation in the free map of filesys/free-map.c, with a search of the first sectors.
use pintos.Prelude.{
  get_or, replicate, length-replicate, ltb, ◌==◌, if◌then◌else◌, Bool-cases, ℕ, zero, suc, ◌+◌, ◌-◌,
  ◌*◌, ◌/◌, ◌%◌, ◌≤◌, ◌<◌, ◌≡◌, refl, ◌≢◌, inl, inr, Bool, true, false, not, ◌&&◌, Option, none,
  some, [], ◌++◌, arith,
}
use pintos.Prelude.State.{pure, Returns}
use pintos.Block.Ram.{whole, RamDisk, ram_read, ram}
use pintos.Block.Words.{words}
use pintos.FreeMap.{IsScan, free_map_allocate}
use pintos.FreeMap.Laws.{Takes, free_map_allocate-Takes}
use pintos.Inode.{no_sector, inode_magic, InodeDisk, byte_to_sector}
use pintos.Inode.Index.{flat, IsBlock, IsIndex, byte_to_sector-IsIndex}
use pintos.Inode.Table.{Fs, Cmd}
use pintos.Inode.Table.Extend.{allocated, required, modified_length}
use pintos.Inode.Table.Grown.{modified_length_bounds}

abbrev all_clear : (ℕ → Bool) → ℕ → ℕ → Bool
all_clear f sector zero = true
all_clear f sector (suc n) = not (f sector) && all_clear f (suc sector) n

abbrev scan_from : ℕ → (ℕ → Bool) → ℕ → ℕ → Option ℕ
scan_from zero f cnt sector = none
scan_from (suc fuel) f cnt sector =
    let rest = scan_from fuel f cnt (suc sector) in
    if all_clear f sector cnt then some sector else rest

abbrev scan : (ℕ → Bool) → ℕ → Option ℕ
scan f cnt = scan_from 8 f cnt 0

all_clear-get :
    (f : ℕ → Bool) (sector n q : ℕ)
    → all_clear f sector n ≡ true
    → sector ≤ q
    → q < sector + n
    → f q ≡ false
all_clear-get f sector zero q h a b = absurd (omega arith)
all_clear-get f sector (suc n) q h a b = elim (Bool-cases (q == sector)) [
  | inl e ↦ ground arith
  | inr e ↦ all_clear-get f (suc sector) n q (ground arith) (ground arith) (omega arith)
]

scan_from-is_free :
    (fuel : ℕ) (f : ℕ → Bool) (cnt from sector q : ℕ)
    → scan_from fuel f cnt from ≡ some sector
    → sector ≤ q
    → q < sector + cnt
    → f q ≡ false
scan_from-is_free zero f cnt from sector q h a b = ground arith
scan_from-is_free (suc fuel) f cnt from sector q h a b = elim (Bool-cases (all_clear f from cnt)) [
  | inl e ↦
      let s : from ≡ sector = ground arith in
      all_clear-get f from cnt q e (omega arith) (omega arith)
  | inr e ↦ scan_from-is_free fuel f cnt (suc from) sector q (ground arith) a b
]

scan-IsScan : IsScan scan
scan-IsScan = record { is_free = λ f cnt sector q. scan_from-is_free 8 f cnt 0 sector q }

abbrev writes : (ℕ → Bool) → Cmd RamDisk Bool
writes f = pure true

-- The first two sectors are in use.
abbrev fresh_map : Fs RamDisk
fresh_map = record {
  device = λ s. [];
  inode = λ p. none;
  open_inodes = [];
  free_map = λ s. ltb s 2;
  file_lock = none;
}

free_map_allocate-Takes_example :
    Returns
      (λ r s'. Takes fresh_map.free_map 3 r s'.free_map)
      (free_map_allocate writes scan true 3 fresh_map)
free_map_allocate-Takes_example =
    free_map_allocate-Takes writes scan fresh_map 3 true scan-IsScan (λ s. refl)

modified_length_bounds_example :
    let l = modified_length 1024 (required 24 1024 - allocated 1024) in
    (1024 + 24 ≤ l)
    × (l % 512 ≡ 0)
    × ((1024 % 512 ≢ 0) → l ≡ required 24 1024 * 512)
    × (1024 % 512 ≡ 0 → l ≡ required 24 1024 * 512 + 512)
modified_length_bounds_example = modified_length_bounds 1024 24 1024 (omega arith) (omega arith)

-- A disk of zeros, and an inode of which all blocks of the index are there.
abbrev zeros : RamDisk
zeros = λ s. []

abbrev large : InodeDisk
large = record {
  direct = replicate 10 7;
  single_level = 3;
  double_level = 4;
  length = 8000000;
  magic = inode_magic;
  unused = replicate 114 0;
}

zeros-IsBlock : (sector : ℕ) → ltb sector 64 ≡ true → IsBlock ram zeros sector (replicate 128 0)
unfolding ram ram_read words
zeros-IsBlock sector h = record {
  contents = whole [];
  reads = rw h refl;
  entries = refl;
  full = length-replicate {A = ℕ} 128 0;
}

get_or-zeros : (n k : ℕ) → get_or (replicate {A = ℕ} n 0) k 0 ≡ 0
get_or-zeros zero k = refl
get_or-zeros (suc n) zero = refl
get_or-zeros (suc n) (suc k) = get_or-zeros n k

large-IsIndex : IsIndex ram zeros large (replicate 128 0) (replicate 128 0) (λ k. replicate 128 0)
large-IsIndex = record {
  direct_length = length-replicate {A = ℕ} 10 7;
  single_block = zeros-IsBlock 3 refl;
  double_block = zeros-IsBlock 4 refl;
  second_block = λ k h. rw (get_or-zeros 128 k) (zeros-IsBlock 0 refl);
}

byte_to_sector-IsIndex_example :
    byte_to_sector ram zeros large 100000
    ≡ some (
        if ltb (100000 / 512) 16522
        then get_or
            (replicate 10 7 ++ (replicate 128 0 ++ flat (λ k. replicate 128 0) 128))
            (100000 / 512)
            0
        else no_sector)
byte_to_sector-IsIndex_example =
    byte_to_sector-IsIndex ram zeros large (replicate 128 0) (replicate 128 0)
      (λ k. replicate 128 0) 100000 large-IsIndex
