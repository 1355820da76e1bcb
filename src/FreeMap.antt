-- ===== src/FreeMap.antt =====
-- The free map of filesys/free-map.c: allocation. bitmap_scan_and_flip() and bitmap_write() of
-- lib/kernel/bitmap.c are parameters.
pub mod Laws
use pintos.Prelude.{if◌then◌else◌, ℕ, ◌+◌, ◌≤◌, ◌<◌, ◌≡◌, Bool, true, false, Option, none, some}
use pintos.Prelude.State.{pure, ◌>>=◌, ◌>>◌, Returns}
use pintos.Inode.Table.{Fs, Cmd, set_multiple}

-- `scan` gives the first of `cnt` consecutive sectors that are free, if there are such sectors.
pub record IsScan (scan : (ℕ → Bool) → ℕ → Option ℕ) : Type 0 where
  pub is_free :
      (f : ℕ → Bool) (cnt sector q : ℕ)
      → scan f cnt ≡ some sector
      → sector ≤ q
      → q < sector + cnt
      → f q ≡ false

-- bitmap_write() gives a result, and leaves the bitmap in memory as it is.
abbrev pub KeepsMap : {Disk : Type 0} → ((ℕ → Bool) → Cmd Disk Bool) → Type 0
KeepsMap bitmap_write =
    (s : Fs _) → Returns (λ _ s'. s'.free_map ≡ s.free_map) (bitmap_write s.free_map s)

module _ {Disk : Type 0} (bitmap_write : (ℕ → Bool) → Cmd Disk Bool) where
  -- bitmap_set_multiple ()
  abbrev pub mark : ℕ → ℕ → Bool → Cmd Disk (Unit {0})
  mark sector cnt v = λ s. some (tt, record s { free_map = set_multiple s.free_map sector cnt v })

  -- With the sectors taken: the map is written to its file, if that is open, and the sectors are
  -- given back when this fails.
  unfoldable pub write_allocated : Bool → ℕ → ℕ → Cmd Disk (Option ℕ)
  write_allocated free_map_file cnt sector =
      if free_map_file
      then (do
        ok ← (λ s. bitmap_write s.free_map s)
        if ok then pure (some sector) else do mark sector cnt false; pure none)
      else pure (some sector)

  unfoldable pub take_sectors : Bool → ℕ → Option ℕ → Cmd Disk (Option ℕ)
  take_sectors free_map_file cnt none = pure none
  take_sectors free_map_file cnt (some sector) =
      mark sector cnt true >> write_allocated free_map_file cnt sector

  -- `free_map_file` says whether the file is open; the result is the first sector, if the code
  -- returns true.
  unfoldable pub free_map_allocate : ((ℕ → Bool) → ℕ → Option ℕ) → Bool → ℕ → Cmd Disk (Option ℕ)
  unfolding take_sectors write_allocated
  free_map_allocate scan free_map_file cnt s =
      take_sectors free_map_file cnt (scan s.free_map cnt) s
