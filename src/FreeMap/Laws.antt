-- ===== src/FreeMap/Laws.antt =====
-- free_map_allocate() and free_map_release() of filesys/free-map.c.
use pintos.Prelude.{
  ltb, leb, if◌then◌else◌, ℕ, zero, suc, ◌+◌, ◌≤◌, ◌<◌, ◌≡◌, refl, ap, ◌∙◌, Bool, true, false, ◌&&◌,
  ◌||◌, Option, none, some, arith,
}
use pintos.Prelude.State.{pure, and_then, ◌>>◌, Returns}
use pintos.FreeMap.{IsScan, KeepsMap, mark, write_allocated, take_sectors, free_map_allocate}
use pintos.Inode.Table.{Fs, Cmd, all_set, set_multiple, free_map_release}

abbrev pub within : ℕ → ℕ → ℕ → Bool
within sector cnt q = leb sector q && ltb q (sector + cnt)

-- From `f` to `f'` the sectors of the result, which were free, have been taken, and nothing else has
-- changed.
abbrev pub Takes : (ℕ → Bool) → ℕ → Option ℕ → (ℕ → Bool) → Type 0
Takes f cnt none f' = (q : ℕ) → f' q ≡ f q
Takes f cnt (some sector) f' =
    (q : ℕ) → ((within sector cnt q && f q) ≡ false) × (f' q ≡ (within sector cnt q || f q))

module _ {Disk : Type 0} (bitmap_write : (ℕ → Bool) → Cmd Disk Bool) where
  -- The three ends of an allocation.
  write_allocated-Takes :
      (scan : (ℕ → Bool) → ℕ → Option ℕ) (s : Fs Disk) (cnt sector : ℕ)
      → IsScan scan
      → KeepsMap bitmap_write
      → scan s.free_map cnt ≡ some sector
      → (opened : Bool)
      → Returns
          (λ r s'. Takes s.free_map cnt r s'.free_map)
          (write_allocated bitmap_write opened cnt sector
            (record s { free_map = set_multiple s.free_map sector cnt true }))
  unfolding write_allocated
  write_allocated-Takes scan s cnt sector i k e false =
      λ q. (ground (arith, i.is_free s.free_map cnt sector q e), ground arith)
  write_allocated-Takes scan s cnt sector i k e true =
      let t = record s { free_map = set_multiple s.free_map sector cnt true } in
      by_result (bitmap_write t.free_map t) (k t)
    where
      by_result :
          (r : Option (Bool × Fs Disk))
          → Returns (λ _ s'. s'.free_map ≡ set_multiple s.free_map sector cnt true) r
          → Returns
              (λ r s'. Takes s.free_map cnt r s'.free_map)
              (and_then r (λ ok.
                if ok
                then pure (some sector)
                else do mark bitmap_write sector cnt false; pure none))
      by_result none h = h
      by_result (some (true, s')) h =
          λ q. (ground (arith, i.is_free s.free_map cnt sector q e), ap (λ g. g q) h ∙ ground arith)
      by_result (some (false, s')) h =
          λ q. ground (arith, ap (λ g. g q) h, i.is_free s.free_map cnt sector q e)

  -- free_map_allocate() always returns. If it gives a sector, that one and those after it, `cnt` in
  -- all, were free and are in use now, and no other sector has changed; if it gives none, also when the
  -- map cannot be written to its file, the map is as before. bitmap_scan_and_flip() must find free
  -- sectors, and bitmap_write() must return and keep the map in memory.
  pub free_map_allocate-Takes :
      (scan : (ℕ → Bool) → ℕ → Option ℕ) (s : Fs Disk) (cnt : ℕ) (opened : Bool)
      → IsScan scan
      → KeepsMap bitmap_write
      → Returns
          (λ r s'. Takes s.free_map cnt r s'.free_map)
          (free_map_allocate bitmap_write scan opened cnt s)
  unfolding free_map_allocate take_sectors
  free_map_allocate-Takes scan s cnt opened i k = by_scan (scan s.free_map cnt) refl
    where
      by_scan :
          (r : Option ℕ)
          → scan s.free_map cnt ≡ r
          → Returns
              (λ r s'. Takes s.free_map cnt r s'.free_map)
              (take_sectors bitmap_write opened cnt r s)
      by_scan none e = λ q. refl
      by_scan (some sector) e = write_allocated-Takes scan s cnt sector i k e opened

  all_set-within :
      (f : ℕ → Bool) (sector cnt : ℕ)
      → ((q : ℕ) → sector ≤ q → q < sector + cnt → f q ≡ true)
      → all_set f sector cnt ≡ true
  all_set-within f sector zero h = refl
  all_set-within f sector (suc n) h =
      rw (h sector (omega arith) (omega arith))
        (all_set-within f (suc sector) n (λ q a b. h q (omega arith) (omega arith)))

  -- Sectors that have been taken can be released, and then the map is as it was before they were
  -- taken, when bitmap_write() returns and keeps the map in memory.
  pub free_map_release-Takes :
      (f : ℕ → Bool) (s : Fs Disk) (cnt sector : ℕ)
      → KeepsMap bitmap_write
      → Takes f cnt (some sector) s.free_map
      → Returns (λ _ s'. (q : ℕ) → s'.free_map q ≡ f q) (free_map_release bitmap_write sector cnt s)
  unfolding free_map_release
  free_map_release-Takes f s cnt sector k t =
      let u = record s { free_map = set_multiple s.free_map sector cnt false } in
      let used : all_set s.free_map sector cnt ≡ true =
        all_set-within s.free_map sector cnt (λ q a b. ground (arith, (t q).1)) in
      rw used (by_result (bitmap_write u.free_map u) (k u))
    where
      by_result :
          (r : Option (Bool × Fs Disk))
          → Returns (λ _ s'. s'.free_map ≡ set_multiple s.free_map sector cnt false) r
          → Returns (λ _ s'. (q : ℕ) → s'.free_map q ≡ f q) (and_then r (λ _. pure tt))
      by_result none h = h
      by_result (some (b, s')) h = λ q. ground (arith, ap (λ g. g q) h, (t q).0, (t q).1)
