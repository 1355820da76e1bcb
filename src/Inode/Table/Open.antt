-- ===== src/Inode/Table/Open.antt =====
-- inode_open() and inode_reopen() of filesys/inode.c.
use pintos.Prelude.{
  ◌==◌, ℕ, ◌+◌, ◌≤◌, ◌<◌, ◌≡◌, refl, ap, ◌≢◌, false, Option, none, some, List, ◌∷◌, arith,
}
use pintos.Prelude.State.{Returns}
use pintos.Block.{BlockDevice}
use pintos.Block.Words.{words}
use pintos.Inode.{of_words}
use pintos.Inode.Table.{
  Inode, Fs, put_inode, find_open, deref, store, inode_reopen, read_sector, inode_open, open_new,
}
use pintos.Inode.Table.Inv.{IsTable, Finds, find_open-Finds, updated-IsTable, added-IsTable}
use pintos.KernelList.{count}
use pintos.Thread.{null}

module _ {Disk : Type 0} (dev : BlockDevice Disk) where
  pub reopen-ok :
      (p : ℕ) (i : Inode) (s : Fs Disk)
      → p ≢ null
      → s.inode p ≡ some i
      → inode_reopen p s
        ≡ some (
          p,
          record s { inode = put_inode s.inode p (some (record i { open_cnt = i.open_cnt + 1 })) },
        )
  unfolding inode_reopen deref store
  reopen-ok p i s h e = ground arith

  -- With the list of open inodes in order, opening the sector of an inode of the list gives that
  -- inode again, with one opener more, and changes nothing else.
  pub inode_open-again :
      (fresh p : ℕ) (i : Inode) (s : Fs Disk)
      → IsTable s.inode s.open_inodes
      → 0 < count p s.open_inodes
      → s.inode p ≡ some i
      → inode_open dev fresh i.sector s
        ≡ some (
          p,
          record s { inode = put_inode s.inode p (some (record i { open_cnt = i.open_cnt + 1 })) },
        )
  unfolding inode_open
  inode_open-again fresh p i s t h e =
      rw (found, inode_open) (reopen-ok p i s (ground (arith, t.not_null)) e)
    where
      unique : (r : Option (Option ℕ)) → Finds s.inode i.sector s.open_inodes r → r ≡ some (some p)
      unique none f = absurd f
      unique (some none) f = absurd (f p i h e refl)
      unique (some (some q)) f = ap (λ x. some (some x)) (t.sole q p f.1.0 i f.0 h f.1.1 e f.1.2)

      found : find_open s.inode i.sector s.open_inodes ≡ some (some p)
      found = unique _ (find_open-Finds s.inode i.sector s.open_inodes t.live)

  new_inode : ℕ → List ℕ → Inode
  new_inode sector b = record {
    sector = sector;
    open_cnt = 1;
    removed = false;
    deny_write_cnt = 0;
    disk = of_words (words b);
  }

  open_new-ok :
      (fresh sector : ℕ) (b : List ℕ) (s : Fs Disk)
      → fresh ≢ null
      → dev.block_read s.device sector ≡ some b
      → open_new dev fresh sector s
        ≡ some (
          fresh,
          record s {
            inode = put_inode s.inode fresh (some (new_inode sector b));
            open_inodes = fresh ∷ s.open_inodes;
          },
        )
  unfolding open_new read_sector store new_inode
  open_new-ok fresh sector b s ne e =
      let z : (fresh == null) ≡ false = ground arith in rw z (rw (e, read_sector) refl)

  -- inode_open() of a readable sector, when malloc() gives memory that is not in use, gives an open
  -- inode of that sector, which is in the list, and keeps the list in order: no sector has two inodes,
  -- whether the inode was open or not.
  pub inode_open-IsTable :
      (fresh sector : ℕ) (b : List ℕ) (s : Fs Disk)
      → IsTable s.inode s.open_inodes
      → fresh ≢ null
      → s.inode fresh ≡ none
      → dev.block_read s.device sector ≡ some b
      → Returns
          (λ p s'.
            IsTable s'.inode s'.open_inodes
            × (0 < count p s'.open_inodes)
            × ((i : Inode) × (s'.inode p ≡ some i) × (i.sector ≡ sector)))
          (inode_open dev fresh sector s)
  unfolding inode_open new_inode
  inode_open-IsTable fresh sector b s t ne e r =
      by_search (find_open s.inode sector s.open_inodes)
        (find_open-Finds s.inode sector s.open_inodes t.live) refl
    where
      Opened : ℕ → Fs Disk → Type 0
      Opened p s' =
          IsTable s'.inode s'.open_inodes
          × (0 < count p s'.open_inodes)
          × ((i : Inode) × (s'.inode p ≡ some i) × (i.sector ≡ sector))

      by_search :
          (x : Option (Option ℕ))
          → Finds s.inode sector s.open_inodes x
          → find_open s.inode sector s.open_inodes ≡ x
          → Returns Opened (inode_open dev fresh sector s)
      by_search none f h = absurd f
      by_search (some none) f h =
          rw (h, inode_open)
            (rw (open_new-ok fresh sector b s ne r) (
              added-IsTable s.inode s.open_inodes fresh (new_inode sector b) t ne e f (omega arith)
                  (omega arith),
              ground arith,
              (new_inode sector b, ground arith, refl),
            ))
      by_search (some (some p)) f h =
          let (m, (i, g, k)) = f in
          let o = t.live p m in
          let same : o.node ≡ i = ground (arith, o.points) in
          let d : i.deny_write_cnt ≤ i.open_cnt + 1 = rw (← same) (omega (arith, o.denied)) in
          rw (h, inode_open)
            (rw (reopen-ok p i s (ground (arith, t.not_null)) g) (
              updated-IsTable s.inode s.open_inodes p i _ t g refl (omega arith) d,
              m,
              (record i { open_cnt = i.open_cnt + 1 }, ground arith, k),
            ))
