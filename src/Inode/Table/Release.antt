-- ===== src/Inode/Table/Release.antt =====
-- The sectors that inode_close() of filesys/inode.c releases when a removed inode is closed for the
-- last time.
use pintos.Prelude.{
  ltb, leb, ◌==◌, if◌then◌else◌, ==_iff, Bool-cases, apart, ℕ, ◌+◌, ◌≡◌, refl, ap, ◌∙◌, ◌≢◌, inl,
  inr, Bool, true, false, ◌&&◌, ◌||◌, Option, none, some, List, [], ◌∷◌, ◌++◌, arith,
}
use pintos.Prelude.State.{pure, Returns, Returns-bind, Returns-mono}
use pintos.Block.{BlockDevice}
use pintos.FreeMap.{KeepsMap}
use pintos.Inode.{no_sector, InodeDisk}
use pintos.Inode.Table.{
  Inode, Fs, Cmd, put_inode, store, free_inode, set_multiple, free_map_release, release_blocks,
  close_last, inode_close, release_until, release_single,
}
use pintos.Inode.Table.Inv.{deref-ok}

abbrev pub Owned : (ℕ → Bool) → List ℕ → Type 0
Owned f [] = Unit {0}
Owned f (x ∷ xs) = (x ≢ no_sector) × (f x ≡ true) × Owned (set_multiple f x 1 false) xs

abbrev pub is_in : ℕ → List ℕ → Bool
is_in q [] = false
is_in q (x ∷ xs) = (q == x) || is_in q xs

-- The free map without some sectors.
abbrev pub without : List ℕ → (ℕ → Bool) → ℕ → Bool
without xs f q = if is_in q xs then false else f q

without-cons :
    (x : ℕ) (xs : List ℕ) (f : ℕ → Bool) (q : ℕ)
    → without xs (set_multiple f x 1 false) q ≡ without (x ∷ xs) f q
without-cons x xs f q = elim (Bool-cases (q == x)) [
  | inl e ↦
      let same : q ≡ x = (==_iff q x).0 e in
      let here : (leb x q && ltb q (x + 1)) ≡ true = ground arith in
      elim (Bool-cases (is_in q xs)) [ inl i ↦ rw (i, e) refl | inr i ↦ rw (i, e, here) refl ]
  | inr e ↦
      let differs = apart q x e in
      let there : (leb x q && ltb q (x + 1)) ≡ false = ground arith in rw (e, there) refl
]

module _ {Disk : Type 0} (bitmap_write : (ℕ → Bool) → Cmd Disk Bool)
    (keeps : KeepsMap bitmap_write) where
  release-one :
      (x : ℕ) (s : Fs Disk)
      → s.free_map x ≡ true
      → Returns
          (λ _ s'. s'.free_map ≡ set_multiple s.free_map x 1 false)
          (free_map_release bitmap_write x 1 s)
  unfolding free_map_release
  release-one x s h =
      let t = record s { free_map = set_multiple s.free_map x 1 false } in
      rw h (
        Returns-bind (λ _ s'. s'.free_map ≡ t.free_map) _ (bitmap_write t.free_map t) _ (keeps t)
          (λ ok s' e. e))

  module _ (dev : BlockDevice Disk) where
    release_until-without :
        (xs zs : List ℕ) (stopped ended : Cmd Disk (Unit {0})) (s : Fs Disk)
        → Owned s.free_map xs
        → ((t : Fs Disk)
            → Returns
                (λ _ t'. t'.free_map ≡ t.free_map)
                (release_until dev bitmap_write zs stopped ended t))
        → Returns
            (λ _ s'. (q : ℕ) → s'.free_map q ≡ without xs s.free_map q)
            (release_until dev bitmap_write (xs ++ zs) stopped ended s)
    unfolding release_until
    release_until-without [] zs stopped ended s h k =
        Returns-mono _ _ (release_until dev bitmap_write zs stopped ended s) (k s)
          (λ _ s' e q. ap (λ f. f q) e)
    release_until-without (x ∷ xs) zs stopped ended s (n, u, h) k =
        let is_sector : (x == no_sector) ≡ false = ground arith in
        rw is_sector (
          Returns-bind _ _ (free_map_release bitmap_write x 1 s) _ (release-one x s u) (λ _ t e.
            Returns-mono _ _ (release_until dev bitmap_write (xs ++ zs) stopped ended t)
              (release_until-without xs zs stopped ended t (rw e h) k)
              (λ _ s' r q. r q ∙ ap (λ f. without xs f q) e ∙ without-cons x xs s.free_map q)))

    -- What follows the sectors in `direct`: an entry that is -1, or nothing, and then no index block.
    abbrev pub Ends : InodeDisk → List ℕ → Type 0
    Ends i [] = i.single_level ≡ no_sector
    Ends i (z ∷ zs) = z ≡ no_sector

    nothing_more :
        (i : InodeDisk) (zs : List ℕ) (t : Fs Disk)
        → Ends i zs
        → Returns
            (λ _ t'. t'.free_map ≡ t.free_map)
            (release_until dev bitmap_write zs (pure tt) (release_single dev bitmap_write i) t)
    unfolding release_until release_single
    nothing_more i [] t h = rw h refl
    nothing_more i (z ∷ zs) t h = rw h refl

    release_blocks-without :
        (i : Inode) (xs zs : List ℕ) (s : Fs Disk)
        → i.disk.direct ≡ xs ++ zs
        → Ends i.disk zs
        → Owned s.free_map (i.sector ∷ xs)
        → Returns
            (λ _ s'. (q : ℕ) → s'.free_map q ≡ without (i.sector ∷ xs) s.free_map q)
            (release_blocks dev bitmap_write i s)
    unfolding release_blocks
    release_blocks-without i xs zs s d z (n, u, h) = rw d (
        Returns-bind _ _ (free_map_release bitmap_write i.sector 1 s) _ (release-one i.sector s u)
          (λ _ t e.
            Returns-mono _ _
              (release_until dev bitmap_write (xs ++ zs) (pure tt)
                (release_single dev bitmap_write i.disk) t)
              (release_until-without xs zs (pure tt) (release_single dev bitmap_write i.disk) t
                (rw e h) (λ t'. nothing_more i.disk zs t' z))
              (λ _ s' r q.
                r q ∙ ap (λ f. without xs f q) e ∙ without-cons i.sector xs s.free_map q)))

    -- When the last opener closes a removed inode, inode_close() succeeds: exactly the sector of the
    -- inode and those of its data become free, no other bit of the free map changes, and the inode is
    -- freed. All the sectors of the data are direct ones, and in use, none twice; bitmap_write() returns
    -- and keeps the map in memory.
    pub inode_close-without :
        (p : ℕ) (i : Inode) (xs zs : List ℕ) (s : Fs Disk)
        → p ≢ 0
        → s.inode p ≡ some i
        → i.open_cnt ≡ 1
        → i.removed ≡ true
        → i.disk.direct ≡ xs ++ zs
        → Ends i.disk zs
        → Owned s.free_map (i.sector ∷ xs)
        → Returns
            (λ _ s'.
              ((q : ℕ) → s'.free_map q ≡ without (i.sector ∷ xs) s.free_map q)
              × (s'.inode p ≡ none))
            (inode_close dev bitmap_write p s)
    unfolding inode_close close_last free_inode store release_blocks
    inode_close-without p i xs zs s l e c r d z h =
        let live : (p == 0) ≡ false = ground arith in
        rw live (
          rw (deref-ok p i s e) (
            rw (c, r)
              (Returns-bind _ _ (release_blocks dev bitmap_write i _) _
                (release_blocks-without i xs zs _ d z h) (λ _ s' w. (w, put_here s'.inode p)))))
      where
        put_here : (f : ℕ → Option Inode) (q : ℕ) → put_inode f q none q ≡ none
        put_here f q = ground arith
