-- ===== src/Cache/Filled.antt =====
-- A block of the buffer cache of filesys/filesys.c after a write of file_write_user() of filesys/file.c.
use Prim.Native.Nat.{max}
use pintos.Prelude.{
  length, take, drop, length-take, take-append, take_all, drop-append, leb, ◌==◌, ==_iff,
  Bool-cases, ℕ, ◌+◌, ◌/◌, ◌%◌, ◌≤◌, ◌<◌, ◌≡◌, refl, sym, ap, ◌∙◌, inl, inr, true, none, some, List,
  [], ◌∷◌, ◌++◌, arith,
}
use pintos.Cache.{holds_key}
use pintos.Cache.Coherent.{SameKey}
use pintos.Cache.Load.{unlocked, set_block_here, Held}
use pintos.Cache.Read.{release-ok}
use pintos.Cache.User.{round_size, fill_block}
use pintos.Machine.{Machine}
use pintos.System.{CacheBlock, System, set_block}

-- A block that takes `n` bytes of a buffer.
abbrev pub overwritten : ℕ → ℕ → List ℕ → CacheBlock → CacheBlock
overwritten n ofs buffer b = record b {
  size = max (n + ofs) b.size;
  contents = take ofs b.contents ++ (take n buffer ++ drop (ofs + n) b.contents);
  accessed = true;
  dirty = true;
}

-- The system after a round of writing in block `i`, with its lock open again.
abbrev pub filled : {Disk : Type 0} → ℕ → ℕ → List ℕ → System Disk → System Disk
filled i p buffer s =
    let b = overwritten (length buffer) (p % 512) buffer (s.buffer_cache i) in
    let f = set_block s.buffer_cache i b in
    record s { buffer_cache = set_block f i (unlocked (f i)) }

overwritten-slice :
    (b : CacheBlock) (buffer : List ℕ) (ofs : ℕ)
    → ofs ≤ length b.contents
    → take (length buffer) (drop ofs (overwritten (length buffer) ofs buffer b).contents) ≡ buffer
overwritten-slice b buffer ofs h =
    let x = take ofs b.contents in
    let y = drop (ofs + length buffer) b.contents in
    let l : length x ≡ ofs = omega (arith, length-take ofs b.contents) in
    let all : take (length buffer) buffer ≡ buffer = take_all buffer (length buffer) refl in
    let skip : drop ofs (x ++ (buffer ++ y)) ≡ buffer ++ y =
      ap (λ k. drop k (x ++ (buffer ++ y))) (sym l) ∙ drop-append x (buffer ++ y) in
    rw (all, skip) (take-append buffer y)

pub no_more : (bs : List ℕ) → bs ++ [] ≡ bs
no_more [] = refl
no_more (x ∷ bs) = ap (λ r. x ∷ r) (no_more bs)

module _ {Disk : Type 0} (m : Machine Disk) where
  pub fill_block-ok :
      (s : System Disk) (i len : ℕ) (buffer : List ℕ) (size p : ℕ)
      → p ≤ len
      → (s.buffer_cache i).block_lock ≡ some m.cur
      → let b = overwritten (round_size len size p) (p % 512) buffer (s.buffer_cache i) in
        let f = set_block s.buffer_cache i b in
        fill_block m i len buffer size p s
        ≡ some (tt, record s { buffer_cache = set_block f i (unlocked (f i)) })
  unfolding fill_block
  fill_block-ok s i len buffer size p h l =
      let b = overwritten (round_size len size p) (p % 512) buffer (s.buffer_cache i) in
      let inside : leb p len ≡ true = ground arith in
      let held = ap (λ x. x.block_lock) (set_block_here s.buffer_cache i b) ∙ l in
      rw inside (release-ok m (record s { buffer_cache = set_block s.buffer_cache i b }) i held)

  -- Block `i`, and no other, is that of position `p`, and holds the buffer there.
  pub record Filled (s : System Disk) (inode p : ℕ) (buffer : List ℕ) (s' : System Disk)
      : Type 0 where
    pub index : ℕ
    pub bound : index < 64
    pub same_files : s'.files ≡ s.files
    pub lock : (s'.buffer_cache index).block_lock ≡ none
    pub has_key : holds_key inode (p / 512) (s'.buffer_cache index) ≡ true
    pub sole : (j : ℕ) → j < 64 → holds_key inode (p / 512) (s'.buffer_cache j) ≡ true → j ≡ index
    pub bytes_held : take (length buffer) (drop (p % 512) (s'.buffer_cache index).contents) ≡ buffer

  key-SameKey :
      (inode k : ℕ) (b c : CacheBlock)
      → b.valid ≡ true
      → b.inode ≡ inode
      → b.block_no ≡ k
      → holds_key inode k c ≡ true
      → SameKey c b
  key-SameKey inode k b c v i n h = ((ground arith), (v ∙ refl), (ground arith), (ground arith))

  pub Held-Filled :
      (s s' : System Disk) (inode i p : ℕ) (buffer : List ℕ)
      → Held m s inode (p / 512) i s'
      → Filled s inode p buffer (filled i p buffer s')
  Held-Filled s s' inode i p buffer r =
      let old = s'.buffer_cache i in
      let b = overwritten (length buffer) (p % 512) buffer old in
      let f = set_block s'.buffer_cache i b in
      let g = set_block f i (unlocked (f i)) in
      let at : g i ≡ unlocked b =
        set_block_here f i _ ∙ ap unlocked (set_block_here s'.buffer_cache i b) in
      let whole = (r.coherent.clean i r.bound).whole in
      let long : length old.contents ≡ 512 =
        ap (λ x. length x.contents) (sym (set_block_here s'.buffer_cache i (unlocked old)))
        ∙ whole in
      record {
        index = i;
        bound = r.bound;
        same_files = r.same_files;
        lock = ap (λ x. x.block_lock) at;
        has_key =
            ap (holds_key inode (p / 512)) at
            ∙ ground (arith, r.valid_block, r.same_inode, r.same_block);
        sole = λ j l h. elim (Bool-cases (j == i)) [
          | inl e ↦ (==_iff j i).0 e
          | inr e ↦
              let h' : holds_key inode (p / 512) (s'.buffer_cache j) ≡ true = rw e at h in
              let k =
                key-SameKey inode (p / 512) old (s'.buffer_cache j) r.valid_block r.same_inode
                  r.same_block h' in
              let other : set_block s'.buffer_cache i (unlocked old) j ≡ s'.buffer_cache j =
                rw e refl in
              r.coherent.sole j i l r.bound
                (rw (other, set_block_here s'.buffer_cache i (unlocked old)) k)
        ];
        bytes_held =
            ap (λ x. take (length buffer) (drop (p % 512) x.contents)) at
            ∙ overwritten-slice old buffer (p % 512) (omega arith);
      }
