-- ===== src/Cache/Coherent.antt =====
-- What holds of the buffer cache of filesys/filesys.c while files are only read.
use Prim.Native.Nat.{min}
use pintos.Prelude.{
  length, take, ◌==◌, ==_iff, Bool-cases, apart, ℕ, ◌-◌, ◌*◌, ◌≤◌, ◌<◌, ◌≡◌, sym, ◌∙◌, ◌≢◌, inl,
  inr, true, false, ◌&&◌, none, some,
}
use pintos.Block.{BlockDevice}
use pintos.Cache.Sweep.{unmark, Unmarks}
use pintos.Inode.Bytes.{file_bytes}
use pintos.Inode.Table.{Inode, Fs}
use pintos.System.{CacheBlock, set_block}

-- How many bytes of a block belong to the file.
abbrev pub part : ℕ → ℕ → ℕ
part len block_no = min 512 (len - block_no * 512)

-- A valid block holds the bytes of its file.
pub record Stored {Disk : Type 0} (dev : BlockDevice Disk) (fs : Fs Disk) (b : CacheBlock)
    : Type 0 where
  pub node : Inode
  pub points : fs.inode b.inode ≡ some node
  pub bytes_held :
      take (part node.disk.length b.block_no) b.contents
      ≡ file_bytes dev fs.device node.disk (b.block_no * 512) (part node.disk.length b.block_no)

-- A block that is not locked, and that has nothing to be written back.
pub record Clean {Disk : Type 0} (dev : BlockDevice Disk) (fs : Fs Disk) (b : CacheBlock)
    : Type 0 where
  pub unlocked : b.block_lock ≡ none
  pub not_dirty : (b.valid && b.dirty) ≡ false
  pub whole : length b.contents ≡ 512
  pub fits : b.size ≤ 512
  pub stored : b.valid ≡ true → Stored dev fs b

-- Two valid blocks have different keys.
abbrev pub SameKey : CacheBlock → CacheBlock → Type 0
SameKey b c = (b.valid ≡ true) × (c.valid ≡ true) × (b.inode ≡ c.inode) × (b.block_no ≡ c.block_no)

pub record Coherent {Disk : Type 0} (dev : BlockDevice Disk) (fs : Fs Disk) (f : ℕ → CacheBlock)
    : Type 0 where
  pub clean : (i : ℕ) → i < 64 → Clean dev fs (f i)
  pub sole : (i j : ℕ) → i < 64 → j < 64 → SameKey (f i) (f j) → i ≡ j

SameKey-sym : (b c : CacheBlock) → SameKey b c → SameKey c b
SameKey-sym b c (v, w, i, n) = (w, v, sym i, sym n)

SameKey-unmark : (a b c d : CacheBlock) → Unmarks a b → Unmarks c d → SameKey b d → SameKey a c
SameKey-unmark a b c d (inl h) (inl k) s = rw (h, k) at s
SameKey-unmark a b c d (inl h) (inr k) s = rw (h, k) at s
SameKey-unmark a b c d (inr h) (inl k) s = rw (h, k) at s
SameKey-unmark a b c d (inr h) (inr k) s = rw (h, k) at s

module _ {Disk : Type 0} (dev : BlockDevice Disk) (fs : Fs Disk) where
  pub Coherent-ext :
      (f g : ℕ → CacheBlock) → ((i : ℕ) → g i ≡ f i) → Coherent dev fs f → Coherent dev fs g
  Coherent-ext f g e c = record {
    clean = λ i l. rw (e i) (c.clean i l);
    sole = λ i j l k h. c.sole i j l k (rw (e i, e j) at h);
  }

  -- A block takes a new key, or keeps the one that it had.
  pub Coherent-set :
      (f : ℕ → CacheBlock) (i : ℕ) (b : CacheBlock)
      → Coherent dev fs f
      → Clean dev fs b
      → ((j : ℕ) → j < 64 → j ≢ i → ¬ SameKey b (f j))
      → Coherent dev fs (set_block f i b)
  Coherent-set f i b c k d = record {
    clean = λ j l. elim (Bool-cases (j == i)) [ inl e ↦ rw e k | inr e ↦ rw e (c.clean j l) ];
    sole = λ j q l n h. elim (Bool-cases (j == i)) [
      | inl e ↦ elim (Bool-cases (q == i)) [
        | inl e' ↦ (==_iff j i).0 e ∙ sym ((==_iff q i).0 e')
        | inr e' ↦ absurd (d q n (apart q i e') (rw (e, e') at h))
      ]
      | inr e ↦ elim (Bool-cases (q == i)) [
        | inl e' ↦ absurd (d j l (apart j i e) (SameKey-sym (f j) b (rw (e, e') at h)))
        | inr e' ↦ c.sole j q l n (rw (e, e') at h)
      ]
    ];
  }

  unmark-Clean : (b : CacheBlock) → Clean dev fs b → Clean dev fs (unmark b)
  unmark-Clean b k = record {
    unlocked = k.unlocked;
    not_dirty = k.not_dirty;
    whole = k.whole;
    fits = k.fits;
    stored = λ v. record {
      node = (k.stored v).node;
      points = (k.stored v).points;
      bytes_held = (k.stored v).bytes_held;
    };
  }

  pub Unmarks-Coherent :
      (f g : ℕ → CacheBlock)
      → ((i : ℕ) → Unmarks (f i) (g i))
      → Coherent dev fs f
      → Coherent dev fs g
  Unmarks-Coherent f g u c = record {
    clean = λ i l. elim (u i) [
      | inl e ↦ rw e (c.clean i l)
      | inr e ↦ rw e (unmark-Clean (f i) (c.clean i l))
    ];
    sole = λ i j l k h. c.sole i j l k (SameKey-unmark (f i) (g i) (f j) (g j) (u i) (u j) h);
  }
