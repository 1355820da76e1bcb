-- ===== src/Inode/Bytes.antt =====
-- The bytes of a file of filesys/inode.c, as its index describes them.
use pintos.Prelude.{
  length, get_or, take, drop, ℕ, zero, suc, ◌+◌, ◌/◌, ◌%◌, ◌≤◌, ◌<◌, ◌≡◌, refl, sym, ap, ap₂, ◌∙◌,
  Option, none, some, List, [], ◌∷◌, ◌++◌, arith,
}
use pintos.Block.{block_sector_size, BlockDevice}
use pintos.Inode.{InodeDisk, byte_to_sector, sector_at}

module _ {Disk : Type 0} (dev : BlockDevice Disk) where
  -- The byte of sector `s` at offset `o`; zero where the sector cannot be read.
  sector_byte : Disk → Option ℕ → ℕ → ℕ
  sector_byte d none o = 0
  sector_byte d (some s) o = elim (dev.block_read d s) [ none ↦ 0 | some b ↦ get_or b o 0 ]

  -- The byte at position `p` of the file.
  unfoldable pub file_byte : Disk → InodeDisk → ℕ → ℕ
  unfolding sector_byte
  file_byte d i p = sector_byte d (byte_to_sector dev d i p) (p % block_sector_size)

  -- The `n` bytes from position `p`.
  unfoldable pub file_bytes : Disk → InodeDisk → ℕ → ℕ → List ℕ
  file_bytes d i p zero = []
  file_bytes d i p (suc n) = file_byte d i p ∷ file_bytes d i (suc p) n

  pub length-file_bytes : (d : Disk) (i : InodeDisk) (p n : ℕ) → length (file_bytes d i p n) ≡ n
  unfolding file_bytes
  length-file_bytes d i p zero = refl
  length-file_bytes d i p (suc n) = ap suc (length-file_bytes d i (suc p) n)

  pub file_bytes-add :
      (d : Disk) (i : InodeDisk) (p m n : ℕ)
      → file_bytes d i p m ++ file_bytes d i (p + m) n ≡ file_bytes d i p (m + n)
  unfolding file_bytes
  file_bytes-add d i p zero n =
      let e : p + 0 ≡ p = omega arith in let f : 0 + n ≡ n = omega arith in rw (e, f)
  file_bytes-add d i p (suc m) n =
      let e : p + suc m ≡ suc p + m = omega arith in
      let f : suc m + n ≡ suc (m + n) = omega arith in
      rw (e, f) (ap (◌∷◌ (file_byte d i p)) (file_bytes-add d i (suc p) m n))

  take-drop :
      (b : List ℕ) (k n : ℕ)
      → k < length b
      → take (suc n) (drop k b) ≡ get_or b k 0 ∷ take n (drop (suc k) b)
  take-drop [] k n h = elim h [ ]
  take-drop (x ∷ b) zero n h = refl
  take-drop (x ∷ b) (suc k) n h = take-drop b k n (omega arith)

  same_sector :
      (d : Disk) (i : InodeDisk) (p q : ℕ)
      → p / 512 ≡ q / 512
      → byte_to_sector dev d i p ≡ byte_to_sector dev d i q
  unfolding byte_to_sector
  same_sector d i p q e = ap (sector_at dev d i) e

  file_byte-sector :
      (d : Disk) (i : InodeDisk) (p s : ℕ) (b : List ℕ)
      → byte_to_sector dev d i p ≡ some s
      → dev.block_read d s ≡ some b
      → file_byte d i p ≡ get_or b (p % 512) 0
  unfolding file_byte
  file_byte-sector d i p s b e f = rw (e, f, sector_byte)

  -- A part of one sector is the bytes of the file there.
  pub chunk-file_bytes :
      (d : Disk) (i : InodeDisk) (s : ℕ) (b : List ℕ) (n p : ℕ)
      → byte_to_sector dev d i p ≡ some s
      → dev.block_read d s ≡ some b
      → p % 512 + n ≤ 512
      → take n (drop (p % 512) b) ≡ file_bytes d i p n
  unfolding file_bytes
  chunk-file_bytes d i s b zero p e f h = refl
  chunk-file_bytes d i s b (suc zero) p e f h =
      let l : p % 512 < length b = omega (arith, dev.length-block_read d s b f) in
      take-drop b (p % 512) 0 l ∙ ap (λ x. x ∷ []) (sym (file_byte-sector d i p s b e f))
  chunk-file_bytes d i s b (suc (suc n)) p e f h =
      let l : p % 512 < length b = omega (arith, dev.length-block_read d s b f) in
      let m : suc (p % 512) ≡ suc p % 512 = omega arith in
      let e' : byte_to_sector dev d i (suc p) ≡ some s =
        same_sector d i (suc p) p (omega arith) ∙ e in
      take-drop b (p % 512) (suc n) l
      ∙ ap₂ ◌∷◌ (sym (file_byte-sector d i p s b e f)) (
          ap (λ k. take (suc n) (drop k b)) m
          ∙ chunk-file_bytes d i s b (suc n) (suc p) e' f (omega arith))
