-- ===== src/Block/Ram.antt =====
-- A device of 64 sectors in memory, an instance of the interface of devices/block.h.
use pintos.Prelude.{
  length, take, replicate, length-append, length-take, length-replicate, ltb, ◌==◌, if◌then◌else◌,
  Bool-cases, ℕ, zero, suc, ◌≡◌, refl, ap, ◌≢◌, inl, inr, true, false, Option, none, some, List, [],
  ◌∷◌, ◌++◌, arith,
}
use pintos.Block.{block_sector_size, BlockDevice}

abbrev pub whole : List ℕ → List ℕ
whole b = take block_sector_size (b ++ replicate block_sector_size 0)

length-whole : (b : List ℕ) → length (whole b) ≡ block_sector_size
length-whole b = omega (
  arith,
  length-take block_sector_size (b ++ replicate block_sector_size 0),
  length-append b (replicate block_sector_size 0),
  length-replicate {A = ℕ} block_sector_size 0,
)

take_all : (b : List ℕ) (n : ℕ) (c : List ℕ) → length b ≡ n → take n (b ++ c) ≡ b
take_all [] zero c h = refl
take_all [] (suc n) c h = absurd (omega arith)
take_all (x ∷ xs) zero c h = absurd (omega arith)
take_all (x ∷ xs) (suc n) c h = ap (λ r. x ∷ r) (take_all xs n c (omega arith))

abbrev pub RamDisk : Type 0
RamDisk = ℕ → List ℕ

unfoldable pub ram_read : RamDisk → ℕ → Option (List ℕ)
ram_read d s = if ltb s 64 then some (whole (d s)) else none

unfoldable pub ram_write : RamDisk → ℕ → List ℕ → Option RamDisk
ram_write d s b = if ltb s 64 then some (λ r. if r == s then b else d r) else none

pub length-ram_read :
    (d : RamDisk) (s : ℕ) (b : List ℕ) → ram_read d s ≡ some b → length b ≡ block_sector_size
unfolding ram_read
length-ram_read d s b h = elim (Bool-cases (ltb s 64)) [
  | inl e ↦ let f : whole (d s) ≡ b = ground arith in rw (← f) (length-whole (d s))
  | inr e ↦ ground arith
]

pub ram_write_same :
    (d d' : RamDisk) (s : ℕ) (b : List ℕ)
    → length b ≡ block_sector_size
    → ram_write d s b ≡ some d'
    → ram_read d' s ≡ some b
unfolding ram_read ram_write
ram_write_same d d' s b l h = elim (Bool-cases (ltb s 64)) [
  | inl e ↦
      let f : (λ r. if r == s then b else d r) ≡ d' = ground arith in
      let g : (s == s) ≡ true = ground arith in
      rw (e, ← f, g) (ap some (take_all b block_sector_size (replicate block_sector_size 0) l))
  | inr e ↦ ground arith
]

pub ram_write_other :
    (d d' : RamDisk) (s r : ℕ) (b : List ℕ)
    → r ≢ s
    → ram_write d s b ≡ some d'
    → ram_read d' r ≡ ram_read d r
unfolding ram_read ram_write
ram_write_other d d' s r b ne h = elim (Bool-cases (ltb s 64)) [
  | inl e ↦
      let f : (λ r. if r == s then b else d r) ≡ d' = ground arith in
      let g : (r == s) ≡ false = ground arith in rw (← f, g) refl
  | inr e ↦ ground arith
]

pub ram_writable :
    (d : RamDisk) (s : ℕ) (b c : List ℕ)
    → ram_read d s ≡ some b
    → (d' : RamDisk) × (ram_write d s c ≡ some d')
unfolding ram_read ram_write
ram_writable d s b c h = elim (Bool-cases (ltb s 64)) [
  | inl e ↦ rw e ((λ r. if r == s then c else d r), refl)
  | inr e ↦ absurd (ground arith)
]

unfoldable pub ram : BlockDevice RamDisk
ram = record {
  block_read = ram_read;
  block_write = ram_write;
  length-block_read = length-ram_read;
  write_same = ram_write_same;
  write_other = ram_write_other;
  writable = ram_writable;
}
