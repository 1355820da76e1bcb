-- ===== src/Inode/Index.antt =====
-- The index of an inode of filesys/inode.c as one list of sectors.
use pintos.Prelude.{
  length, get_or, ltb, if◌then◌else◌, Bool-cases, ℕ, zero, suc, ◌+◌, ◌-◌, ◌*◌, ◌/◌, ◌%◌, ◌≤◌, ◌<◌,
  ◌≡◌, refl, sym, ap, ◌∙◌, inl, inr, true, false, some, List, [], ◌∷◌, ◌++◌, arith,
}
use pintos.Block.{BlockDevice}
use pintos.Block.Words.{words}
use pintos.Inode.{no_sector, InodeDisk, byte_to_sector, index_entry, double_entry, sector_at}

-- The first `n` of a family of lists, one after the other.
abbrev pub flat : (ℕ → List ℕ) → ℕ → List ℕ
flat f zero = []
flat f (suc n) = f 0 ++ flat (λ k. f (suc k)) n

get_or-left : (xs ys : List ℕ) (q v : ℕ) → q < length xs → get_or (xs ++ ys) q v ≡ get_or xs q v
get_or-left [] ys q v h = absurd (omega arith)
get_or-left (x ∷ xs) ys zero v h = refl
get_or-left (x ∷ xs) ys (suc q) v h = get_or-left xs ys q v (omega arith)

get_or-right : (xs ys : List ℕ) (q v : ℕ) → get_or (xs ++ ys) (length xs + q) v ≡ get_or ys q v
get_or-right [] ys q v = let e : 0 + q ≡ q = omega arith in rw e refl
get_or-right (x ∷ xs) ys q v =
    let e : suc (length xs) + q ≡ suc (length xs + q) = omega arith in rw e (get_or-right xs ys q v)

get_or-flat :
    (n : ℕ) (f : ℕ → List ℕ) (q v : ℕ)
    → ((k : ℕ) → k < n → length (f k) ≡ 128)
    → q < n * 128
    → get_or (flat f n) q v ≡ get_or (f (q / 128)) (q % 128) v
get_or-flat zero f q v h l = absurd (omega arith)
get_or-flat (suc n) f q v h l =
    let here : length (f 0) ≡ 128 = h 0 (omega arith) in
    elim (Bool-cases (ltb q 128)) [
      | inl e ↦
          let small : q < 128 = ground arith in
          let a : q / 128 ≡ 0 = omega arith in
          let b : q % 128 ≡ q = omega arith in
          rw (a, b) (get_or-left (f 0) (flat (λ k. f (suc k)) n) q v (omega arith))
      | inr e ↦
          let large : 128 ≤ q = ground arith in
          let r = q - 128 in
          let split : q ≡ length (f 0) + r = omega arith in
          let a : q / 128 ≡ suc (r / 128) = omega arith in
          let b : q % 128 ≡ r % 128 = omega arith in
          ap (λ k. get_or (f 0 ++ flat (λ k. f (suc k)) n) k v) split
          ∙ get_or-right (f 0) (flat (λ k. f (suc k)) n) r v
          ∙ get_or-flat n (λ k. f (suc k)) r v (λ k u. h (suc k) (omega arith)) (omega arith)
          ∙ rw (a, b) refl
    ]

-- The words of a block of an index.
pub record IsBlock {Disk : Type 0} (dev : BlockDevice Disk) (d : Disk) (sector : ℕ) (ws : List ℕ)
    : Type 0 where
  pub contents : List ℕ
  pub reads : dev.block_read d sector ≡ some contents
  pub entries : words contents ≡ ws
  pub full : length ws ≡ 128

-- An inode of which all blocks of the index are there: its own entries, those of the single level, and
-- those of each block of the double level.
pub record IsIndex {Disk : Type 0} (dev : BlockDevice Disk) (d : Disk) (i : InodeDisk)
    (single double : List ℕ) (second : ℕ → List ℕ) : Type 0 where
  pub direct_length : length i.direct ≡ 10
  pub single_block : IsBlock dev d i.single_level single
  pub double_block : IsBlock dev d i.double_level double
  pub second_block : (k : ℕ) → k < 128 → IsBlock dev d (get_or double k 0) (second k)

module _ {Disk : Type 0} (dev : BlockDevice Disk) where
  index_entry-IsBlock :
      (d : Disk) (sector : ℕ) (ws : List ℕ) (q : ℕ)
      → IsBlock dev d sector ws
      → index_entry dev d sector q ≡ some (get_or ws q 0)
  unfolding index_entry
  index_entry-IsBlock d sector ws q b = rw (b.reads, index_entry) (rw b.entries refl)

  -- byte_to_sector() finds the sector of a byte in one list: the entries of the inode, then those of
  -- the single level, then those of the blocks of the double level, one after the other. Beyond the
  -- list it gives -1. All blocks of the index must be readable.
  pub byte_to_sector-IsIndex :
      (d : Disk) (i : InodeDisk) (single double : List ℕ) (second : ℕ → List ℕ) (p : ℕ)
      → IsIndex dev d i single double second
      → byte_to_sector dev d i p
        ≡ some (
            if ltb (p / 512) 16522
            then get_or (i.direct ++ (single ++ flat second 128)) (p / 512) 0
            else no_sector)
  unfolding byte_to_sector sector_at double_entry
  byte_to_sector-IsIndex d i single double second p x =
      let q = p / 512 in
      let ten = x.direct_length in
      let full = x.single_block.full in
      elim (Bool-cases (ltb q 10)) [
        | inl e ↦
            let l : q < 10 = ground arith in
            let inside : ltb q 16522 ≡ true = ground arith in
            rw (e, inside)
              (ap some (sym (get_or-left i.direct (single ++ flat second 128) q 0 (omega arith))))
        | inr e ↦
            let l : 10 ≤ q = ground arith in
            let r = q - 10 in
            let split : length i.direct + r ≡ q = omega arith in
            let skip : get_or (i.direct ++ (single ++ flat second 128)) q 0
                ≡ get_or (single ++ flat second 128) r 0 =
              ap (λ k. get_or (i.direct ++ (single ++ flat second 128)) k 0) (sym split)
              ∙ get_or-right i.direct (single ++ flat second 128) r 0 in
            elim (Bool-cases (ltb r 128)) [
              | inl f ↦
                  let u : r < 128 = ground arith in
                  let inside : ltb q 16522 ≡ true = ground arith in
                  rw (e, f, inside)
                    (index_entry-IsBlock d i.single_level single r x.single_block
                      ∙ ap some
                          (sym (skip ∙ get_or-left single (flat second 128) r 0 (omega arith))))
              | inr f ↦
                  let u : 128 ≤ r = ground arith in
                  let t = q - 138 in
                  let split' : length single + t ≡ r = omega arith in
                  let skip' : get_or (single ++ flat second 128) r 0
                      ≡ get_or (flat second 128) t 0 =
                    ap (λ k. get_or (single ++ flat second 128) k 0) (sym split')
                    ∙ get_or-right single (flat second 128) t 0 in
                  elim (Bool-cases (ltb t 16384)) [
                    | inl g ↦
                        let w : t < 16384 = ground arith in
                        let inside : ltb q 16522 ≡ true = ground arith in
                        rw
                          (
                            e,
                            f,
                            g,
                            inside,
                            index_entry-IsBlock d i.double_level double (t / 128) x.double_block,
                          )
                          (index_entry-IsBlock d (get_or double (t / 128) 0) (second (t / 128))
                              (t % 128) (x.second_block (t / 128) (omega arith))
                            ∙ ap some (
                                sym (
                                  skip
                                  ∙ skip'
                                  ∙ get_or-flat 128 second t 0 (λ k n. (x.second_block k n).full)
                                      (omega arith))))
                    | inr g ↦
                        let w : 16384 ≤ t = ground arith in
                        let outside : ltb q 16522 ≡ false = ground arith in
                        rw (e, f, g, outside) refl
                  ]
            ]
      ]
