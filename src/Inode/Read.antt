-- ===== src/Inode/Read.antt =====
-- inode_read_at() of filesys/inode.c.
use Prim.Native.Nat.{min}
use pintos.Prelude.{
  length, take, drop, ltb, ◌==◌, lt→ltb, Bool-cases, ℕ, zero, suc, ◌+◌, ◌-◌, ◌%◌, ◌≤◌, ◌<◌, ◌≡◌,
  refl, sym, ap, ◌∙◌, inl, inr, true, false, ◌&&◌, some, List, [], ◌∷◌, ◌++◌, arith,
}
use pintos.Block.{BlockDevice}
use pintos.Inode.{InodeDisk, chunk_size, byte_to_sector, inode_read_at, read_chunk, read_loop}
use pintos.Inode.Bytes.{file_byte, file_bytes, file_bytes-add, chunk-file_bytes}

-- The sector and the contents of a byte's sector.
pub record IsStored {Disk : Type 0} (dev : BlockDevice Disk) (d : Disk) (i : InodeDisk) (p : ℕ)
    : Type 0 where
  pub sector : ℕ
  pub contents : List ℕ
  pub maps : byte_to_sector dev d i p ≡ some sector
  pub reads : dev.block_read d sector ≡ some contents

-- Every byte of the file lies in a sector that the device can read.
abbrev pub IsMapped : {Disk : Type 0} → BlockDevice Disk → Disk → InodeDisk → Type 0
IsMapped dev d i = (p : ℕ) → p < i.length → IsStored dev d i p

take_all : (b : List ℕ) → take (length b) b ≡ b
take_all [] = refl
take_all (x ∷ b) = ap (◌∷◌ x) (take_all b)

module _ {Disk : Type 0} (dev : BlockDevice Disk) where
  read_chunk-file_bytes :
      (d : Disk) (i : InodeDisk) (p n : ℕ) (st : IsStored dev d i p)
      → 0 < n
      → p % 512 + n ≤ 512
      → read_chunk dev d true st.sector (p % 512) n ≡ some (file_bytes dev d i p n)
  unfolding read_chunk
  read_chunk-file_bytes d i p n st h k =
      let c = chunk-file_bytes dev d i st.sector st.contents n p st.maps st.reads k in
      elim (Bool-cases ((p % 512 == 0) && (n == 512))) [
        | inl full ↦
            let z : p % 512 ≡ 0 = ground arith in
            let l : n ≡ length st.contents =
              ground (arith, dev.length-block_read d st.sector st.contents st.reads) in
            let w : take n (drop (p % 512) st.contents) ≡ st.contents =
              rw (z, l) (take_all st.contents) in
            rw (lt→ltb 0 n h, full) (st.reads ∙ ap some (sym w ∙ c))
        | inr part ↦ rw (lt→ltb 0 n h, part, st.reads) (ap some c)
      ]

  file_bytes-cons :
      (d : Disk) (i : InodeDisk) (p n : ℕ)
      → 0 < n
      → file_bytes dev d i p n ≡ file_byte dev d i p ∷ file_bytes dev d i (suc p) (n - 1)
  unfolding file_bytes
  file_bytes-cons d i p zero h = elim h [ ]
  file_bytes-cons d i p (suc n) h = let e : suc n - 1 ≡ n = omega arith in rw e

  read_loop-file_bytes :
      (fuel : ℕ) (d : Disk) (i : InodeDisk) (size offset : ℕ)
      → IsMapped dev d i
      → size ≤ fuel
      → offset + size ≤ i.length
      → read_loop dev fuel d i true size offset ≡ some (file_bytes dev d i offset size)
  unfolding read_loop file_bytes
  read_loop-file_bytes zero d i size offset m h k = let e : size ≡ 0 = omega arith in rw e
  read_loop-file_bytes (suc fuel) d i zero offset m h k = refl
  read_loop-file_bytes (suc fuel) d i (suc n) offset m h k =
      let st = m offset (omega arith) in
      let c = chunk_size i (suc n) offset in
      let rest =
        read_loop-file_bytes fuel d i (suc n - c) (offset + c) m (omega arith) (omega arith) in
      let r = read_chunk-file_bytes d i offset c st (omega arith) (omega arith) in
      let more : (suc n == 0) ≡ false = ground arith in
      let sum : c + (suc n - c) ≡ suc n = omega arith in
      let whole =
        file_bytes-add dev d i offset c (suc n - c) ∙ ap (file_bytes dev d i offset) sum in
      let cut = file_bytes-cons d i offset c (omega arith) in
      rw (st.maps, r, cut, rest, more)
        (ap some (ap (λ xs. xs ++ file_bytes dev d i (offset + c) (suc n - c)) (sym cut) ∙ whole))

  no_bytes : (d : Disk) (i : InodeDisk) (p : ℕ) → file_bytes dev d i p 0 ≡ []
  unfolding file_bytes
  no_bytes d i p = refl

  -- inode_read_at() succeeds and puts into the buffer exactly the bytes of the file from the offset
  -- on: as many as were asked for, or as there are up to the end of the file; none, if the offset is
  -- beyond the end. Every byte of the file must be mapped to a readable sector, and malloc() must
  -- give a bounce buffer.
  pub inode_read_at-file_bytes :
      (d : Disk) (i : InodeDisk) (size offset : ℕ)
      → IsMapped dev d i
      → inode_read_at dev d i true size offset
        ≡ some (file_bytes dev d i offset (min size (i.length - offset)))
  unfolding inode_read_at
  inode_read_at-file_bytes d i size offset m = elim (Bool-cases (ltb i.length (offset + size))) [
    | inl long ↦ elim (Bool-cases (ltb i.length offset)) [
      | inl beyond ↦
          let none_left : min size (i.length - offset) ≡ 0 = ground arith in
          rw (long, beyond, none_left) (ap some (sym (no_bytes d i offset)))
      | inr inside ↦
          let all_left : min size (i.length - offset) ≡ i.length - offset = ground arith in
          rw (long, inside, all_left)
            (read_loop-file_bytes (i.length - offset) d i (i.length - offset) offset m (omega arith)
              (ground arith))
    ]
    | inr fits ↦
        let all_asked : min size (i.length - offset) ≡ size = ground arith in
        rw (fits, all_asked)
          (read_loop-file_bytes size d i size offset m (omega arith) (ground arith))
  ]
