-- ===== src/Inode/Table/Grown.antt =====
-- The length that file_extension() of filesys/inode.c gives a file.
use pintos.Prelude.{
  ◌==◌, ==_iff, Bool-cases, apart, ℕ, ◌+◌, ◌-◌, ◌*◌, ◌%◌, ◌≤◌, ◌<◌, ◌≡◌, ◌≢◌, inl, inr, arith,
}
use pintos.Inode.Table.Extend.{allocated, required, modified_length}

-- For a write of at least one byte that ends beyond the end of the file, when all the sectors are found
-- that it needs: the new length is that of whole sectors and covers the write. It is exactly the length
-- of the sectors of the file, if the old length was not a multiple of 512; otherwise it is 512 bytes
-- more than these hold.
pub modified_length_bounds :
    (len size offset : ℕ)
    → 0 < size
    → len < offset + size
    → let l = modified_length len (required size offset - allocated len) in
      (offset + size ≤ l)
      × (l % 512 ≡ 0)
      × ((len % 512 ≢ 0) → l ≡ required size offset * 512)
      × (len % 512 ≡ 0 → l ≡ required size offset * 512 + 512)
unfolding modified_length required allocated
modified_length_bounds len size offset h k = elim (Bool-cases (len == 0)) [
  | inl e ↦
      let z : len ≡ 0 = (==_iff len 0).0 e in
      rw e (omega arith, omega arith, (λ q. omega arith), (λ q. omega arith))
  | inr e ↦
      let n = apart len 0 e in
      rw e (omega arith, omega arith, (λ q. omega arith), (λ q. omega arith))
]
