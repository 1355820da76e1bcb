-- ===== src/KernelList.antt =====
-- The ordered insertion and the sort of lib/kernel/list.c, which are not in this repository's
-- sources: an interface with the behaviour that list.h documents. A list of embedded elements is
-- the list of the addresses of the structures, front first.
pub mod Instance
pub mod Order
use pintos.Prelude.{ℕ, suc, ◌+◌, ◌<◌, ◌≡◌, Bool, false, true, List, [], ◌∷◌, ◌==◌, if◌then◌else◌}

-- How often `a` stands in a list.
abbrev pub count : ℕ → List ℕ → ℕ
count a [] = 0
count a (x ∷ xs) = (if a == x then 1 else 0) + count a xs

-- list_remove: without the element at `a`.
abbrev pub remove : ℕ → List ℕ → List ℕ
remove a [] = []
remove a (x ∷ xs) = if a == x then xs else x ∷ remove a xs

-- No element is less than one before it.
abbrev pub IsSorted : (ℕ → ℕ → Bool) → List ℕ → Type 0
IsSorted less [] = Unit {0}
IsSorted less (x ∷ xs) = ((y : ℕ) → 0 < count y xs → less y x ≡ false) × IsSorted less xs

-- What a comparison function has to be.
pub record IsOrder (less : ℕ → ℕ → Bool) : Type 0 where
  pub asym : (a b : ℕ) → less a b ≡ true → less b a ≡ false
  pub chain : (a b c : ℕ) → less a b ≡ false → less b c ≡ false → less a c ≡ false

pub record KernelList : Type 0 where
  pub insert_ordered : (ℕ → ℕ → Bool) → List ℕ → ℕ → List ℕ
  pub sort : (ℕ → ℕ → Bool) → List ℕ → List ℕ
  pub count-insert_ordered :
      (less : ℕ → ℕ → Bool) (xs : List ℕ) (x a : ℕ)
      → count a (insert_ordered less xs x) ≡ count a (x ∷ xs)
  pub insert_ordered-IsSorted :
      (less : ℕ → ℕ → Bool) (xs : List ℕ) (x : ℕ)
      → IsOrder less
      → IsSorted less xs
      → IsSorted less (insert_ordered less xs x)
  pub count-sort : (less : ℕ → ℕ → Bool) (xs : List ℕ) (a : ℕ) → count a (sort less xs) ≡ count a xs
  pub sort-IsSorted :
      (less : ℕ → ℕ → Bool) (xs : List ℕ) → IsOrder less → IsSorted less (sort less xs)
