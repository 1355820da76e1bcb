-- ===== src/KernelList/Order.antt =====
-- Laws of sorted lists and of `remove`.
use pintos.Prelude.{ℕ, ◌-◌, ◌<◌, ◌≡◌, ◌∙◌, Bool, List, [], ◌∷◌, ◌==◌, if◌then◌else◌, arith}
use pintos.KernelList.{count, remove, IsSorted}

-- Only the comparisons between the elements of the list matter.
pub IsSorted-congr :
    (less less' : ℕ → ℕ → Bool) (xs : List ℕ)
    → ((a b : ℕ) → 0 < count a xs → 0 < count b xs → less' a b ≡ less a b)
    → IsSorted less xs
    → IsSorted less' xs
IsSorted-congr less less' [] same s = tt
IsSorted-congr less less' (x ∷ xs) same s = (
  λ y h. same y x (omega arith) (ground arith) ∙ s.0 y h,
  IsSorted-congr less less' xs (λ a b h k. same a b (omega arith) (omega arith)) s.1,
)

pub count-remove :
    (a b : ℕ) (xs : List ℕ) → count b (remove a xs) ≡ count b xs - (if b == a then 1 else 0)
count-remove a b [] = ground arith
count-remove a b (x ∷ xs) = ground (arith, count-remove a b xs)
