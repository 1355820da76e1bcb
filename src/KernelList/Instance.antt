-- ===== src/KernelList/Instance.antt =====
-- An insertion and an insertion sort, an instance of the interface of lib/kernel/list.h.
use pintos.Prelude.{ℕ, ◌≡◌, inl, inr, refl, Bool, List, [], ◌∷◌, if◌then◌else◌, arith, Bool-cases}
use pintos.KernelList.{KernelList, IsOrder, count, IsSorted}

unfoldable pub insert : (ℕ → ℕ → Bool) → List ℕ → ℕ → List ℕ
insert less [] x = x ∷ []
insert less (y ∷ ys) x = if less x y then x ∷ y ∷ ys else y ∷ insert less ys x

unfoldable pub insertion_sort : (ℕ → ℕ → Bool) → List ℕ → List ℕ
insertion_sort less [] = []
insertion_sort less (x ∷ xs) = insert less (insertion_sort less xs) x

pub count-insert :
    (less : ℕ → ℕ → Bool) (xs : List ℕ) (x a : ℕ) → count a (insert less xs x) ≡ count a (x ∷ xs)
unfolding insert
count-insert less [] x a = refl
count-insert less (y ∷ ys) x a = ground (arith, count-insert less ys x a)

pub insert-IsSorted :
    (less : ℕ → ℕ → Bool) (xs : List ℕ) (x : ℕ)
    → IsOrder less
    → IsSorted less xs
    → IsSorted less (insert less xs x)
unfolding insert
insert-IsSorted less [] x o s = (λ y h. elim h [ ], tt)
insert-IsSorted less (y ∷ ys) x o s = elim (Bool-cases (less x y)) [
  | inl e ↦ rw e (λ z h. ground (arith, o.asym x y e, s.0 z, o.chain z y x), s)
  | inr e ↦
      rw e (λ z h. ground (arith, s.0 z, count-insert less ys x z), insert-IsSorted less ys x o s.1)
]

pub count-insertion_sort :
    (less : ℕ → ℕ → Bool) (xs : List ℕ) (a : ℕ) → count a (insertion_sort less xs) ≡ count a xs
unfolding insertion_sort
count-insertion_sort less [] a = refl
count-insertion_sort less (x ∷ xs) a =
    ground (arith, count-insert less (insertion_sort less xs) x a, count-insertion_sort less xs a)

pub insertion_sort-IsSorted :
    (less : ℕ → ℕ → Bool) (xs : List ℕ) → IsOrder less → IsSorted less (insertion_sort less xs)
unfolding insertion_sort
insertion_sort-IsSorted less [] o = tt
insertion_sort-IsSorted less (x ∷ xs) o =
    insert-IsSorted less (insertion_sort less xs) x o (insertion_sort-IsSorted less xs o)

abbrev pub simple_list : KernelList
unfolding insert insertion_sort
simple_list = record {
  insert_ordered = insert;
  sort = insertion_sort;
  count-insert_ordered = count-insert;
  insert_ordered-IsSorted = insert-IsSorted;
  count-sort = count-insertion_sort;
  sort-IsSorted = insertion_sort-IsSorted;
}
