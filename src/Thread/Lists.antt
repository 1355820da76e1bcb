-- ===== src/Thread/Lists.antt =====
-- The comparison of the run queue: compare_pri() of threads/thread.c.
use pintos.Prelude.{ℕ, ◌<◌, ◌≡◌, List, arith}
use pintos.KernelList.{count, IsSorted, IsOrder}
use pintos.KernelList.Order.{IsSorted-congr}
use pintos.Thread.{Thread, put, compare_pri}

pub compare_pri-IsOrder : (f : ℕ → Thread) → IsOrder (compare_pri f)
compare_pri-IsOrder f = record { asym = λ a b h. ground arith; chain = λ a b c h k. ground arith }

pub IsSorted-of_priorities :
    (f g : ℕ → Thread) (xs : List ℕ)
    → ((a : ℕ) → 0 < count a xs → (g a).priority ≡ (f a).priority)
    → IsSorted (compare_pri f) xs
    → IsSorted (compare_pri g) xs
IsSorted-of_priorities f g xs same =
    IsSorted-congr (compare_pri f) (compare_pri g) xs
      (λ a b h k. ground (arith, same a h, same b k))

pub IsSorted-put :
    (f : ℕ → Thread) (p : ℕ) (t : Thread) (xs : List ℕ)
    → ((0 < count p xs) → t.priority ≡ (f p).priority)
    → IsSorted (compare_pri f) xs
    → IsSorted (compare_pri (put f p t)) xs
IsSorted-put f p t xs same = IsSorted-of_priorities f (put f p t) xs (λ a h. ground arith)
