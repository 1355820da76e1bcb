-- ===== src/Thread/Donation/Best.antt =====
-- The best donator: search_best_donator() of threads/thread.c.
use pintos.Prelude.{
  All, Any, Bool-cases, ℕ, ◌≡◌, refl, ◌⊎◌, inl, inr, true, false, List, [], ◌∷◌, arith,
}
use pintos.Prelude.Int.{ℤ, ◌≤ℤ◌, ltb_ℤ}
use pintos.Thread.{Donate, Thread, pri_min}
use pintos.Thread.Donation.{search_best_donator, best_from}

-- `m` is the largest of `low` and the priorities of the donators.
pub record IsBest (f : ℕ → Thread) (low : ℤ) (dl : List Donate) (m : ℤ) : Type 0 where
  pub above_low : low ≤ℤ m
  pub above : All (λ d. (f d.donator).priority ≤ℤ m) dl
  pub reached : (m ≡ low) ⊎ Any (λ d. m ≡ (f d.donator).priority) dl

module _ (f : ℕ → Thread) (low : ℤ) (d : Donate) (ds : List Donate) (m : ℤ) where
  IsBest-raise :
      ltb_ℤ low (f d.donator).priority ≡ true
      → IsBest f (f d.donator).priority ds m
      → IsBest f low (d ∷ ds) m
  IsBest-raise e b = record {
    above_low = ground (arith, b.above_low);
    above = (b.above_low, b.above);
    reached = inr b.reached;
  }

  IsBest-keep :
      ltb_ℤ low (f d.donator).priority ≡ false → IsBest f low ds m → IsBest f low (d ∷ ds) m
  IsBest-keep e b = record {
    above_low = b.above_low;
    above = (ground (arith, b.above_low), b.above);
    reached = later b.reached;
  }
    where
      later :
          (m ≡ low) ⊎ Any (λ d. m ≡ (f d.donator).priority) ds
          → (m ≡ low) ⊎ Any (λ d. m ≡ (f d.donator).priority) (d ∷ ds)
      later (inl e) = inl e
      later (inr a) = inr (inr a)

best_from-IsBest :
    (f : ℕ → Thread) (low : ℤ) (dl : List Donate) → IsBest f low dl (best_from f low dl)
unfolding best_from
best_from-IsBest f low [] = record { above_low = omega arith; above = tt; reached = inl refl }
best_from-IsBest f low (d ∷ ds) = elim (Bool-cases (ltb_ℤ low (f d.donator).priority)) [
  | inl e ↦ rw e (
      IsBest-raise f low d ds (best_from f (f d.donator).priority ds) e
        (best_from-IsBest f (f d.donator).priority ds))
  | inr e ↦ rw e (IsBest-keep f low d ds (best_from f low ds) e (best_from-IsBest f low ds))
]

-- search_best_donator() gives the highest priority of the donators, or PRI_MIN if that is higher.
pub search_best_donator-IsBest :
    (f : ℕ → Thread) (dl : List Donate) → IsBest f pri_min dl (search_best_donator f dl)
unfolding search_best_donator
search_best_donator-IsBest f dl = best_from-IsBest f pri_min dl
