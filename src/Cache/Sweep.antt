-- ===== src/Cache/Sweep.antt =====
-- The clock of evict_cache_block() of filesys/filesys.c.
use pintos.Prelude.{
  ◌==◌, ==_iff, Bool-cases, ℕ, zero, suc, ◌+◌, ◌%◌, ◌<◌, ◌≡◌, refl, sym, ap, ◌∙◌, ◌⊎◌, inl, inr,
  false, some, arith,
}
use pintos.Cache.{sweep}
use pintos.System.{CacheBlock, set_block}

abbrev pub unmark : CacheBlock → CacheBlock
unmark b = record b { accessed = false }

-- The same block, but perhaps for its mark.
abbrev pub Unmarks : CacheBlock → CacheBlock → Type 0
Unmarks b c = (c ≡ b) ⊎ (c ≡ unmark b)

Unmarks-trans : (a b c : CacheBlock) → Unmarks a b → Unmarks b c → Unmarks a c
Unmarks-trans a b c (inl h) (inl k) = inl (k ∙ h)
Unmarks-trans a b c (inl h) (inr k) = inr (k ∙ ap unmark h)
Unmarks-trans a b c (inr h) (inl k) = inr (k ∙ h)
Unmarks-trans a b c (inr h) (inr k) = inr (k ∙ ap unmark h)

-- The clock, from the blocks `f`, stops at block `i` with the blocks `g`.
pub record Swept (f : ℕ → CacheBlock) (i : ℕ) (g : ℕ → CacheBlock) : Type 0 where
  pub bound : i < 64
  pub unmarked : (g i).accessed ≡ false
  pub others : (q : ℕ) → Unmarks (f q) (g q)

module _ (f : ℕ → CacheBlock) (i : ℕ) where
  abbrev stepped : ℕ → CacheBlock
  stepped = set_block f i (unmark (f i))

  stepped-Unmarks : (q : ℕ) → Unmarks (f q) (stepped q)
  stepped-Unmarks q = elim (Bool-cases (q == i)) [
    | inl e ↦ inr (rw e (ap (λ r. unmark (f r)) (sym ((==_iff q i).0 e))))
    | inr e ↦ inl (rw e refl)
  ]

  stepped_here : (stepped i).accessed ≡ false
  stepped_here = ground arith

  stepped_unmarked : (q : ℕ) → (f q).accessed ≡ false → (stepped q).accessed ≡ false
  stepped_unmarked q h = ground arith

  Swept-step : (j : ℕ) (g : ℕ → CacheBlock) → Swept stepped j g → Swept f j g
  Swept-step j g s = record {
    bound = s.bound;
    unmarked = s.unmarked;
    others = λ q. Unmarks-trans (f q) (stepped q) (g q) (stepped-Unmarks q) (s.others q);
  }

-- If one of the next `n` blocks is not marked the clock stops by then.
sweep-stops :
    (n : ℕ) (f : ℕ → CacheBlock) (i k : ℕ)
    → i < 64
    → k < n
    → (f ((i + k) % 64)).accessed ≡ false
    → (j : ℕ) × ((g : ℕ → CacheBlock) × (sweep n f i ≡ some (j, g)) × Swept f j g)
unfolding sweep
sweep-stops zero f i k l h u = absurd (omega arith)
sweep-stops (suc n) f i zero l h u =
    let here : (i + 0) % 64 ≡ i = omega arith in
    let e : (f i).accessed ≡ false = rw here at u in
    (i, (f, rw e refl, record { bound = l; unmarked = e; others = λ q. inl refl }))
sweep-stops (suc n) f i (suc k) l h u = elim (Bool-cases (f i).accessed) [
  | inr e ↦ (i, (f, rw e refl, record { bound = l; unmarked = e; others = λ q. inl refl }))
  | inl e ↦
      let there : ((i + 1) % 64 + k) % 64 ≡ (i + suc k) % 64 = omega arith in
      let (j, (g, r, s)) =
        sweep-stops n (stepped f i) ((i + 1) % 64) k (omega arith) (omega arith)
          (rw there (stepped_unmarked f i ((i + suc k) % 64) u)) in
      (j, (g, rw e r, Swept-step f i j g s))
]

-- The clock always stops within one turn and one step, whatever the marks are: at a block that is not
-- marked. Of the other blocks only marks are taken away.
pub sweep-Swept :
    (f : ℕ → CacheBlock) (i : ℕ)
    → i < 64
    → (j : ℕ) × ((g : ℕ → CacheBlock) × (sweep 65 f i ≡ some (j, g)) × Swept f j g)
unfolding sweep
sweep-Swept f i l = elim (Bool-cases (f i).accessed) [
  | inr e ↦
      sweep-stops 65 f i 0 l (omega arith) (let here : (i + 0) % 64 ≡ i = omega arith in rw here e)
  | inl e ↦
      let back : ((i + 1) % 64 + 63) % 64 ≡ i = omega arith in
      let (j, (g, r, s)) =
        sweep-stops 64 (stepped f i) ((i + 1) % 64) 63 (omega arith) (omega arith)
          (rw back (stepped_here f i)) in
      (j, (g, rw e r, Swept-step f i j g s))
]
