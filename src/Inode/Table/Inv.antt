-- ===== src/Inode/Table/Inv.antt =====
-- The list of open inodes of filesys/inode.c: its invariant, and the search in it.
use pintos.Prelude.{
  ◌==◌, Bool-cases, ℕ, ◌≤◌, ◌<◌, ◌≡◌, refl, sym, ap, ◌∙◌, ◌≢◌, inl, inr, Option, none, some, List,
  [], ◌∷◌, arith,
}
use pintos.Inode.Table.{Inode, Fs, put_inode, find_open, deref}
use pintos.KernelList.{count, remove}
use pintos.KernelList.Order.{count-remove}
use pintos.Thread.{null}

pub record IsOpen (s : ℕ → Option Inode) (p : ℕ) : Type 0 where
  pub node : Inode
  pub points : s p ≡ some node
  pub opened : 0 < node.open_cnt
  pub denied : node.deny_write_cnt ≤ node.open_cnt

-- Each inode of the list is allocated, has an opener for each denied write and at least one, stands in
-- the list once, and is the only one for its sector.
pub record IsTable (f : ℕ → Option Inode) (xs : List ℕ) : Type 0 where
  pub once : (p : ℕ) → count p xs ≤ 1
  pub live : (p : ℕ) → 0 < count p xs → IsOpen f p
  pub sole :
      (p q : ℕ) (i j : Inode)
      → 0 < count p xs
      → 0 < count q xs
      → f p ≡ some i
      → f q ≡ some j
      → i.sector ≡ j.sector
      → p ≡ q
  pub not_null : count null xs ≡ 0

-- What find_open gives: an inode of the list for the sector, or none if no inode has that sector.
abbrev pub Finds : (ℕ → Option Inode) → ℕ → List ℕ → Option (Option ℕ) → Type 0
Finds f sector xs none = ⊥
Finds f sector xs (some none) =
    (p : ℕ) (i : Inode) → 0 < count p xs → f p ≡ some i → i.sector ≢ sector
Finds f sector xs (some (some p)) =
    (0 < count p xs) × ((i : Inode) × (f p ≡ some i) × (i.sector ≡ sector))

Finds-cons :
    (f : ℕ → Option Inode) (sector x : ℕ) (xs : List ℕ) (i : Inode) (r : Option (Option ℕ))
    → f x ≡ some i
    → i.sector ≢ sector
    → Finds f sector xs r
    → Finds f sector (x ∷ xs) r
Finds-cons f sector x xs i none e ne h = h
Finds-cons f sector x xs i (some none) e ne h = λ p j c g. ground (arith, h p j)
Finds-cons f sector x xs i (some (some p)) e ne h = (omega (arith, h.0), h.1)

pub find_open-Finds :
    (f : ℕ → Option Inode) (sector : ℕ) (xs : List ℕ)
    → ((p : ℕ) → 0 < count p xs → IsOpen f p)
    → Finds f sector xs (find_open f sector xs)
unfolding find_open
find_open-Finds f sector [] l = λ p i c. elim c [ ]
find_open-Finds f sector (x ∷ xs) l =
    let o = l x (ground arith) in
    elim (Bool-cases (o.node.sector == sector)) [
      | inl e ↦ rw (o.points, e, find_open) (ground arith, (o.node, o.points, ground arith))
      | inr e ↦
          rw (o.points, e, find_open)
            (Finds-cons f sector x xs o.node (find_open f sector xs) o.points (ground arith)
              (find_open-Finds f sector xs (λ p h. l p (omega arith))))
    ]

-- An inode of the list may change as long as it keeps its sector and its counts stay in order.
module _ (f : ℕ → Option Inode) (xs : List ℕ) (p : ℕ) (i v : Inode) where
  updated_back :
      f p ≡ some i
      → v.sector ≡ i.sector
      → (q : ℕ) (j : Inode) → put_inode f p (some v) q ≡ some j
      → (k : Inode) × (f q ≡ some k) × (k.sector ≡ j.sector)
  updated_back e same q j h = elim (Bool-cases (q == p)) [
    | inl y ↦ (i, ground arith, ground arith)
    | inr y ↦ (j, rw y at h, refl)
  ]

  updated-IsOpen :
      0 < v.open_cnt
      → v.deny_write_cnt ≤ v.open_cnt
      → (q : ℕ) → IsOpen f q
      → IsOpen (put_inode f p (some v)) q
  updated-IsOpen l d q o = elim (Bool-cases (q == p)) [
    | inl y ↦ record { node = v; points = rw y; opened = l; denied = d }
    | inr y ↦ record { node = o.node; points = rw y o.points; opened = o.opened; denied = o.denied }
  ]

  pub updated-IsTable :
      IsTable f xs
      → f p ≡ some i
      → v.sector ≡ i.sector
      → 0 < v.open_cnt
      → v.deny_write_cnt ≤ v.open_cnt
      → IsTable (put_inode f p (some v)) xs
  updated-IsTable t e same l d = record {
    once = t.once;
    live = λ q h. updated-IsOpen l d q (t.live q h);
    sole = λ q r j k h h' a b c.
        let (j', a', s) = updated_back e same q j a in
        let (k', b', s') = updated_back e same r k b in
        t.sole q r j' k' h h' a' b' (s ∙ c ∙ sym s');
    not_null = t.not_null;
  }

-- A new inode, at an address that was not allocated and for a sector that no inode has.
module _ (f : ℕ → Option Inode) (xs : List ℕ) (p : ℕ) (v : Inode) where
  added-IsOpen :
      IsTable f xs
      → f p ≡ none
      → 0 < v.open_cnt
      → v.deny_write_cnt ≤ v.open_cnt
      → (q : ℕ) → 0 < count q (p ∷ xs)
      → IsOpen (put_inode f p (some v)) q
  added-IsOpen t e l d q h = elim (Bool-cases (q == p)) [
    | inl y ↦ record { node = v; points = rw y; opened = l; denied = d }
    | inr y ↦
        let o = t.live q (ground arith) in
        record { node = o.node; points = rw y o.points; opened = o.opened; denied = o.denied }
  ]

  added_sole :
      IsTable f xs
      → f p ≡ none
      → ((q : ℕ) (j : Inode) → 0 < count q xs → f q ≡ some j → j.sector ≢ v.sector)
      → (q r : ℕ) (j k : Inode) → 0 < count q (p ∷ xs)
      → 0 < count r (p ∷ xs)
      → put_inode f p (some v) q ≡ some j
      → put_inode f p (some v) r ≡ some k
      → j.sector ≡ k.sector
      → q ≡ r
  added_sole t e other q r j k h h' a b c = elim (Bool-cases (q == p)) [
    | inl y ↦ elim (Bool-cases (r == p)) [
      | inl z ↦ ground arith
      | inr z ↦
          let vj : v ≡ j = ground arith in
          absurd (other r k (ground arith) (rw z at b) (sym c ∙ ap (λ i. i.sector) (sym vj)))
    ]
    | inr y ↦ elim (Bool-cases (r == p)) [
      | inl z ↦
          let vk : v ≡ k = ground arith in
          absurd (other q j (ground arith) (rw y at a) (c ∙ ap (λ i. i.sector) (sym vk)))
      | inr z ↦ t.sole q r j k (ground arith) (ground arith) (rw y at a) (rw z at b) c
    ]
  ]

  pub added-IsTable :
      IsTable f xs
      → p ≢ null
      → f p ≡ none
      → ((q : ℕ) (j : Inode) → 0 < count q xs → f q ≡ some j → j.sector ≢ v.sector)
      → 0 < v.open_cnt
      → v.deny_write_cnt ≤ v.open_cnt
      → IsTable (put_inode f p (some v)) (p ∷ xs)
  added-IsTable t z e other l d =
      let out : count p xs ≡ 0 = ground (arith, t.live p) in
      record {
        once = λ q. ground (arith, t.once q);
        live = added-IsOpen t e l d;
        sole = added_sole t e other;
        not_null = ground (arith, t.not_null);
      }

-- An inode is taken out of the list, and the others stay as they are.
module _ (f g : ℕ → Option Inode) (xs : List ℕ) (p : ℕ) where
  others_left : IsTable f xs → (q : ℕ) → 0 < count q (remove p xs) → (q ≢ p) × (0 < count q xs)
  others_left t q h = ground (arith, count-remove p q xs, t.once q)

  left-IsOpen : ((q : ℕ) → q ≢ p → g q ≡ f q) → (q : ℕ) → q ≢ p → IsOpen f q → IsOpen g q
  left-IsOpen same q ne o = record {
    node = o.node;
    points = same q ne ∙ o.points;
    opened = o.opened;
    denied = o.denied;
  }

  pub left-IsTable : ((q : ℕ) → q ≢ p → g q ≡ f q) → IsTable f xs → IsTable g (remove p xs)
  left-IsTable same t = record {
    once = λ q. ground (arith, count-remove p q xs, t.once q);
    live = λ q h. let (ne, m) = others_left t q h in left-IsOpen same q ne (t.live q m);
    sole = λ q r j k h h' a b c.
        let (ne, m) = others_left t q h in
        let (ne', m') = others_left t r h' in
        t.sole q r j k m m' (sym (same q ne) ∙ a) (sym (same r ne') ∙ b) c;
    not_null = ground (arith, count-remove p null xs, t.not_null);
  }

module _ {Disk : Type 0} where
  pub deref-ok : (p : ℕ) (i : Inode) (s : Fs Disk) → s.inode p ≡ some i → deref p s ≡ some (i, s)
  unfolding deref
  deref-ok p i s e = rw (e, deref) refl
