-- ===== src/Directory/Entry/Fields.antt =====
-- The fields of a struct dir_entry of filesys/directory.c after dir_add() has filled it.
use pintos.Prelude.{
  length, get_or, set, take, drop, All, length-append, length-take, length-drop, length-set,
  drop-append, ◌==◌, ℕ, zero, suc, ◌+◌, ◌-◌, ◌≤◌, ◌<◌, ◌≡◌, refl, sym, ap, ◌∙◌, ◌≢◌, Bool, true,
  false, not, List, [], ◌∷◌, ◌++◌, arith,
}
use pintos.Block.Words.{words, bytes}
use pintos.Directory.Entry.{
  DirEntry, c_string, bool_byte, entry_sector, entry_name, entry_in_use, entry_isdir, set_name,
  set_in_use, fill_entry,
}
use pintos.Examples.Inodes.{small}

module _ {A : Type 0} where
  get_or-append :
      (xs ys : List A) (i : ℕ) (d : A) → get_or (xs ++ ys) (length xs + i) d ≡ get_or ys i d
  get_or-append [] ys i d = ap (λ k. get_or ys k d) (omega arith)
  get_or-append (x ∷ xs) ys i d =
      let e : suc (length xs) + i ≡ suc (length xs + i) = omega arith in
      rw e (get_or-append xs ys i d)

  get_or-drop : (n i : ℕ) (xs : List A) (d : A) → get_or (drop n xs) i d ≡ get_or xs (n + i) d
  get_or-drop zero i xs d = ap (λ k. get_or xs k d) (omega arith)
  get_or-drop (suc n) i [] d = refl
  get_or-drop (suc n) i (x ∷ xs) d =
      let e : suc n + i ≡ suc (n + i) = omega arith in rw e (get_or-drop n i xs d)

  get_or-set : (xs : List A) (i : ℕ) (v d : A) → i < length xs → get_or (set xs i v) i d ≡ v
  get_or-set [] i v d h = absurd (omega arith)
  get_or-set (x ∷ xs) zero v d h = refl
  get_or-set (x ∷ xs) (suc i) v d h = get_or-set xs i v d (omega arith)

  get_or-set_other :
      (xs : List A) (i j : ℕ) (v d : A) → i ≢ j → get_or (set xs i v) j d ≡ get_or xs j d
  get_or-set_other [] i j v d h = refl
  get_or-set_other (x ∷ xs) zero zero v d h = absurd (h refl)
  get_or-set_other (x ∷ xs) zero (suc j) v d h = refl
  get_or-set_other (x ∷ xs) (suc i) zero v d h = refl
  get_or-set_other (x ∷ xs) (suc i) (suc j) v d h = get_or-set_other xs i j v d (λ e. h (ap suc e))

  set-append :
      (xs ys : List A) (i : ℕ) (v : A) → set (xs ++ ys) (length xs + i) v ≡ xs ++ set ys i v
  set-append [] ys i v = ap (λ k. set ys k v) (omega arith)
  set-append (x ∷ xs) ys i v =
      let e : suc (length xs) + i ≡ suc (length xs + i) = omega arith in
      rw e (ap (◌∷◌ x) (set-append xs ys i v))

take_short : (n : ℕ) (s : List ℕ) → length s ≤ n → take n s ≡ s
take_short zero [] h = refl
take_short zero (x ∷ s) h = absurd (omega arith)
take_short (suc n) [] h = refl
take_short (suc n) (x ∷ s) h = ap (◌∷◌ x) (take_short n s (omega arith))

append_assoc : (a b c : List ℕ) → (a ++ b) ++ c ≡ a ++ (b ++ c)
append_assoc [] b c = refl
append_assoc (x ∷ a) b c = ap (◌∷◌ x) (append_assoc a b c)

-- A string is read up to its terminator.
c_string-append : (s r : List ℕ) → All (λ b. b ≢ 0) s → c_string (s ++ (0 ∷ r)) ≡ s
unfolding c_string
c_string-append [] r h = refl
c_string-append (b ∷ s) r h =
    let e : (b == 0) ≡ false = ground (arith, h.0) in rw e (ap (◌∷◌ b) (c_string-append s r h.1))

module _ (name : List ℕ) (sector : ℕ) (isdir : Bool) (e : DirEntry) (n : length name ≤ 14)
    (size : length e ≡ 24) where
  -- The bytes from the name on.
  tail : List ℕ
  tail = drop 4 (set_name name (set_in_use true e))

  rest : List ℕ
  rest = drop (length name + 1) (drop 4 (set e 19 1))

  tail-append : tail ≡ name ++ (0 ∷ rest)
  unfolding tail rest set_name
  tail-append =
      let old = set e 19 1 in
      let head : length (take 4 old) ≡ 4 = omega (arith, length-take 4 old, length-set e 19 1) in
      let short : take 14 name ≡ name = take_short 14 name n in
      let long : length (name ++ (0 ∷ [])) ≡ length name + 1 = length-append name (0 ∷ []) in
      let more = (name ++ (0 ∷ [])) ++ drop (length name + 1) (drop 4 old) in
      rw (short, long)
        (ap (λ k. drop k (take 4 old ++ more)) (sym head)
          ∙ drop-append (take 4 old) more
          ∙ append_assoc name (0 ∷ []) (drop (length name + 1) (drop 4 old)))

  filled : fill_entry name sector isdir e ≡ bytes (sector ∷ []) ++ set tail 16 (bool_byte isdir)
  unfolding fill_entry bytes tail
  filled = refl

  -- The bytes after the terminator, with the field `isdir`.
  after : List ℕ
  after = set rest (15 - length name) (bool_byte isdir)

  named : set tail 16 (bool_byte isdir) ≡ name ++ (0 ∷ after)
  unfolding after
  named =
      let at : 16 ≡ length name + suc (15 - length name) = omega arith in
      ap (λ x. set x 16 (bool_byte isdir)) tail-append
      ∙ ap (λ k. set (name ++ (0 ∷ rest)) k (bool_byte isdir)) at
      ∙ set-append name (0 ∷ rest) (suc (15 - length name)) (bool_byte isdir)

  length-rest : length rest ≡ 19 - length name
  unfolding rest
  length-rest = omega (
    arith,
    length-drop (length name + 1) (drop 4 (set e 19 1)),
    length-drop 4 (set e 19 1),
    length-set e 19 1,
  )

  -- Byte `k` of the entry, beyond the name.
  beyond :
      (k : ℕ)
      → length name < k
      → get_or (bytes (sector ∷ []) ++ set tail 16 (bool_byte isdir)) (4 + k) 0
        ≡ get_or after (k - length name - 1) 0
  unfolding bytes
  beyond k h =
      let at : k ≡ length name + suc (k - length name - 1) = omega arith in
      get_or-append (bytes (sector ∷ [])) (set tail 16 (bool_byte isdir)) k 0
      ∙ ap (λ x. get_or x k 0) named
      ∙ ap (λ j. get_or (name ++ (0 ∷ after)) j 0) at
      ∙ get_or-append name (0 ∷ after) (suc (k - length name - 1)) 0

  in_use_byte : get_or after (15 - length name - 1) 0 ≡ 1
  unfolding after rest
  in_use_byte =
      get_or-set_other rest (15 - length name) (15 - length name - 1) (bool_byte isdir) 0
        (λ q. omega arith)
      ∙ get_or-drop (length name + 1) (15 - length name - 1) (drop 4 (set e 19 1)) 0
      ∙ ap (λ k. get_or (drop 4 (set e 19 1)) k 0) (omega arith)
      ∙ get_or-drop 4 15 (set e 19 1) 0
      ∙ get_or-set e 19 1 0 (omega arith)

  isdir_byte : get_or after (16 - length name - 1) 0 ≡ bool_byte isdir
  unfolding after
  isdir_byte =
      ap (λ k. get_or (set rest (15 - length name) (bool_byte isdir)) k 0) (omega arith)
      ∙ get_or-set rest (15 - length name) (bool_byte isdir) 0 (omega (arith, length-rest))

-- An entry that dir_add() fills gives back what was put into it, as lookup() and dir_readdir() read
-- it: the name, the sector, that it is in use and whether it is a directory. The name has at most
-- NAME_MAX bytes and none is zero, the sector's number has 32 bits, and the entry has 24 bytes.
pub fill_entry-fields :
    (name : List ℕ) (sector : ℕ) (isdir : Bool) (e : DirEntry)
    → length name ≤ 14
    → All (λ b. b ≢ 0) name
    → sector < 4294967296
    → length e ≡ 24
    → let f = fill_entry name sector isdir e in
      (entry_name f ≡ name)
      × (entry_sector f ≡ sector)
      × (entry_in_use f ≡ true)
      × (entry_isdir f ≡ isdir)
unfolding entry_name entry_sector entry_in_use entry_isdir bytes words
fill_entry-fields name sector isdir e n nz small size = rw (filled name sector isdir e n size) (
  ap c_string (named name sector isdir e n size) ∙ c_string-append name _ nz,
  omega arith,
  ap (λ k. not (k == 0))
      (beyond name sector isdir e n size 15 (omega arith) ∙ in_use_byte name sector isdir e n size),
  ap (λ k. not (k == 0))
        (beyond name sector isdir e n size 16 (omega arith) ∙ isdir_byte name sector isdir e n size)
      ∙ nonzero isdir,
)
  where
    nonzero : (b : Bool) → not (bool_byte b == 0) ≡ b
    nonzero true = refl
    nonzero false = refl
