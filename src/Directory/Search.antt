-- ===== src/Directory/Search.antt =====
-- lookup() of filesys/directory.c as a search in the list of the directory's entries.
use Prim.Native.Nat.{min}
use pintos.Prelude.{
  length, drop, ltb, ◌==◌, ==_iff, Bool-cases, apart, ℕ, zero, suc, ◌+◌, ◌-◌, ◌*◌, ◌/◌, ◌≤◌, ◌<◌,
  ◌≡◌, refl, ap, ◌∙◌, ◌≢◌, inl, inr, Bool, true, false, ◌&&◌, Option, none, some, List, [], ◌∷◌,
  ◌++◌, arith,
}
use pintos.Prelude.State.{Returns, Returns-bind}
use pintos.Cache.Load.{read_at-file_bytes}
use pintos.Cache.Read.{inode_length-ok}
use pintos.Directory.{
  Pointer, points_null, points_valid, points_unset, deref_dir, rounds_of, lookup_from, store_result,
  store_results, lookup,
}
use pintos.Directory.Entry.{DirEntry, same_string, entry_name, entry_in_use, overlay}
use pintos.Inode.{InodeDisk}
use pintos.Inode.Bytes.{file_bytes, length-file_bytes}
use pintos.Inode.Read.{IsMapped}
use pintos.Inode.Table.{Inode}
use pintos.Inode.Table.Access.{read_at}
use pintos.Machine.{Machine}
use pintos.System.{Dir, System, fs_task}

drop_all : (n : ℕ) (xs : List ℕ) → length xs ≡ n → drop n xs ≡ []
drop_all zero [] h = refl
drop_all zero (x ∷ xs) h = absurd (omega arith)
drop_all (suc n) [] h = refl
drop_all (suc n) (x ∷ xs) h = drop_all n xs (omega arith)

append_nil : (xs : List ℕ) → xs ++ [] ≡ xs
append_nil [] = refl
append_nil (x ∷ xs) = ap (λ r. x ∷ r) (append_nil xs)

abbrev pub matches : List ℕ → DirEntry → Bool
matches name e = entry_in_use e && same_string name (entry_name e)

module _ {Disk : Type 0} (m : Machine Disk) where
  -- The entry with number `k` of a directory.
  abbrev pub entry_at : Disk → InodeDisk → ℕ → DirEntry
  entry_at d i k = file_bytes m.dev d i (k * 24) 24

  -- The first of the entries in use that has the name, and its offset.
  pub record IsFirst (d : Disk) (i : InodeDisk) (name : List ℕ) (e : DirEntry) (ofs : ℕ)
      : Type 0 where
    pub number : ℕ
    pub bound : number < i.length / 24
    pub offset : ofs ≡ number * 24
    pub entry : e ≡ entry_at d i number
    pub named : matches name e ≡ true
    pub earlier : (j : ℕ) → j < number → matches name (entry_at d i j) ≡ false

  abbrev pub Searched : Disk → InodeDisk → List ℕ → Option (DirEntry × ℕ) → Type 0
  Searched d i name none = (j : ℕ) → j < i.length / 24 → matches name (entry_at d i j) ≡ false
  Searched d i name (some (e, ofs)) = IsFirst d i name e ofs

  module _ (s : System Disk) (inode : ℕ) (node : Inode) (b : m.bounce ≡ true)
      (at : s.files.fs.inode inode ≡ some node)
      (mapped : IsMapped m.dev s.files.fs.device node.disk) where
    pub read_entry :
        (k : ℕ)
        → fs_task (read_at m inode 24 (k * 24)) s
          ≡ some (
            file_bytes m.dev s.files.fs.device node.disk
                (k * 24)
                (min 24 (node.disk.length - k * 24)),
            s,
          )
    read_entry k = rw (read_at-file_bytes m s.files.fs inode 24 (k * 24) node b at mapped) refl

    pub overlay_entry :
        (k : ℕ) (e : DirEntry)
        → length e ≡ 24
        → overlay (entry_at s.files.fs.device node.disk k) e
          ≡ entry_at s.files.fs.device node.disk k
    overlay_entry k e h =
        let d = entry_at s.files.fs.device node.disk k in
        let l : length d ≡ 24 = length-file_bytes m.dev s.files.fs.device node.disk (k * 24) 24 in
        ap (λ r. d ++ r) (ap (λ n. drop n e) l ∙ drop_all 24 e h) ∙ append_nil d

    extend_earlier :
        (name : List ℕ) (k : ℕ)
        → ((j : ℕ) → j < k → matches name (entry_at s.files.fs.device node.disk j) ≡ false)
        → matches name (entry_at s.files.fs.device node.disk k) ≡ false
        → (j : ℕ) → j < suc k
        → matches name (entry_at s.files.fs.device node.disk j) ≡ false
    extend_earlier name k f g j l = elim (Bool-cases (j == k)) [
      | inl e ↦ rw ((==_iff j k).0 e) g
      | inr e ↦ let n = apart j k e in f j (omega arith)
    ]

    lookup_from-Searched :
        (fuel k : ℕ) (name : List ℕ) (e : DirEntry)
        → length e ≡ 24
        → k ≤ node.disk.length / 24
        → fuel + k ≡ suc (node.disk.length / 24)
        → ((j : ℕ) → j < k → matches name (entry_at s.files.fs.device node.disk j) ≡ false)
        → Returns
            (λ r s'. (s' ≡ s) × Searched s.files.fs.device node.disk name r)
            (lookup_from m fuel inode name e (k * 24) s)
    unfolding lookup_from
    lookup_from-Searched zero k name e l h f q = absurd (omega arith)
    lookup_from-Searched (suc fuel) k name e l h f q =
        let d = s.files.fs.device in
        elim (Bool-cases (ltb k (node.disk.length / 24))) [
          | inr end ↦
              let r = min 24 (node.disk.length - k * 24) in
              let short : (r == 24) ≡ false = ground arith in
              rw (read_entry k) (
                rw (length-file_bytes m.dev d node.disk (k * 24) r)
                  (rw short (refl, (λ j i. q j (ground arith)))))
          | inl more ↦
              let full : min 24 (node.disk.length - k * 24) ≡ 24 = ground arith in
              rw (read_entry k) (
                rw full (
                  rw (overlay_entry k e l, length-file_bytes m.dev d node.disk (k * 24) 24)
                    (elim (Bool-cases (matches name (entry_at d node.disk k))) [
                      | inl y ↦ rw y (
                        refl,
                        record {
                          number = k;
                          bound = ground arith;
                          offset = refl;
                          entry = refl;
                          named = y;
                          earlier = q;
                        },
                      )
                      | inr n ↦
                          let next : k * 24 + 24 ≡ suc k * 24 = omega arith in
                          rw (n, next)
                            (lookup_from-Searched fuel (suc k) name (entry_at d node.disk k)
                              (length-file_bytes m.dev d node.disk (k * 24) 24) (ground arith)
                              (omega arith) (extend_earlier name k q n))
                    ])))
        ]

  -- An argument of lookup() that is not left unset.
  abbrev pub IsGiven : Pointer → Type 0
  IsGiven points_unset = ⊥
  IsGiven _ = Unit {0}

  store_result-ok : (p : Pointer) (s : System Disk) → IsGiven p → store_result m p s ≡ some (tt, s)
  unfolding store_result
  store_result-ok points_null s h = refl
  store_result-ok points_valid s h = refl
  store_result-ok points_unset s h = absurd h

  pub rounds-ok :
      (s : System Disk) (inode : ℕ) (node : Inode)
      → s.files.fs.inode inode ≡ some node
      → rounds_of inode s ≡ some (suc (node.disk.length / 24), s)
  unfolding rounds_of
  rounds-ok s inode node e = rw (inode_length-ok m s inode node e) refl

  pub deref_dir-ok :
      (s : System Disk) (p : ℕ) (d : Dir) → s.dir p ≡ some d → deref_dir p s ≡ some (d, s)
  unfolding deref_dir
  deref_dir-ok s p d h = rw (h, deref_dir) refl

  -- lookup() always returns, and changes nothing. It gives the first of the whole entries of the
  -- directory that is in use and has the name, with its offset, and fails only if there is none. The
  -- bytes of the directory must be mapped to readable sectors, malloc() must give a bounce buffer, and
  -- the two pointers must be set.
  pub lookup-Searched :
      (s : System Disk) (dir : ℕ) (name : List ℕ) (ep ofsp : Pointer) (d : Dir) (node : Inode)
      → m.bounce ≡ true
      → length m.unset ≡ 24
      → dir ≢ 0
      → IsGiven ep
      → IsGiven ofsp
      → s.dir dir ≡ some d
      → s.files.fs.inode d.inode ≡ some node
      → IsMapped m.dev s.files.fs.device node.disk
      → Returns
          (λ r s'. (s' ≡ s) × Searched s.files.fs.device node.disk name r)
          (lookup m dir name ep ofsp s)
  unfolding lookup
  lookup-Searched s dir name ep ofsp d node b u z p q h e w =
      let live : (dir == 0) ≡ false = ground arith in
      rw live (
        rw (deref_dir-ok s dir d h) (
          rw (rounds-ok s d.inode node e) (
            Returns-bind _ _ (lookup_from m (suc (node.disk.length / 24)) d.inode name m.unset 0 s)
              _
              (lookup_from-Searched s d.inode node b e w (suc (node.disk.length / 24)) 0 name
                m.unset u (omega arith) (omega arith) (λ j l. absurd (omega arith)))
              stored)))
    where
      stored :
          (r : Option (DirEntry × ℕ)) (s' : System Disk)
          → (s' ≡ s) × Searched s.files.fs.device node.disk name r
          → Returns
              (λ r' s''. (s'' ≡ s) × Searched s.files.fs.device node.disk name r')
              (store_results m ep ofsp r s')
      stored none s' k = k
      stored (some (e', ofs)) s' k = rw (store_result-ok ep s' p) (rw (store_result-ok ofsp s' q) k)
