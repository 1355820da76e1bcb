-- ===== src/Syscall/Fd/Open.antt =====
-- Descriptors that open() of userprog/syscall.c gives out.
use pintos.Prelude.{
  All, Any, ◌==◌, if◌then◌else◌, Bool-cases, ℕ, suc, ◌+◌, ◌≤◌, ◌<◌, ◌≡◌, refl, ap, ◌∙◌, ◌≢◌, ◌⊎◌,
  inl, inr, Bool, false, Option, none, some, List, [], ◌∷◌, ◌++◌, arith,
}
use pintos.Prelude.Int.{ℤ, pos, negsuc, eq_ℤ}
use pintos.Syscall.Fd.{FdElem, current_fd, find_fd, new_elem, elem_file}

abbrev or_else : Option FdElem → Option FdElem → Option FdElem
or_else none b = b
or_else (some a) b = some a

find_fd-append :
    (fd : ℤ) (cur : ℕ) (es : List FdElem) (e : FdElem)
    → find_fd fd cur (es ++ (e ∷ [])) ≡ or_else (find_fd fd cur es) (find_fd fd cur (e ∷ []))
unfolding find_fd
find_fd-append fd cur [] e = refl
find_fd-append fd cur (x ∷ xs) e = ground (arith, find_fd-append fd cur xs e)

-- Every descriptor of the process is below the next one that open() would give.
abbrev pub IsBelow : ℕ → ℕ → List FdElem → Type 0
IsBelow cur n es = All (λ e. (e.owner ≢ cur) ⊎ (e.fd < n)) es

find_fd_above :
    (cur n m : ℕ) (es : List FdElem) → IsBelow cur n es → n ≤ m → find_fd (pos m) cur es ≡ none
unfolding find_fd
find_fd_above cur n m [] h l = refl
find_fd_above cur n m (x ∷ xs) h l = ground (arith, find_fd_above cur n m xs h.1 l, h.0)

IsBelow-append :
    (cur n m : ℕ) (es : List FdElem) (e : FdElem)
    → IsBelow cur n es
    → n ≤ m
    → e.fd < m
    → IsBelow cur m (es ++ (e ∷ []))
IsBelow-append cur n m [] e h l b = (inr b, tt)
IsBelow-append cur n m (x ∷ xs) e h l b =
    (elim h.0 [ inl o ↦ inl o | inr c ↦ inr (omega arith) ], IsBelow-append cur n m xs e h.1 l b)

pos_eq : (fd : ℤ) (n : ℕ) → (fd ≡ pos n) ⊎ (eq_ℤ (pos n) fd ≡ false)
pos_eq (pos m) n = elim (Bool-cases (n == m)) [
  | inl e ↦ inl (ap pos (ground arith))
  | inr e ↦ inr (rw e refl)
]
pos_eq (negsuc m) n = inr (ground arith)

find_one : (fd : ℤ) (cur : ℕ) (e : FdElem) → (fd ≡ pos e.fd) ⊎ (find_fd fd cur (e ∷ []) ≡ none)
unfolding find_fd
find_one fd cur e = elim (pos_eq fd e.fd) [ inl h ↦ inl h | inr h ↦ inr (ground arith) ]

or_else-none : (a : Option FdElem) → or_else a none ≡ a
or_else-none none = refl
or_else-none (some a) = refl

current_fd-append :
    (cur : ℕ) (es : List FdElem) (e : FdElem)
    → current_fd cur (es ++ (e ∷ [])) ≡ current_fd cur es + (if e.owner == cur then 1 else 0)
unfolding current_fd
current_fd-append cur [] e = omega arith
current_fd-append cur (x ∷ xs) e = omega (arith, current_fd-append cur xs e)

-- As long as every descriptor of the process is below the next one, the descriptor that open() gives
-- is found again with the entry that open() made, other descriptors are found as before, and the
-- descriptors of the process are below the next one again.
pub find_fd-new_elem :
    (cur file filename dir : ℕ) (is_exe isdir : Bool) (es : List FdElem)
    → IsBelow cur (current_fd cur es + 2) es
    → let e = new_elem cur file filename is_exe dir isdir es in
      let es' = es ++ (e ∷ []) in
      (find_fd (pos e.fd) cur es' ≡ some e)
      × ((fd : ℤ) → (fd ≡ pos e.fd) ⊎ (find_fd fd cur es' ≡ find_fd fd cur es))
      × IsBelow cur (current_fd cur es' + 2) es'
unfolding new_elem find_fd
find_fd-new_elem cur file filename dir is_exe isdir es h =
    let e = new_elem cur file filename is_exe dir isdir es in
    (
      find_fd-append (pos e.fd) cur es e
          ∙ rw (find_fd_above cur _ (current_fd cur es + 2) es h (omega arith)) (ground arith),
      λ fd. elim (find_one fd cur e) [
        | inl h ↦ inl h
        | inr n ↦ inr (find_fd-append fd cur es e ∙ rw n (or_else-none _))
      ],
      IsBelow-append cur _ _ es e h (omega (arith, current_fd-append cur es e))
          (ground (arith, current_fd-append cur es e)),
    )

elem_file-append :
    (file cur : ℕ) (es : List FdElem) (a : FdElem)
    → Any (λ e. (e.file ≡ file) × (e.owner ≡ cur)) es
    → (elem_file file cur (es ++ (a ∷ [])) ≡ elem_file file cur es ++ (a ∷ []))
      × (current_fd cur es ≡ suc (current_fd cur (elem_file file cur es)))
unfolding current_fd elem_file
elem_file-append file cur [] a h = absurd h
elem_file-append file cur (x ∷ xs) a (inl h) = ground arith
elem_file-append file cur (x ∷ xs) a (inr h) = ground (arith, elem_file-append file cur xs a h)

-- A process opens a file, closes one that it opened before, and opens another: the last open() gives
-- the descriptor of the first one again, whose entry is still in the table.
pub new_elem-elem_file :
    (cur file : ℕ) (es : List FdElem) (a b : FdElem)
    → Any (λ e. (e.file ≡ file) × (e.owner ≡ cur)) es
    → a ≡ new_elem cur a.file a.filename a.is_exe a.dir a.isdir es
    → b
      ≡ new_elem cur b.file b.filename b.is_exe b.dir b.isdir (elem_file file cur (es ++ (a ∷ [])))
    → (elem_file file cur (es ++ (a ∷ [])) ≡ elem_file file cur es ++ (a ∷ [])) × (b.fd ≡ a.fd)
unfolding new_elem current_fd
new_elem-elem_file cur file es a b h ea eb =
    let (e, n) = elem_file-append file cur es a h in
    let o : a.owner ≡ cur = ap (λ x. x.owner) ea in
    let fa : a.fd ≡ current_fd cur es + 2 = ap (λ x. x.fd) ea in
    let fb : b.fd ≡ current_fd cur (elem_file file cur (es ++ (a ∷ []))) + 2 = ap (λ x. x.fd) eb in
    let m = current_fd-append cur (elem_file file cur es) a in (e, ground arith)
