-- ===== src/Syscall/Calls/Exit.antt =====
-- allClose() of userprog/syscall.c, at the end of a process.
use pintos.Prelude.{
  ◌==◌, if◌then◌else◌, Bool-cases, ℕ, ◌≡◌, refl, ap, ◌≢◌, inl, inr, false, ◌&&◌, Option, none, some,
  List, [], ◌∷◌, arith,
}
use pintos.Prelude.Int.{ℤ, pos, eq_ℤ}
use pintos.Prelude.State.{pure, and_then, ◌>>◌}
use pintos.Cache.User.{file_close_user}
use pintos.Machine.{Machine}
use pintos.Syscall.Calls.{Calls, Call, call, put_list, close_from, all_close}
use pintos.Syscall.Fd.{FdElem, find_fd}

owned : ℕ → List FdElem → List FdElem
owned cur [] = []
owned cur (e ∷ es) = if e.owner == cur then e ∷ owned cur es else owned cur es

-- The entries of the other processes, in the same order.
unfoldable pub others : ℕ → List FdElem → List FdElem
others cur [] = []
others cur (e ∷ es) = if e.owner == cur then others cur es else e ∷ others cur es

none_left : (cur : ℕ) (fd : ℤ) (es : List FdElem) → find_fd fd cur (others cur es) ≡ none
unfolding find_fd others
none_left cur fd [] = refl
none_left cur fd (e ∷ es) = elim (Bool-cases (e.owner == cur)) [
  | inl o ↦ rw o (none_left cur fd es)
  | inr o ↦ rw (o, o) (none_left cur fd es)
]

others_found :
    (cur c : ℕ) (fd : ℤ) (es : List FdElem)
    → c ≢ cur
    → find_fd fd c (others cur es) ≡ find_fd fd c es
unfolding find_fd others
others_found cur c fd [] h = refl
others_found cur c fd (e ∷ es) h =
    let rest = others_found cur c fd es h in
    elim (Bool-cases (e.owner == cur)) [
      | inl o ↦ let another : (e.owner == c) ≡ false = ground arith in rw (o, another) rest
      | inr o ↦ rw o (ap (λ r. if (e.owner == c) && eq_ℤ (pos e.fd) fd then some e else r) rest)
    ]

module _ {Disk : Type 0} (m : Machine Disk) where
  -- The files of the entries are closed, one after the other.
  unfoldable pub close_each : List FdElem → Call Disk (Unit {0})
  close_each [] = pure tt
  close_each (e ∷ es) = call (file_close_user m e.file) >> close_each es

  unfoldable pub close_owned : List FdElem → Call Disk (Unit {0})
  unfolding owned close_each
  close_owned es = close_each (owned m.cur es)

  close_from-others :
      (es : List FdElem) (s : Calls Disk)
      → close_from m es s ≡ (close_owned es >> pure (others m.cur es)) s
  unfolding close_from owned others close_each close_owned
  close_from-others [] s = refl
  close_from-others (e ∷ es) s = elim (Bool-cases (e.owner == m.cur)) [
    | inl o ↦ rw o (by_close (λ t. close_from-others es t) (call (file_close_user m e.file) s))
    | inr o ↦ rw (o, close_from-others es s) (by_rest (close_each (owned m.cur es) s))
  ]
    where
      by_close :
          ((t : Calls Disk) → close_from m es t ≡ (close_owned es >> pure (others m.cur es)) t)
          → (r : Option (Unit {0} × Calls Disk))
          → and_then r (λ _. close_from m es)
            ≡ and_then (and_then r (λ _. close_each (owned m.cur es))) (λ _. pure (others m.cur es))
      by_close h none = refl
      by_close h (some (u, t)) = h t

      by_rest :
          (r : Option (Unit {0} × Calls Disk))
          → and_then (and_then r (λ _. pure (others m.cur es))) (λ kept. pure (e ∷ kept))
            ≡ and_then r (λ _. pure (e ∷ others m.cur es))
      by_rest none = refl
      by_rest (some (u, t)) = refl

  -- allClose() closes exactly the files of the running process, one after the other in the order of
  -- their descriptors, and keeps the other entries: afterwards no descriptor of the process is found,
  -- and each descriptor of another process gives what it gave before.
  pub all_close-others :
      (s : Calls Disk) (fd : ℤ) (c : ℕ)
      → c ≢ m.cur
      → (all_close m s ≡ (close_owned s.fd_list >> put_list (others m.cur s.fd_list)) s)
        × (find_fd fd m.cur (others m.cur s.fd_list) ≡ none)
        × (find_fd fd c (others m.cur s.fd_list) ≡ find_fd fd c s.fd_list)
  unfolding all_close
  all_close-others s fd c h = (
    rw (close_from-others s.fd_list s) (by_result (close_owned s.fd_list s)),
    none_left m.cur fd s.fd_list,
    others_found m.cur c fd s.fd_list h,
  )
    where
      by_result :
          (r : Option (Unit {0} × Calls Disk))
          → and_then (and_then r (λ _. pure (others m.cur s.fd_list))) (λ kept. put_list kept)
            ≡ and_then r (λ _. put_list (others m.cur s.fd_list))
      by_result none = refl
      by_result (some (u, t)) = refl
