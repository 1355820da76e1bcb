-- ===== src/Directory/Add.antt =====
-- What dir_add() of filesys/directory.c writes.
use pintos.Prelude.{
  length, ltb, ◌==◌, Bool-cases, ℕ, ◌+◌, ◌%◌, ◌≡◌, refl, inl, inr, Bool, false, not, ◌||◌, Option,
  none, some, List, arith,
}
use pintos.Prelude.State.{check, when, Ensures, Ensures-after, Ensures-bind}
use pintos.Directory.{
  points_null, dir_get_inode, rounds_of, lookup, free_slot, write_slot, is_found, dir_add,
}
use pintos.Directory.Entry.{name_max, fill_entry}
use pintos.Inode.Table.{Fs, Cmd, deref}
use pintos.Inode.Table.Access.{written, write_open, write_at}
use pintos.Inode.Table.Extend.{file_extension}
use pintos.Inode.Write.{IsWhole, write_loop-IsWhole}
use pintos.Machine.{Machine}
use pintos.System.{System, with_fs, fs_task}
use pintos.Thread.{null}

module _ {Disk : Type 0} (m : Machine Disk) where
  -- The bytes written are a number of whole sectors.
  written-IsWhole :
      (fs : Fs Disk) (offset : ℕ) (r : Option (ℕ × Disk))
      → IsWhole m.dev offset r
      → Ensures (λ n _. n % 512 ≡ 0) (written r fs)
  unfolding IsWhole
  written-IsWhole fs offset none h = tt
  written-IsWhole fs offset (some (n, d)) h = h.0

  write_at-IsWhole :
      (p : ℕ) (buffer : List ℕ) (size offset : ℕ) (fs : Fs Disk)
      → Ensures (λ n _. n % 512 ≡ 0) (write_at m p buffer size offset fs)
  unfolding write_at write_open
  write_at-IsWhole p buffer size offset fs = Ensures-after _ (deref p fs) _ (λ i t.
      elim (Bool-cases (not (i.deny_write_cnt == 0))) [
        | inl e ↦ rw e refl
        | inr e ↦ rw e (
            Ensures-after _
              (when (ltb i.disk.length (offset + size)) (file_extension m p size offset) t) _
              (λ _ t'. Ensures-after _ (deref p t') _ (λ j t''.
                written-IsWhole t'' offset _
                  (write_loop-IsWhole m.dev size t''.device j.disk buffer size offset))))
      ])

  fs_task-Ensures :
      {A : Type 0} (P : A → Type 0) (c : Cmd Disk A) (s : System Disk)
      → Ensures (λ a _. P a) (c s.files.fs)
      → Ensures (λ a _. P a) (fs_task c s)
  fs_task-Ensures P c s h = by_result (c s.files.fs) h
    where
      by_result :
          (r : Option (_ × Fs Disk)) → Ensures (λ a _. P a) r → Ensures (λ a _. P a) (with_fs s r)
      by_result none k = tt
      by_result (some (a, t)) k = k

  write_slot-Ensures :
      (inode : ℕ) (name : List ℕ) (sector : ℕ) (isdir : Bool) (s : System Disk)
      → Ensures (λ b _. b ≡ false) (write_slot m inode name sector isdir s)
  unfolding write_slot
  write_slot-Ensures inode name sector isdir s = Ensures-after _ (rounds_of inode s) _ (λ n t.
      Ensures-after _ (free_slot m n inode m.unset 0 t) _ (λ (e, ofs) t'.
        Ensures-bind (λ w _. w % 512 ≡ 0) _
          (fs_task (write_at m inode (fill_entry name sector isdir e) 24 ofs) t') _
          (fs_task-Ensures (λ w. w % 512 ≡ 0)
            (write_at m inode (fill_entry name sector isdir e) 24 ofs) t'
            (write_at-IsWhole inode (fill_entry name sector isdir e) 24 ofs t'.files.fs))
          (λ w t'' h. ground arith)))

  pub dir_add-Ensures :
      (dir : ℕ) (name : List ℕ) (sector : ℕ) (isdir : Bool) (s : System Disk)
      → Ensures (λ b _. b ≡ false) (dir_add m dir name sector isdir s)
  unfolding dir_add
  dir_add-Ensures dir name sector isdir s = Ensures-after _ (check (not (dir == null)) s) _ (λ _ t.
      elim (Bool-cases ((length name == 0) || ltb name_max (length name))) [
        | inl e ↦ rw e refl
        | inr e ↦ rw e (
            Ensures-after _ (lookup m dir name points_null points_null t) _ (λ r t'.
              elim (Bool-cases (is_found m r)) [
                | inl f ↦ rw f refl
                | inr f ↦ rw f (
                    Ensures-after _ (dir_get_inode dir t') _
                      (λ inode t''. write_slot-Ensures inode name sector isdir t''))
              ]))
      ])
