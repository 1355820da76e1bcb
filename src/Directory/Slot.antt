-- ===== src/Directory/Slot.antt =====
-- dir_add() of filesys/directory.c on a directory with a free entry.
use Prim.Native.Nat.{min}
use pintos.Prelude.{
  length, ltb, ◌==◌, ==_iff, Bool-cases, apart, ℕ, zero, suc, ◌+◌, ◌-◌, ◌*◌, ◌/◌, ◌≤◌, ◌<◌, ◌≡◌,
  refl, ◌≢◌, inl, inr, Bool, true, false, ◌||◌, some, List, arith,
}
use pintos.Prelude.State.{Returns, Returns-bind}
use pintos.Directory.{points_null, dir_get_inode, lookup, free_slot, write_slot, is_found, dir_add}
use pintos.Directory.Entry.{name_max, DirEntry, entry_in_use, fill_entry}
use pintos.Directory.Search.{
  entry_at, read_entry, overlay_entry, rounds-ok, deref_dir-ok, lookup-Searched,
}
use pintos.Inode.Bytes.{length-file_bytes}
use pintos.Inode.Read.{IsMapped}
use pintos.Inode.Table.{Inode}
use pintos.Inode.Table.Access.{write_at}
use pintos.Inode.Table.Part.{write_at-part}
use pintos.Machine.{Machine}
use pintos.System.{Dir, System, fs_task}

module _ {Disk : Type 0} (m : Machine Disk) where
  differs : {b : Bool} → b ≡ true → b ≡ false → ⊥
  differs h k = ground arith

  module _ (s : System Disk) (inode : ℕ) (node : Inode) (b : m.bounce ≡ true)
      (at : s.files.fs.inode inode ≡ some node)
      (mapped : IsMapped m.dev s.files.fs.device node.disk) (free : ℕ)
      (below : free < node.disk.length / 24)
      (unused : entry_in_use (entry_at m s.files.fs.device node.disk free) ≡ false) where
    free_slot-Inside :
        (fuel k : ℕ) (e : DirEntry)
        → length e ≡ 24
        → k ≤ free
        → fuel + k ≡ suc (node.disk.length / 24)
        → Returns
            (λ r s'. (s' ≡ s) × (r.1 + 24 ≤ node.disk.length))
            (free_slot m fuel inode e (k * 24) s)
    unfolding free_slot
    free_slot-Inside zero k e l h f = absurd (omega arith)
    free_slot-Inside (suc fuel) k e l h f =
        let d = s.files.fs.device in
        let full : min 24 (node.disk.length - k * 24) ≡ 24 = omega arith in
        rw (read_entry m s inode node b at mapped k) (
          rw full (
            rw
              (
                overlay_entry m s inode node b at mapped k e l,
                length-file_bytes m.dev d node.disk (k * 24) 24,
              )
              (elim (Bool-cases (entry_in_use (entry_at m d node.disk k))) [
                | inr y ↦ rw y (refl, omega arith)
                | inl n ↦
                    let next : k * 24 + 24 ≡ suc k * 24 = omega arith in
                    let other : (k == free) ≡ false = elim (Bool-cases (k == free)) [
                      | inl q ↦
                          let same : k ≡ free = (==_iff k free).0 q in
                          absurd (differs (rw same at n) unused)
                      | inr q ↦ q
                    ] in
                    let apart_free = apart k free other in
                    rw (n, next)
                      (free_slot-Inside fuel (suc k) (entry_at m d node.disk k)
                        (length-file_bytes m.dev d node.disk (k * 24) 24) (omega arith)
                        (omega arith))
              ])))

    stored :
        (name : List ℕ) (sector : ℕ) (isdir : Bool) (e : DirEntry) (ofs : ℕ)
        → node.deny_write_cnt ≡ 0
        → ofs + 24 ≤ node.disk.length
        → fs_task (write_at m inode (fill_entry name sector isdir e) 24 ofs) s ≡ some (0, s)
    stored name sector isdir e ofs z h =
        rw
          (write_at-part m s.files.fs inode node (fill_entry name sector isdir e) 24 ofs at z mapped
            (omega arith) (omega arith) h)
          refl

    write_slot-nothing :
        (name : List ℕ) (sector : ℕ) (isdir : Bool)
        → length m.unset ≡ 24
        → node.deny_write_cnt ≡ 0
        → Returns (λ r s'. (r ≡ false) × (s' ≡ s)) (write_slot m inode name sector isdir s)
    unfolding write_slot
    write_slot-nothing name sector isdir u z = rw (rounds-ok m s inode node at) (
        Returns-bind _ _ (free_slot m (suc (node.disk.length / 24)) inode m.unset 0 s) _
          (free_slot-Inside (suc (node.disk.length / 24)) 0 m.unset u (omega arith) (omega arith))
          (λ (e, ofs) s' (q, h). rw q (rw (stored name sector isdir e ofs z h) (refl, refl))))

  -- dir_add() on a directory that has a free entry always returns, and always false, whether or not the
  -- name is valid or in use already: it writes nothing and changes nothing. The bytes of the directory
  -- must be mapped to readable sectors, writes must not be denied, and malloc() must give a bounce
  -- buffer.
  pub dir_add-nothing :
      (s : System Disk) (dir : ℕ) (name : List ℕ) (sector : ℕ) (isdir : Bool) (d : Dir)
      (node : Inode)
      → (free : ℕ) → m.bounce ≡ true
      → length m.unset ≡ 24
      → dir ≢ 0
      → s.dir dir ≡ some d
      → s.files.fs.inode d.inode ≡ some node
      → node.deny_write_cnt ≡ 0
      → IsMapped m.dev s.files.fs.device node.disk
      → free < node.disk.length / 24
      → entry_in_use (entry_at m s.files.fs.device node.disk free) ≡ false
      → Returns (λ r s'. (r ≡ false) × (s' ≡ s)) (dir_add m dir name sector isdir s)
  unfolding dir_add dir_get_inode
  dir_add-nothing s dir name sector isdir d node free b u x h e z w l q =
      let live : (dir == 0) ≡ false = ground arith in
      rw live (elim (Bool-cases ((length name == 0) || ltb name_max (length name))) [
        | inl bad ↦ rw bad (refl, refl)
        | inr good ↦ rw good (
            Returns-bind _ _ (lookup m dir name points_null points_null s) _
              (lookup-Searched m s dir name points_null points_null d node b u x tt tt h e w)
              (λ r s' (k, _). elim (Bool-cases (is_found m r)) [
                | inl y ↦ rw y (refl, k)
                | inr n ↦
                    rw (n, k)
                      (rw (deref_dir-ok m s dir d h)
                        (write_slot-nothing s d.inode node b e w free l q name sector isdir u z))
              ]))
      ])
