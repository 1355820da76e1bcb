-- ===== src/Cache/Read.antt =====
-- file_read_at_user() and file_read_user() of filesys/file.c while files are only read.
pub mod End
use Prim.Native.Nat.{max}
use pintos.Prelude.{
  length, take, drop, take-append, drop-append, take-drop-take, leb, ◌==◌, ==_iff, Bool-cases, ℕ,
  zero, suc, ◌+◌, ◌-◌, ◌*◌, ◌/◌, ◌%◌, ◌≤◌, ◌<◌, ◌≡◌, refl, sym, ap, ap₂, ◌∙◌, inl, inr, true, false,
  some, [], ◌++◌, arith,
}
use pintos.Prelude.State.{Returns, Returns-bind}
use pintos.Block.Ram.{whole}
use pintos.Cache.{release_block, find_cache_block}
use pintos.Cache.Coherent.{part, Stored, Coherent, Coherent-set}
use pintos.Cache.Find.{find_cache_block-Held}
use pintos.Cache.Load.{unlocked, set_block_here, Held}
use pintos.Cache.User.{round_size, read_block, read_round, read_user}
use pintos.Examples.Inodes.{small}
use pintos.Inode.{InodeDisk}
use pintos.Inode.Bytes.{file_bytes, length-file_bytes, file_bytes-add}
use pintos.Inode.Read.{IsMapped}
use pintos.Inode.Table.{Inode, Fs, inode_length}
use pintos.Inode.Table.Inv.{deref-ok}
use pintos.Machine.{Machine}
use pintos.System.{CacheBlock, System, set_block, fs_task}

module _ {Disk : Type 0} (m : Machine Disk) where
  slice-file_bytes :
      (d : Disk) (i : InodeDisk) (p o k n : ℕ)
      → o + k ≤ n
      → take k (drop o (file_bytes m.dev d i p n)) ≡ file_bytes m.dev d i (p + o) k
  slice-file_bytes d i p o k n h =
      let a = file_bytes m.dev d i p o in
      let b = file_bytes m.dev d i (p + o) k in
      let c = file_bytes m.dev d i (p + o + k) (n - o - k) in
      let e : o + (k + (n - o - k)) ≡ n = omega arith in
      let whole : file_bytes m.dev d i p n ≡ a ++ (b ++ c) =
        ap (file_bytes m.dev d i p) (sym e)
        ∙ sym (file_bytes-add m.dev d i p o (k + (n - o - k)))
        ∙ ap (λ x. a ++ x) (sym (file_bytes-add m.dev d i (p + o) k (n - o - k))) in
      let skip : drop o (a ++ (b ++ c)) ≡ b ++ c =
        ap (λ x. drop x (a ++ (b ++ c))) (sym (length-file_bytes m.dev d i p o))
        ∙ drop-append a (b ++ c) in
      ap (λ x. take k (drop o x)) whole
      ∙ ap (take k) skip
      ∙ ap (λ x. take x (b ++ c)) (sym (length-file_bytes m.dev d i (p + o) k))
      ∙ take-append b c

  -- A part of a valid block is the bytes of the file there.
  Stored-slice :
      (fs : Fs Disk) (b : CacheBlock) (node : Inode) (p n : ℕ)
      → Stored m.dev fs b
      → fs.inode b.inode ≡ some node
      → b.block_no ≡ p / 512
      → p % 512 + n ≤ part node.disk.length (p / 512)
      → take n (drop (p % 512) b.contents) ≡ file_bytes m.dev fs.device node.disk p n
  Stored-slice fs b node p n st e q l =
      let same : st.node ≡ node = ground (arith, st.points) in
      let k = part node.disk.length (p / 512) in
      let held : take k b.contents ≡ file_bytes m.dev fs.device node.disk (p / 512 * 512) k =
        rw (← q, ← same) st.bytes_held in
      let back : p / 512 * 512 + p % 512 ≡ p = omega arith in
      sym (take-drop-take n (p % 512) k b.contents l)
      ∙ ap (λ x. take n (drop (p % 512) x)) held
      ∙ slice-file_bytes fs.device node.disk (p / 512 * 512) (p % 512) n k l
      ∙ ap (λ x. file_bytes m.dev fs.device node.disk x n) back

  pub release-ok :
      (s : System Disk) (i : ℕ)
      → (s.buffer_cache i).block_lock ≡ some m.cur
      → release_block m i s
        ≡ some (
          tt,
          record s { buffer_cache = set_block s.buffer_cache i (unlocked (s.buffer_cache i)) },
        )
  unfolding release_block
  release-ok s i h =
      let self : (m.cur == m.cur) ≡ true = (==_iff m.cur m.cur).1 refl in
      rw (h, release_block) (rw self refl)

  -- A block after a round of reading.
  abbrev touched : ℕ → CacheBlock → CacheBlock
  touched n b = record b { size = n; accessed = true }

  Coherent-touched :
      (fs : Fs Disk) (f : ℕ → CacheBlock) (i n : ℕ)
      → i < 64
      → n ≤ 512
      → Coherent m.dev fs f
      → Coherent m.dev fs (set_block f i (touched n (f i)))
  Coherent-touched fs f i n l small c =
      let k = c.clean i l in
      Coherent-set m.dev fs f i (touched n (f i)) c
        (record {
          unlocked = k.unlocked;
          not_dirty = k.not_dirty;
          whole = k.whole;
          fits = small;
          stored = λ v. record {
            node = (k.stored v).node;
            points = (k.stored v).points;
            bytes_held = (k.stored v).bytes_held;
          };
        })
        (λ j h ne q. ne (sym (c.sole i j l h q)))

  -- The blocks are in order, and the files are as in `s`.
  pub record Same (s s' : System Disk) : Type 0 where
    pub same_files : s'.files ≡ s.files
    pub iter : s'.buffer_iter < 64
    pub coherent : Coherent m.dev s.files.fs s'.buffer_cache

  pub read_block-Same :
      (s s' : System Disk) (inode i size p : ℕ) (node : Inode)
      → s.files.fs.inode inode ≡ some node
      → p ≤ node.disk.length
      → Held m s inode (p / 512) i s'
      → Returns
          (λ bs s''.
            Same s s''
            × (bs
                ≡ file_bytes m.dev s.files.fs.device node.disk p
                    (round_size node.disk.length size p)))
          (read_block m i node.disk.length size p s')
  unfolding read_block
  read_block-Same s s' inode i size p node e l r =
      let f = set_block s'.buffer_cache i (unlocked (s'.buffer_cache i)) in
      let at : f i ≡ unlocked (s'.buffer_cache i) = set_block_here s'.buffer_cache i _ in
      let inside : leb p node.disk.length ≡ true = ground arith in
      let n = round_size node.disk.length size p in
      let st = (r.coherent.clean i r.bound).stored (ap (λ b. b.valid) at ∙ r.valid_block) in
      let named : s.files.fs.inode (f i).inode ≡ some node =
        ap s.files.fs.inode (ap (λ b. b.inode) at ∙ r.same_inode) ∙ e in
      rw (release-ok s' i r.lock) (
        rw inside (
          record {
            same_files = r.same_files;
            iter = r.iter;
            coherent =
                Coherent-touched s.files.fs f i (max (n + p % 512) (f i).size) r.bound
                  (omega (arith, (r.coherent.clean i r.bound).fits)) r.coherent;
          },
          Stored-slice s.files.fs (f i) node p n st named (ap (λ b. b.block_no) at ∙ r.same_block)
              (omega arith),
        ))

  Same-trans : (s s' s'' : System Disk) → Same s s' → Same s' s'' → Same s s''
  Same-trans s s' s'' a b = record {
    same_files = b.same_files ∙ a.same_files;
    iter = b.iter;
    coherent = rw (← a.same_files) b.coherent;
  }

  pub inode_length-ok :
      (s : System Disk) (inode : ℕ) (node : Inode)
      → s.files.fs.inode inode ≡ some node
      → fs_task (inode_length inode) s ≡ some (node.disk.length, s)
  unfolding inode_length
  inode_length-ok s inode node e = rw (deref-ok inode node s.files.fs e) refl

  no_bytes : (d : Disk) (i : InodeDisk) (p : ℕ) → file_bytes m.dev d i p 0 ≡ []
  unfolding file_bytes
  no_bytes d i p = refl

  rounds :
      (size p : ℕ) (node : Inode) {fuel : ℕ}
      → (size == 0) ≡ false
      → size < suc fuel
      → p + size ≤ node.disk.length
      → size - round_size node.disk.length size p < fuel
  rounds size p node z l h = ground arith

  -- A round at a position that is not beyond the end of the file: it may copy nothing.
  pub read_round-Same :
      (s : System Disk) (inode size p : ℕ) (node : Inode)
      → m.bounce ≡ true
      → p ≤ node.disk.length
      → s.files.fs.inode inode ≡ some node
      → IsMapped m.dev s.files.fs.device node.disk
      → Coherent m.dev s.files.fs s.buffer_cache
      → s.buffer_iter < 64
      → Returns
          (λ r s'.
            Same s s'
            × (r.0 ≡ file_bytes m.dev s.files.fs.device node.disk p r.1)
            × (r.1 ≡ round_size node.disk.length size p))
          (read_round m inode size p s)
  unfolding read_round
  read_round-Same s inode size p node b l e h c t =
      Returns-bind (λ i s'. Held m s inode (p / 512) i s') _ (find_cache_block m inode p s) _
        (find_cache_block-Held m s inode p node b e h c t)
        (λ i s' r.
          let e' : s'.files.fs.inode inode ≡ some node = rw r.same_files e in
          rw (inode_length-ok s' inode node e') (
            Returns-bind _ _ (read_block m i node.disk.length size p s') _
              (read_block-Same s s' inode i size p node e l r) (λ bs s'' (q, w). (q, w, refl))))

  -- With one round more of fuel than there are bytes, the loop ends.
  pub read_user-file_bytes :
      (fuel : ℕ) (s : System Disk) (inode size p : ℕ) (node : Inode)
      → m.bounce ≡ true
      → size < fuel
      → p + size ≤ node.disk.length
      → s.files.fs.inode inode ≡ some node
      → IsMapped m.dev s.files.fs.device node.disk
      → Coherent m.dev s.files.fs s.buffer_cache
      → s.buffer_iter < 64
      → Returns
          (λ bs s'. Same s s' × (bs ≡ file_bytes m.dev s.files.fs.device node.disk p size))
          (read_user m fuel inode size p s)
  unfolding read_user
  read_user-file_bytes zero s inode size p node b lt l e h c t = absurd (omega arith)
  read_user-file_bytes (suc fuel) s inode size p node b lt l e h c t =
      elim (Bool-cases (size == 0)) [
        | inl done ↦
            let z : size ≡ 0 = (==_iff size 0).0 done in
            rw done (
              record { same_files = refl; iter = t; coherent = c },
              sym (
                  ap (file_bytes m.dev s.files.fs.device node.disk p) z
                  ∙ no_bytes s.files.fs.device node.disk p),
            )
        | inr more ↦ rw more (
            Returns-bind _ _ (read_round m inode size p s) _
              (read_round-Same s inode size p node b (omega arith) e h c t)
              (λ (bs, n) s'' (q, w, len).
                let fewer : size - n < fuel = rw len (rounds size p node more lt l) in
                let inside : n ≤ size = rw len (ground arith) in
                Returns-bind _ _ (read_user m fuel inode (size - n) (p + n) s'') _
                  (read_user-file_bytes fuel s'' inode (size - n) (p + n) node b fewer (omega arith)
                    (rw q.same_files e) (rw q.same_files h) (rw q.same_files q.coherent) q.iter)
                  (λ bs' s3 (q', w'). (
                    Same-trans s s'' s3 q q',
                    ap₂ ◌++◌ w (
                          w'
                          ∙ ap (λ f. file_bytes m.dev f.fs.device node.disk (p + n) (size - n))
                              q.same_files)
                        ∙ file_bytes-add m.dev s.files.fs.device node.disk p n (size - n)
                        ∙ ap (file_bytes m.dev s.files.fs.device node.disk p) (omega arith),
                  ))))
      ]
