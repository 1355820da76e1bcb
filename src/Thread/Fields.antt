-- ===== src/Thread/Fields.antt =====
-- Thread creation: init_thread(), allocate_tid(), alloc_frame() and thread_create(); the lookups by
-- tid and by name.
use pintos.Prelude.{
  get_or, take, replicate, ◌==◌, if◌then◌else◌, ℕ, ◌+◌, ◌-◌, ◌*◌, ◌%◌, Bool, true, false, not, ◌&&◌,
  some, List, [], ◌∷◌, ◌++◌,
}
use pintos.Prelude.Int.{ℤ, pos, ltb_ℤ, wrap32}
use pintos.KernelList.{KernelList}
use pintos.Thread.{
  running, blocked, Thread, null, thread_magic, pri_min, pri_max, pg_size, write, is_thread, Act,
  ◌>>◌, assert, modify, gets,
}

-- strlcpy() into a field of 16 zeroed bytes.
abbrev pub name_field : List ℕ → List ℕ
name_field s = take 16 (take 15 s ++ replicate 16 0)

-- What compare_pri() reads when it is handed an `allelem`: list_entry() with the member `elem`
-- finds the structure 8 bytes too low, and its `priority` there is the last word of `name`.
abbrev pub name_word : List ℕ → ℤ
name_word s =
    wrap32
      (pos (get_or s 12 0 + 256 * get_or s 13 0 + 65536 * get_or s 14 0 + 16777216 * get_or s 15 0))

abbrev pub compare_all : (ℕ → Thread) → ℕ → ℕ → Bool
compare_all f a b = ltb_ℤ (name_word (f b).name) (name_word (f a).name)

-- A page of zeros.
abbrev pub blank : Thread
blank = record {
  tid = 0;
  status = running;
  name = replicate 16 0;
  stack = 0;
  priority = pos 0;
  pagedir = null;
  pwd = null;
  magic = 0;
  o_priority = pos 0;
  donate_list = [];
  nice = pos 0;
  recent_cpu = pos 0;
}

-- tid_lock is held meanwhile; a tid is positive, and does not reach 2^31.
unfoldable pub allocate_tid : Act ℕ
allocate_tid k = some (k.next_tid, record k { next_tid = k.next_tid + 1 })

-- `size` in bytes; the result is the frame's base.
unfoldable pub alloc_frame : ℕ → ℕ → Act ℕ
alloc_frame t size = do
  assert (λ k. is_thread k t)
  assert (λ k. size % 4 == 0)
  modify (λ k. write k t (record (k.thread t) { stack = (k.thread t).stack - size }))
  gets (λ k. (k.thread t).stack)

module _ (lib : KernelList) where
  unfoldable pub init_thread : ℕ → List ℕ → ℤ → Act (Unit {0})
  init_thread t name priority = do
    assert (λ k. not (t == null))
    assert (λ k. not (ltb_ℤ priority pri_min) && not (ltb_ℤ pri_max priority))
    modify (λ k. write k t (record blank {
      status = blocked;
      name = name_field name;
      stack = t + pg_size;
      priority = priority;
      o_priority = priority;
      magic = thread_magic;
    }))
    modify (λ k. record k { all_list = lib.insert_ordered (compare_all k.thread) k.all_list t })

unfoldable pub get_thread_from_tid : (ℕ → Thread) → ℕ → List ℕ → ℕ
get_thread_from_tid f tid [] = null
get_thread_from_tid f tid (t ∷ ts) = if tid == (f t).tid then t else get_thread_from_tid f tid ts

abbrev pub bytes_eq : List ℕ → List ℕ → Bool
bytes_eq [] [] = true
bytes_eq [] (y ∷ ys) = false
bytes_eq (x ∷ xs) [] = false
bytes_eq (x ∷ xs) (y ∷ ys) = (x == y) && bytes_eq xs ys

-- A C string up to its terminator.
abbrev pub c_string : List ℕ → List ℕ
c_string [] = []
c_string (x ∷ xs) = if x == 0 then [] else x ∷ c_string xs

unfoldable pub check_is_thread : (ℕ → Thread) → List ℕ → List ℕ → Bool
check_is_thread f filename [] = false
check_is_thread f filename (t ∷ ts) =
    if bytes_eq (c_string (f t).name) (c_string filename)
    then true
    else check_is_thread f filename ts
