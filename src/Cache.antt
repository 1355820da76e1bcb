-- ===== src/Cache.antt =====
-- The buffer cache of filesys/filesys.c: find_cache_block(), load_inode_block(),
-- evict_cache_block(), cache_write_back(), cache_flush() and file_write_back(). A block is named by
-- its index in `buffer_cache`. A lock that is held stops the model: for its holder the kernel stops
-- at an ASSERT, and no other thread runs meanwhile.
pub mod User
pub mod Sweep
pub mod Coherent
pub mod Load
pub mod Find
pub mod Read
pub mod Filled
pub mod Write
pub mod Durable
pub mod Saved
pub mod Lost
use pintos.Prelude.{
  length, drop, ◌==◌, if◌then◌else◌, ℕ, zero, suc, ◌+◌, ◌*◌, ◌/◌, ◌%◌, Bool, true, false, not, ◌&&◌,
  ◌||◌, Option, none, some, ◌++◌,
}
use pintos.Prelude.State.{pure, ◌>>=◌, ◌>>◌, branch, lift}
use pintos.Block.{block_sector_size}
use pintos.Inode.Table.Access.{read_at, write_at}
use pintos.Machine.{Machine}
use pintos.System.{CacheBlock, Task, set_block, fs_task, inspect, update_block}

abbrev pub cache_size : ℕ
cache_size = 64

-- The first of `n` blocks from `i` on that passes a test.
unfoldable pub first_block : (CacheBlock → Bool) → (ℕ → CacheBlock) → ℕ → ℕ → Option ℕ
first_block test f zero i = none
first_block test f (suc n) i =
    let rest = first_block test f n (suc i) in if test (f i) then some i else rest

abbrev pub holds_key : ℕ → ℕ → CacheBlock → Bool
holds_key inode block_no b = b.valid && ((inode == b.inode) && (block_no == b.block_no))

-- The second hand of the clock: the blocks that were accessed lose their mark, up to the first that
-- was not. On fuel: `none` if none is found in so many steps.
unfoldable pub sweep : ℕ → (ℕ → CacheBlock) → ℕ → Option (ℕ × (ℕ → CacheBlock))
sweep zero f i = none
sweep (suc n) f i =
    let rest = sweep n (set_block f i (record (f i) { accessed = false })) ((i + 1) % cache_size) in
    if (f i).accessed then rest else some (i, f)

module _ {Disk : Type 0} (m : Machine Disk) where
  unfoldable pub acquire_block : ℕ → Task Disk (Unit {0})
  acquire_block i s = elim (s.buffer_cache i).block_lock [
    | some h ↦ none
    | none ↦ update_block i (λ b. record b { block_lock = some m.cur }) s
  ]

  unfoldable pub release_block : ℕ → Task Disk (Unit {0})
  release_block i s = elim (s.buffer_cache i).block_lock [
    | none ↦ none
    | some h ↦ if h == m.cur then update_block i (λ b. record b { block_lock = none }) s else none
  ]

  unfoldable pub write_block : ℕ → Task Disk Bool
  unfolding acquire_block release_block
  write_block i = do
    acquire_block i
    b ← inspect (λ s. s.buffer_cache i)
    fs_task (write_at m b.inode b.contents b.size (b.block_no * block_sector_size))
    update_block i (λ b. record b { dirty = false })
    release_block i
    pure true

  unfoldable pub cache_write_back : ℕ → Task Disk Bool
  unfolding write_block
  cache_write_back i s =
      let b = s.buffer_cache i in branch (not b.valid || not b.dirty) (pure false) (write_block i) s

  -- One turn of the clock and one step more find a block.
  unfoldable pub evict_cache_block : Task Disk ℕ
  evict_cache_block = do
    start ← inspect (λ s. sweep (suc cache_size) s.buffer_cache s.buffer_iter)
    (ret, f) ← lift start
    (λ s. some (tt, record s { buffer_cache = f; buffer_iter = ret }))
    cache_write_back ret
    acquire_block ret
    update_block ret (λ b. record b { valid = false })
    (λ s. some (tt, record s { buffer_iter = (ret + 1) % cache_size }))
    pure ret

  abbrev pub use_free : Option ℕ → Task Disk ℕ
  use_free none = evict_cache_block
  use_free (some i) = do acquire_block i; pure i

  -- The bytes of inode_read_at() replace the first ones of the block.
  unfoldable pub load_into : ℕ → ℕ → ℕ → Task Disk ℕ
  load_into inode block_no i = do
    update_block i
        (λ b. record b { dirty = false; accessed = false; inode = inode; block_no = block_no })
    bs ← fs_task (read_at m inode block_sector_size (block_no * block_sector_size))
    update_block i
        (λ b. record b { contents = bs ++ drop (length bs) b.contents; size = 0; valid = true })
    pure i

  unfoldable pub load_inode_block : ℕ → ℕ → Task Disk ℕ
  load_inode_block inode p = do
    free ← inspect (λ s. first_block (λ b. not b.valid) s.buffer_cache cache_size 0)
    i ← use_free free
    load_into inode (p / block_sector_size) i

  abbrev pub use_found : ℕ → ℕ → Option ℕ → Task Disk ℕ
  use_found inode p none = load_inode_block inode p
  use_found inode p (some i) = do acquire_block i; pure i

  -- The block is returned with its lock held.
  unfoldable pub find_cache_block : ℕ → ℕ → Task Disk ℕ
  find_cache_block inode p = do
    hit ←
        inspect
          (λ s. first_block (holds_key inode (p / block_sector_size)) s.buffer_cache cache_size 0)
    use_found inode p hit

  -- The loops of cache_flush() and file_write_back(), from block `i`.
  unfoldable pub flush_from : ℕ → ℕ → Task Disk (Unit {0})
  flush_from zero i = pure tt
  flush_from (suc n) i = do cache_write_back i; flush_from n (suc i)

  unfoldable pub cache_flush : Task Disk (Unit {0})
  unfolding flush_from
  cache_flush = flush_from cache_size 0

  -- `sleep` is timer_sleep() of devices/timer.h, for 100 ticks.
  unfoldable pub flush_thread_func : Task Disk (Unit {0}) → Task Disk (Unit {0})
  unfolding cache_flush
  flush_thread_func sleep = do cache_flush; sleep

  unfoldable pub write_back_from : ℕ → ℕ → ℕ → Task Disk (Unit {0})
  write_back_from inode zero i = pure tt
  write_back_from inode (suc n) i = do
    b ← inspect (λ s. s.buffer_cache i)
    branch (b.inode == inode) (cache_write_back i) (pure false)
    write_back_from inode n (suc i)

  unfoldable pub file_write_back : ℕ → Task Disk (Unit {0})
  unfolding write_back_from
  file_write_back inode = write_back_from inode cache_size 0
