-- ===== src/Cache.antt =====
-- src/cache.rs: cached blocks and their manager. The block device and the `LruCache` of the crate lru
-- are parameters: records of their functions. An `Arc` is an address in a heap, where the block stands
-- beside the number of the handles to it; the block is dropped when the last handle is.
pub mod Laws
pub mod View
pub mod Evict
pub mod Load
pub mod Handle
pub mod Access
pub mod Sync
pub mod Reach
use fat32_rs.Base.{
  ℕ, zero, suc, ◌+◌, ◌-◌, ◌*◌, ◌==◌, if◌then◌else◌, Bool, true, false, Option, none, some, List, [],
  ◌∷◌, Outcome, done, unwrap, ◌>>=◌,
}
use fat32_rs.Bytes.{Bytes}
use fat32_rs.Disk.{block_size, get_ref, put_mut}

-- `BLOCK_CACHE_LIMIT`
abbrev pub block_cache_limit : ℕ
block_cache_limit = 64

-- The trait of src/device.rs: a read of `block_cnt` blocks at an offset, and a write; nothing stands for
-- an error.
pub record BlockDevice (S : Type 0) : Type 0 where
  pub read_blocks : S → ℕ → ℕ → Option Bytes
  pub write_blocks : S → Bytes → ℕ → ℕ → Option S

-- `LruCache<usize, Arc<…>>`: what a function returns, and the cache afterwards.
pub record LruCache (C : Type 0) : Type 0 where
  pub unbounded : C
  pub get : C → ℕ → Option ℕ × C
  pub len : C → ℕ
  pub peek_lru : C → Option (ℕ × ℕ)
  pub pop_lru : C → Option (ℕ × ℕ) × C
  pub put : C → ℕ → ℕ → Option ℕ × C
  pub iter : C → List (ℕ × ℕ)

pub record BlockCache : Type 0 where
  pub cache : Bytes
  pub block_id : ℕ
  pub modified : Bool

-- What an `Arc` points to.
pub record Shared : Type 0 where
  pub block : BlockCache
  pub strong_count : ℕ

-- The manager, the heap with the next free address, and the device.
pub record BlockCacheManager (C S : Type 0) : Type 0 where
  pub lru : C
  pub heap : ℕ → Shared
  pub free : ℕ
  pub device : S

abbrev pub one_more : Shared → Shared
one_more cell = record cell { strong_count = cell.strong_count + 1 }

unfoldable pub set_cell : (ℕ → Shared) → ℕ → Shared → ℕ → Shared
set_cell heap r cell q = if q == r then cell else heap q

module _ {S : Type 0} (dev : BlockDevice S) where
  unfoldable pub new_block : ℕ → S → Outcome BlockCache
  new_block block_id device = do
    bytes ← unwrap (dev.read_blocks device (block_id * block_size) 1)
    done (record { cache = bytes; block_id = block_id; modified = false })

  -- `sync`, also of a block that is dropped.
  unfoldable pub sync : BlockCache → S → Outcome (BlockCache × S)
  sync b device =
      if b.modified
      then (unwrap (dev.write_blocks device b.cache (b.block_id * block_size) 1) >>= λ device'.
          done (record b { modified = false }, device'))
      else done (b, device)

module _ {C S : Type 0} (api : LruCache C) (dev : BlockDevice S) where
  abbrev pub Manager : Type 0
  Manager = BlockCacheManager C S

  unfoldable pub new : S → Manager
  new device = record {
    lru = api.unbounded;
    heap = λ _. record {
      block = record { cache = λ _. 0; block_id = 0; modified = false };
      strong_count = 0;
    };
    free = 0;
    device = device;
  }

  -- `Arc::clone`
  unfoldable pub clone : Manager → ℕ → Manager
  unfolding set_cell
  clone m r = record m { heap = set_cell m.heap r (one_more (m.heap r)) }

  -- A handle is dropped, and with the last one the block.
  unfoldable pub release : Manager → ℕ → Outcome Manager
  unfolding set_cell sync
  release m r = do
    let cell = m.heap r
    (block', device') ←
        (if cell.strong_count - 1 == 0
          then sync dev cell.block m.device
          else done (cell.block, m.device))
    done (record m {
      heap = set_cell m.heap r (record { block = block'; strong_count = cell.strong_count - 1 });
      device = device';
    })

  -- The value that `put` replaces is dropped.
  unfoldable pub drop_old : Manager → Option ℕ → Outcome Manager
  unfolding release
  drop_old m none = done m
  drop_old m (some v) = release m v

  -- `self.lru.put(block_id, Arc::clone(&block_cache))`
  unfoldable pub insert : Manager → ℕ → ℕ → Outcome Manager
  unfolding clone drop_old
  insert m block_id r =
      let m1 = clone m r in
      let put = api.put m1.lru block_id r in drop_old (record m1 { lru = put.1 }) put.0

  unfoldable pub drop_popped : Manager → Option (ℕ × ℕ) → Outcome Manager
  unfolding release
  drop_popped m none = done m
  drop_popped m (some p) = release m p.1

  -- `self.lru.pop_lru()`
  unfoldable pub evict : Manager → Outcome Manager
  unfolding drop_popped
  evict m = let popped = api.pop_lru m.lru in drop_popped (record m { lru = popped.1 }) popped.0

  -- A block that is not listed is read, and listed unless the block to drop for it is in use.
  unfoldable pub load : Manager → ℕ → Outcome (ℕ × Manager)
  unfolding new_block evict insert set_cell
  load m block_id = do
    block ← new_block dev block_id m.device
    let r = m.free
    let m1 = record m {
      heap = set_cell m.heap r (record { block = block; strong_count = 1 });
      free = r + 1;
    }
    if api.len m1.lru == block_cache_limit
        then (unwrap (api.peek_lru m1.lru) >>= λ p.
            if (m1.heap p.1).strong_count == 1
            then (evict m1 >>= λ m2. insert m2 block_id r >>= λ m3. done (r, m3))
            else done (r, m1))
        else (insert m1 block_id r >>= λ m2. done (r, m2))

  unfoldable pub take_handle : Manager → ℕ → Option ℕ → Outcome (ℕ × Manager)
  unfolding load clone
  take_handle m block_id none = load m block_id
  take_handle m block_id (some r) = done (r, clone m r)

  -- The handle of a block.
  unfoldable pub get_block_cache : Manager → ℕ → Outcome (ℕ × Manager)
  unfolding take_handle
  get_block_cache m block_id =
      let got = api.get m.lru block_id in take_handle (record m { lru = got.1 }) block_id got.0

  -- `get_block_cache(…).read().read(offset, f)`, and the handle dropped.
  unfoldable pub read_cached : Manager → ℕ → ℕ → ℕ → Outcome (Bytes × Manager)
  unfolding get_block_cache release get_ref
  read_cached m block_id size offset = do
    (r, m1) ← get_block_cache m block_id
    bytes ← get_ref (m1.heap r).block.cache size offset
    m2 ← release m1 r
    done (bytes, m2)

  -- `get_block_cache(…).write().modify(offset, f)`, where `f` stores `bs`, and the handle dropped.
  unfoldable pub modify_cached : Manager → ℕ → ℕ → List ℕ → Outcome Manager
  unfolding get_block_cache release put_mut
  modify_cached m block_id offset bs = do
    (r, m1) ← get_block_cache m block_id
    let cell = m1.heap r
    bytes ← put_mut cell.block.cache offset bs
    let block' = record cell.block { cache = bytes; modified = true }
    release (record m1 { heap = set_cell m1.heap r (record cell { block = block' }) }) r

  -- The blocks of the list left.
  unfoldable pub sync_list : Manager → List (ℕ × ℕ) → Outcome Manager
  unfolding sync set_cell
  sync_list m [] = done m
  sync_list m (p ∷ ps) = do
    let cell = m.heap p.1
    (block', device') ← sync dev cell.block m.device
    sync_list
        (record m { heap = set_cell m.heap p.1 (record cell { block = block' }); device = device' })
        ps

  unfoldable pub sync_all : Manager → Outcome Manager
  unfolding sync_list
  sync_all m = sync_list m (api.iter m.lru)
