-- ===== src/Disk.antt =====
-- Blocks as the file system sees them: src/cache.rs, the trait `Cache` as `BlockCache` implements
-- it, over `get_block_cache`. A disk gives each block id its bytes, whether they stand in a cache or
-- on the device.
use fat32_rs.Base.{
  ℕ, ◌+◌, ◌≤◌, ◌≡◌, ◌≢◌, arith, leb, le→leb, lt→leb, ◌<◌, ◌==◌, if◌then◌else◌, List, length,
  Outcome, done, panic,
}
use mathlib.Core.Path.{fun_ext, ap}
use fat32_rs.Bytes.{Bytes, patch}

-- `BLOCK_SIZE`
abbrev pub block_size : ℕ
block_size = 512

abbrev pub Disk : Type 0
Disk = ℕ → Bytes

-- `disk[block] = bytes`
unfoldable pub store : Disk → ℕ → Bytes → Disk
store d block b k = if k == block then b else d k

-- `BlockCache::get_ref` for a type of `size` bytes: the address of what stands at `offset`.
unfoldable pub get_ref : Bytes → ℕ → ℕ → Outcome Bytes
get_ref cache size offset =
    if leb (offset + size) block_size then done (λ i. cache (offset + i)) else panic

-- `BlockCache::get_mut`, and the store of the bytes `bs` through the pointer.
unfoldable pub put_mut : Bytes → ℕ → List ℕ → Outcome Bytes
put_mut cache offset bs =
    if leb (offset + length bs) block_size then done (patch cache offset bs) else panic

-- `get_block_cache(block, device).read().read(offset, f)`
unfoldable pub read : Disk → ℕ → ℕ → ℕ → Outcome Bytes
unfolding get_ref
read d block size offset = get_ref (d block) size offset

-- `get_block_cache(block, device).write().modify(offset, f)`, where `f` stores `bs`
unfoldable pub modify : Disk → ℕ → ℕ → List ℕ → Outcome Disk
unfolding put_mut
modify d block offset bs =
    if leb (offset + length bs) block_size
    then done (store d block (patch (d block) offset bs))
    else panic

pub store_self : (d : Disk) (block : ℕ) (b : Bytes) → store d block b block ≡ b
unfolding store
store_self d block b = ground arith

pub store_ne : (d : Disk) (block : ℕ) (b : Bytes) (k : ℕ) → k ≢ block → store d block b k ≡ d k
unfolding store
store_ne d block b k h = ground arith

pub read-done :
    (d : Disk) (block size offset : ℕ)
    → offset + size ≤ block_size
    → read d block size offset ≡ done (λ i. d block (offset + i))
unfolding read
read-done d block size offset h = rw (le→leb _ _ h)

pub modify-done :
    (d : Disk) (block offset : ℕ) (bs : List ℕ)
    → offset + length bs ≤ block_size
    → modify d block offset bs ≡ done (store d block (patch (d block) offset bs))
unfolding modify
modify-done d block offset bs h = rw (le→leb _ _ h)

pub modify-panic :
    (d : Disk) (block offset : ℕ) (bs : List ℕ)
    → block_size < offset + length bs
    → modify d block offset bs ≡ panic
unfolding modify
modify-panic d block offset bs h = rw (lt→leb _ _ h)

-- A read of the whole block.
pub read-block : (d : Disk) (block : ℕ) → read d block block_size 0 ≡ done (d block)
unfolding read
read-block d block = ap done (fun_ext λ i. ap (d block) (omega arith))
