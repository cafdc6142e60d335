-- ===== src/Vfs/Io.antt =====
-- src/vfs.rs: `read_at` and `write_at`. `left` is the place in the file at which the block at hand
-- begins, and `index` the next byte to copy; the source's `right` is `left + BLOCK_SIZE`.
pub mod Copy
pub mod Walk
pub mod Read
pub mod Clusters
pub mod ReadAt
pub mod Write
pub mod WriteBlocks
pub mod Apart
pub mod WriteClusters
pub mod WriteAt
pub mod Stored
use fat32_rs.Base.{
  ℕ, zero, suc, ◌+◌, ◌-◌, ◌*◌, ◌/◌, ◌%◌, ltb, leb, ◌==◌, if◌then◌else◌, Bool, true, false, not,
  ◌&&◌, min, Option, none, some, List, [], ◌∷◌, ◌++◌, length, take, drop, Outcome, done,
  out_of_fuel, guard, unwrap, div, ◌>>=◌, ◌>>◌,
}
use fat32_rs.Bytes.{slice}
use fat32_rs.Disk.{Disk, block_size, read, modify}
use fat32_rs.Bpb.{offset, sectors_per_cluster}
use fat32_rs.Fat.{new_vir_file_cluster, cluster_chain_len}
use fat32_rs.Fat.Cursor.{ClusterChain, next}
use fat32_rs.Fs.{FileSystem, cluster_size}
use fat32_rs.Vfs.{VirtFile, first_cluster}
use fat32_rs.Vfs.Chain.{incerase_size}

-- `for _ in 0..pre_cluster_cnt`, with the rounds left: the cursor and the cluster that it is on, or
-- nothing if the chain ends before.
unfoldable pub skip : Disk → ℕ → ClusterChain → ℕ → Outcome (Option (ClusterChain × ℕ))
skip disk zero chain curr = done (some (chain, curr))
skip disk (suc n) chain curr = do
  (chain', item) ← next chain disk
  elim item [ none ↦ done none | some i ↦ skip disk n chain' i.current_cluster ]

-- `self.cluster_chain.read().clone().next().unwrap()`
unfoldable pub first_item : Disk → VirtFile → Outcome ClusterChain
first_item disk self = do (_, item) ← next self.cluster_chain disk; unwrap item

module _ (end : ℕ) where
  -- What is read of one block: whether the end is reached, the next index, and the bytes read so far.
  unfoldable pub read_block : Disk → ℕ → ℕ → ℕ → List ℕ → Outcome (Bool × ℕ × List ℕ)
  unfolding slice
  read_block disk block_id left index out =
      if not (leb left index && ltb index (left + block_size) && ltb index end)
      then done (false, index, out)
      else do
        let len = min (block_size - (index - left)) (end - index)
        cache ← read disk block_id block_size 0
        done (leb end (index + len), index + len, out ++ slice cache (index - left) len)

  -- `for block_id in start_block_id..start_block_id + spc`, with the rounds left.
  unfoldable pub read_blocks : Disk → ℕ → ℕ → ℕ → ℕ → List ℕ → Outcome (ℕ × ℕ × List ℕ)
  unfolding read_block
  read_blocks disk zero block_id left index out = done (left, index, out)
  read_blocks disk (suc n) block_id left index out = do
    (stop, index', out') ← read_block disk block_id left index out
    let rest = read_blocks disk n (block_id + 1) (left + block_size) index' out'
    if stop then done (left, index', out') else rest

  -- `while index < end`
  unfoldable pub read_clusters :
      FileSystem → ℕ → ClusterChain → ℕ → ℕ → ℕ → List ℕ → Outcome (List ℕ)
  unfolding read_blocks sectors_per_cluster
  read_clusters fs zero chain curr left index out = out_of_fuel
  read_clusters fs (suc fuel) chain curr left index out =
      if not (ltb index end) then done out else do
        place ← offset fs.bpb curr
        (left', index', out') ←
            read_blocks fs.disk (sectors_per_cluster fs.bpb) (place / block_size) left index out
        if leb end index' then done out' else do
          (chain', item) ← next chain fs.disk
          i ← unwrap item
          read_clusters fs fuel chain' i.current_cluster left' index' out'

  -- What is written of one block: whether the end is reached, the next index, the number of bytes
  -- written so far, and the disk.
  unfoldable pub write_block : List ℕ → Disk → ℕ → ℕ → ℕ → ℕ → Outcome (Bool × ℕ × ℕ × Disk)
  write_block buf disk block_id left index already =
      if not (leb left index && ltb index (left + block_size) && ltb index end)
      then done (false, index, already, disk)
      else do
        let len = min (block_size - (index - left)) (end - index)
        disk' ← modify disk block_id (index - left) (take len (drop already buf))
        done (leb end (index + len), index + len, already + len, disk')

  unfoldable pub write_blocks : List ℕ → Disk → ℕ → ℕ → ℕ → ℕ → ℕ → Outcome (ℕ × ℕ × ℕ × Disk)
  unfolding write_block
  write_blocks buf disk zero block_id left index already = done (left, index, already, disk)
  write_blocks buf disk (suc n) block_id left index already = do
    (stop, index', already', disk') ← write_block buf disk block_id left index already
    let rest = write_blocks buf disk' n (block_id + 1) (left + block_size) index' already'
    if stop then done (left, index', already', disk') else rest

  unfoldable pub write_clusters :
      List ℕ → FileSystem → ℕ → ClusterChain → ℕ → ℕ → ℕ → ℕ → Outcome (ℕ × FileSystem)
  unfolding write_blocks sectors_per_cluster
  write_clusters buf fs zero chain curr left index already = out_of_fuel
  write_clusters buf fs (suc fuel) chain curr left index already =
      if not (ltb index end) then done (already, fs) else do
        place ← offset fs.bpb curr
        (left', index', already', disk') ←
            write_blocks buf fs.disk (sectors_per_cluster fs.bpb) (place / block_size) left index
              already
        let fs' = record fs { disk = disk' }
        if leb end index' then done (already', fs') else do
          (chain', item) ← next chain disk'
          i ← unwrap item
          write_clusters buf fs' fuel chain' i.current_cluster left' index' already'

-- The bytes that are put into the front of a buffer of `len` bytes; their number is the result.
unfoldable pub read_at : ℕ → FileSystem → VirtFile → ℕ → ℕ → Outcome (List ℕ)
unfolding skip first_item read_clusters cluster_size
read_at fuel fs self place len = if len == 0 then done [] else do
  pre_cluster_cnt ← div place (cluster_size fs)
  first ← first_cluster fs self
  chain ← first_item fs.disk self
  guard (not (chain.start_cluster == new_vir_file_cluster))
  reached ← skip fs.disk pre_cluster_cnt chain first
  elim reached [
    | none ↦ do
      clus_len ← cluster_chain_len fs.fat fs.disk fuel first
      guard (place == clus_len * cluster_size fs)
      done []
    | some (chain', curr) ↦
        read_clusters (place + len) fs fuel chain' curr (pre_cluster_cnt * cluster_size fs) place []
  ]

-- The number of bytes written, and the file system and the file afterwards. `skip` gives nothing
-- where the source's `next().unwrap()` panics.
unfoldable pub write_at :
    ℕ → FileSystem → VirtFile → ℕ → List ℕ → Outcome (ℕ × FileSystem × VirtFile)
unfolding skip first_item write_clusters cluster_size
write_at fuel fs self place buf = if length buf == 0 then done (0, fs, self) else do
  (fs1, self1) ← incerase_size fs self fuel (place + length buf)
  pre_cluster_cnt ← div place (cluster_size fs)
  chain ← first_item fs1.disk self1
  first ← first_cluster fs1 self1
  reached ← skip fs1.disk pre_cluster_cnt chain first
  (chain', curr) ← unwrap reached
  (already, fs2) ←
      write_clusters (place + length buf) buf fs1 fuel chain' curr
        (pre_cluster_cnt * cluster_size fs) place 0
  done (already, fs2, self1)
