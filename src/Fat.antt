-- ===== src/Fat.antt =====
-- src/fat.rs: the file allocation table. A cluster's entry names the next cluster of its chain, and
-- at least `end_of_cluster` ends it. `FATManager` reads and writes entries and walks chains;
-- `ClusterChain` is a cursor on one chain. The device of both is the disk, passed beside them.
pub mod Entries
pub mod Walk
pub mod Search
pub mod Cursor
use fat32_rs.Base.{
  ℕ, zero, suc, ◌+◌, ◌-◌, ◌*◌, ◌/◌, ◌%◌, ◌^◌, ltb, leb, ◌==◌, if◌then◌else◌, Bool, true, false,
  Option, none, some, List, [], ◌∷◌, ◌++◌, Outcome, done, panic, out_of_fuel, guard, ◌>>=◌, ◌>>◌,
}
use fat32_rs.Bytes.{Bytes, read_le_u32, le_u32}
use fat32_rs.Disk.{Disk, block_size, read, modify}

-- `END_OF_CLUSTER`
abbrev pub end_of_cluster : ℕ
end_of_cluster = 0x0FFF_FFF8

-- `FREE_CLUSTER`
abbrev pub free_cluster : ℕ
free_cluster = 0

-- `NEW_VIR_FILE_CLUSTER`
abbrev pub new_vir_file_cluster : ℕ
new_vir_file_cluster = 0

-- `cluster & CLUSTER_MASK`: the low 28 bits.
abbrev pub mask : ℕ → ℕ
mask cluster = cluster % 2 ^ 28

-- An entry as a link: `None` at the end of a chain.
abbrev pub link : ℕ → Option ℕ
link next = if leb end_of_cluster next then none else some next

-- `recycled_cluster` is a queue, its front first.
pub record FatManager : Type 0 where
  pub recycled_cluster : List ℕ
  pub fat1_offset : ℕ

unfoldable pub open_fat : ℕ → FatManager
open_fat fat_offset = record { recycled_cluster = []; fat1_offset = fat_offset }

-- `FATManager::new`: fills the entries 0 and 1.
unfoldable pub new_fat : ℕ → Disk → Outcome (FatManager × Disk)
unfolding open_fat
new_fat fat_offset disk = do
  guard (fat_offset % block_size == 0)
  disk' ← modify disk (fat_offset / block_size) 0 (le_u32 end_of_cluster ++ le_u32 end_of_cluster)
  done (open_fat fat_offset, disk')

-- One pass of `for i in (offset..BLOCK_SIZE).step_by(4)`, with the rounds left: whether a zero
-- entry was met, and the cluster reached.
unfoldable pub scan : Bytes → ℕ → ℕ → ℕ → Outcome (Bool × ℕ)
scan buffer zero i cluster = done (false, cluster)
scan buffer (suc n) i cluster = do
  guard (leb (i + 4) block_size)
  let rest = scan buffer n (i + 4) ((cluster + 1) % 2 ^ 32)
  if read_le_u32 buffer i == 0 then done (true, cluster) else rest

module _ (fat : FatManager) where
  -- The block and the offset in it of the entry of a cluster.
  unfoldable pub cluster_id_pos : ℕ → ℕ × ℕ
  cluster_id_pos index =
      let offset = index * 4 + fat.fat1_offset in (offset / block_size, offset % block_size)

  -- `blank_cluster` and `recycle` change the queue.
  unfoldable pub recycle : ℕ → FatManager
  recycle cluster = record fat { recycled_cluster = fat.recycled_cluster ++ (cluster ∷ []) }

  unfoldable pub set_next_cluster : Disk → ℕ → ℕ → Outcome Disk
  unfolding cluster_id_pos
  set_next_cluster disk cluster next_cluster =
      let (block_id, offset_in_block) = cluster_id_pos cluster in
      modify disk block_id offset_in_block (le_u32 next_cluster)

  module _ (disk : Disk) where
    unfoldable pub get_next_cluster : ℕ → Outcome (Option ℕ)
    unfolding cluster_id_pos
    get_next_cluster cluster = do
      let (block_id, offset_in_block) = cluster_id_pos cluster
      p ← read disk block_id 4 offset_in_block
      guard (leb 2 (read_le_u32 p 0))
      done (link (read_le_u32 p 0))

    -- The `loop` around it.
    unfoldable pub find_loop : ℕ → ℕ → Outcome ℕ
    unfolding scan cluster_id_pos
    find_loop zero cluster = out_of_fuel
    find_loop (suc fuel) cluster = do
      let (block_id, offset) = cluster_id_pos cluster
      buffer ← read disk block_id block_size 0
      (found, cluster') ← scan buffer ((block_size - offset + 3) / 4) offset cluster
      let rest = find_loop fuel cluster'
      if found then done cluster' else rest

    unfoldable pub find_blank_cluster : ℕ → ℕ → Outcome ℕ
    unfolding find_loop
    find_blank_cluster fuel start_from = do
      cluster ← find_loop fuel ((start_from + 1) % 2 ^ 32)
      done (mask cluster)

    -- The cluster, and the manager with what is left of the queue.
    unfoldable pub blank_cluster : ℕ → ℕ → Outcome (ℕ × FatManager)
    unfolding find_blank_cluster
    blank_cluster fuel start_from = elim fat.recycled_cluster [
      | [] ↦ find_blank_cluster fuel start_from >>= λ c. done (c, fat)
      | cluster ∷ rest ↦ done (mask cluster, record fat { recycled_cluster = rest })
    ]

    -- The walk of `get_cluster_at`, with the rounds left.
    unfoldable pub get_cluster_at : ℕ → ℕ → Outcome (Option ℕ)
    unfolding get_next_cluster
    get_cluster_at cluster zero = done (some (mask cluster))
    get_cluster_at cluster (suc index) = do
      option ← get_next_cluster cluster
      elim option [ none ↦ done none | some c ↦ get_cluster_at c index ]

    unfoldable pub tail_loop : ℕ → ℕ → Outcome ℕ
    unfolding get_next_cluster
    tail_loop zero curr_cluster = out_of_fuel
    tail_loop (suc fuel) curr_cluster = do
      option ← get_next_cluster curr_cluster
      elim option [ none ↦ done (mask curr_cluster) | some cluster ↦ tail_loop fuel cluster ]

    unfoldable pub cluster_chain_tail : ℕ → ℕ → Outcome ℕ
    unfolding tail_loop
    cluster_chain_tail fuel start_cluster = do
      guard (leb 2 start_cluster)
      tail_loop fuel start_cluster

    unfoldable pub all_loop : ℕ → ℕ → List ℕ → Outcome (List ℕ)
    unfolding get_next_cluster
    all_loop zero curr_cluster vec = out_of_fuel
    all_loop (suc fuel) curr_cluster vec = do
      let vec' = vec ++ (mask curr_cluster ∷ [])
      option ← get_next_cluster curr_cluster
      elim option [ none ↦ done vec' | some next_cluster ↦ all_loop fuel next_cluster vec' ]

    unfoldable pub get_all_cluster_id : ℕ → ℕ → Outcome (List ℕ)
    unfolding all_loop
    get_all_cluster_id fuel start_cluster = all_loop fuel start_cluster []

    unfoldable pub len_loop : ℕ → ℕ → ℕ → Outcome ℕ
    unfolding get_next_cluster
    len_loop zero curr_cluster len = out_of_fuel
    len_loop (suc fuel) curr_cluster len = do
      let len' = (len + 1) % 2 ^ 32
      option ← get_next_cluster curr_cluster
      elim option [ none ↦ done len' | some next_cluster ↦ len_loop fuel next_cluster len' ]

    unfoldable pub cluster_chain_len : ℕ → ℕ → Outcome ℕ
    unfolding len_loop
    cluster_chain_len fuel start_cluster = len_loop fuel start_cluster 0
