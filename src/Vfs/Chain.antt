-- ===== src/Vfs/Chain.antt =====
-- src/vfs.rs: a file's places on disk, its growth, its shrinking and its removal.
use fat32_rs.Base.{
  ℕ, zero, suc, ◌+◌, ◌-◌, ◌*◌, ◌/◌, ◌%◌, ◌^◌, ltb, leb, ◌==◌, if◌then◌else◌, Bool, not, ◌&&◌,
  Option, some, List, [], ◌∷◌, length, Outcome, done, guard, unwrap, div, ◌>>=◌, ◌>>◌,
}
use fat32_rs.Disk.{block_size, read}
use fat32_rs.Bpb.{offset}
use fat32_rs.Entry.Short as Short
use fat32_rs.Entry.Short.{ShortDirEntry}
use fat32_rs.Entry.Long as Long
use fat32_rs.Fat.{
  end_of_cluster, new_vir_file_cluster, get_cluster_at, get_all_cluster_id, cluster_chain_len,
  cluster_chain_tail,
}
use fat32_rs.Fat.Cursor as Cursor
use fat32_rs.Fat.Cursor.{ClusterChain}
use fat32_rs.Fs.{
  FileSystem, cluster_size, sector_pre_cluster, set_next, alloc_cluster, dealloc_cluster,
  count_needed_clusters, div_up,
}
use fat32_rs.Vfs.{
  DirEntryPos, VirtFile, is_dir, read_sde, modify_sde, modify_lde, file_size, first_cluster,
}

module _ (fs : FileSystem) (self : VirtFile) where
  -- The cluster of a byte of the file, and the byte's place in the cluster.
  unfoldable pub dir_entry_pos : ℕ → Outcome (Option DirEntryPos)
  unfolding cluster_size
  dir_entry_pos place = do
    cluster_index ← div place (cluster_size fs)
    start_cluster ← first_cluster fs self
    option ← get_cluster_at fs.fat fs.disk start_cluster (cluster_index % 2 ^ 32)
    cluster ← unwrap option
    done (some (record { cluster = cluster; offset_in_cluster = place % cluster_size fs }))

  -- The block of a byte of the file, and the byte's place in the block.
  unfoldable pub offset_block_pos : ℕ → Outcome (Option (ℕ × ℕ))
  unfolding cluster_size
  offset_block_pos place = do
    cluster_index ← div place (cluster_size fs)
    let offset_in_cluster = place % cluster_size fs
    start_cluster ← first_cluster fs self
    option ← get_cluster_at fs.fat fs.disk start_cluster (cluster_index % 2 ^ 32)
    cluster ← unwrap option
    offset_in_disk ← offset fs.bpb cluster
    guard (offset_in_disk % block_size == 0)
    done (
        some (
          (offset_in_disk / block_size + offset_in_cluster / block_size) % 2 ^ 64,
          offset_in_cluster % block_size,
        ))

  unfoldable pub file_cluster_chain : ℕ → Outcome ClusterChain
  unfolding offset_block_pos
  file_cluster_chain sde_offset = do
    option ← offset_block_pos sde_offset
    (block_id, offset_in_block) ← unwrap option
    p ← read fs.disk block_id 32 offset_in_block
    done (Cursor.new (Short.first_cluster (Short.new_from_bytes p)) fs.fat.fat1_offset)

  -- The size of a directory stays 0.
  unfoldable pub resize : ℕ → Outcome FileSystem
  resize new_size =
      if not (is_dir self)
      then modify_sde fs self (λ sde. Short.set_file_size sde (new_size % 2 ^ 32))
      else done fs

  -- The new clusters become the chain of a file without one.
  unfoldable pub start_chain : ℕ → Outcome (FileSystem × VirtFile)
  unfolding Cursor.refresh
  start_chain start_cluster = do
    fs' ← modify_sde fs self (λ sde. Short.set_first_cluster sde start_cluster)
    done (fs', record self { cluster_chain = Cursor.refresh self.cluster_chain start_cluster })

  -- The new clusters are linked behind the last one of the file.
  unfoldable pub extend_chain : ℕ → ℕ → ℕ → Outcome (FileSystem × VirtFile)
  extend_chain fuel first start_cluster = do
    last_cluster ← cluster_chain_tail fs.fat fs.disk fuel first
    guard (not (last_cluster == new_vir_file_cluster))
    fs' ← set_next fs last_cluster start_cluster
    done (fs', self)

  unfoldable pub attach : ℕ → ℕ → ℕ → Outcome (FileSystem × VirtFile)
  unfolding start_chain extend_chain
  attach fuel first start_cluster =
      if first == new_vir_file_cluster
      then start_chain start_cluster
      else extend_chain fuel first start_cluster

module _ (fs : FileSystem) (self : VirtFile) where
  -- `alloc_cluster`, whose `None` is a panic here, and what follows it.
  unfoldable pub grow : ℕ → ℕ → ℕ → ℕ → Outcome (FileSystem × VirtFile)
  unfolding resize attach
  grow fuel first need_cluster_cnt new_size = do
    (option, fs1) ← alloc_cluster fuel fs need_cluster_cnt first
    start_cluster ← unwrap option
    (fs2, self') ← attach fs1 self fuel first start_cluster
    fs3 ← resize fs2 self' new_size
    done (fs3, self')

  unfoldable pub incerase_size : ℕ → ℕ → Outcome (FileSystem × VirtFile)
  unfolding resize grow
  incerase_size fuel new_size = do
    first ← first_cluster fs self
    old_size ← file_size fs self
    if leb new_size old_size then done (fs, self) else do
      need_cluster_cnt ← count_needed_clusters fuel fs new_size first
      if need_cluster_cnt == 0
          then (resize fs self new_size >>= λ fs'. done (fs', self))
          else grow fuel first need_cluster_cnt new_size

  -- `for i in left..right`, with the rounds left: the clusters at these places of the chain.
  unfoldable pub released : ℕ → ℕ → ℕ → Outcome (List ℕ)
  released first i zero = done []
  released first i (suc n) = do
    option ← get_cluster_at fs.fat fs.disk first (i % 2 ^ 32)
    cluster ← unwrap option
    rest ← released first (i + 1) n
    done (cluster ∷ rest)

  -- `left as u32 - 1` wraps at 0.
  unfoldable pub shrink : ℕ → ℕ → ℕ → Outcome FileSystem
  unfolding released cluster_size
  shrink first old_size new_size = do
    left ← div_up new_size (cluster_size fs)
    right ← div_up old_size (cluster_size fs)
    release_cluster_vec ← released first left (right - left)
    fs1 ← dealloc_cluster fs release_cluster_vec
    guard (not (is_dir self))
    fs2 ← modify_sde fs1 self (λ sde. Short.set_file_size sde (new_size % 2 ^ 32))
    option ← get_cluster_at fs2.fat fs2.disk first ((left % 2 ^ 32 + 2 ^ 32 - 1) % 2 ^ 32)
    last_clus ← unwrap option
    guard (leb 2 last_clus)
    set_next fs2 last_clus end_of_cluster

  unfoldable pub modify_size : ℕ → ℕ → Outcome (FileSystem × VirtFile)
  unfolding incerase_size shrink
  modify_size fuel new_size = do
    first ← first_cluster fs self
    old_size ← file_size fs self
    if leb old_size new_size
        then incerase_size fuel new_size
        else (shrink first old_size new_size >>= λ fs'. done (fs', self))

  -- (st_size, st_blksize, st_blocks, is_dir, time)
  unfoldable pub stat : ℕ → Outcome (ℕ × ℕ × ℕ × Bool × ℕ)
  unfolding cluster_size
  stat fuel = do
    sde ← read_sde fs self
    cluster_cnt ← cluster_chain_len fs.fat fs.disk fuel (Short.first_cluster sde)
    let block_cnt = cluster_cnt * sector_pre_cluster fs
    let size = if is_dir self then cluster_cnt * cluster_size fs else Short.file_size sde
    done (size, block_size, block_cnt, is_dir self, 0)

-- `for i in 0..self.lde_pos.len()`, with the rounds left.
unfoldable pub delete_ldes : FileSystem → VirtFile → ℕ → ℕ → Outcome FileSystem
unfolding Long.delete
delete_ldes fs self i zero = done fs
delete_ldes fs self i (suc n) = do
  fs' ← modify_lde fs self i Long.delete
  delete_ldes fs' self (i + 1) n

-- The number of clusters freed, and the file system.
unfoldable pub clear : ℕ → FileSystem → VirtFile → Outcome (ℕ × FileSystem)
unfolding delete_ldes Short.delete
clear fuel fs self = do
  first ← first_cluster fs self
  fs1 ← delete_ldes fs self 0 (length self.lde_pos)
  fs2 ← modify_sde fs1 self Short.delete
  if not (leb 2 first && ltb first end_of_cluster) then done (0, fs2) else do
    all_clusters ← get_all_cluster_id fs2.fat fs2.disk fuel first
    fs3 ← dealloc_cluster fs2 all_clusters
    done (length all_clusters, fs3)
