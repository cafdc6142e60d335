-- ===== src/Fs.antt =====
-- src/fs.rs: the file system object. It holds the volume's layout, the table's manager, the count of
-- free clusters and the root's entry; the disk stands for its device and the block caches.
pub mod Shape
pub mod Clear
pub mod Pool
pub mod Alloc
pub mod Dealloc
pub mod Create
pub mod Needed
use fat32_rs.Base.{
  ℕ, zero, suc, ◌+◌, ◌-◌, ◌*◌, ◌/◌, ◌%◌, ◌^◌, ltb, leb, ◌==◌, if◌then◌else◌, Bool, true, false,
  ◌&&◌, Option, none, some, List, [], ◌∷◌, ◌++◌, replicate, length, Outcome, done, panic,
  out_of_fuel, guard, div, ◌>>=◌, ◌>>◌,
}
use fat32_rs.Bytes.{Bytes, le_u32}
use fat32_rs.Disk.{Disk, block_size, read, modify}
use fat32_rs.Bpb.{
  BiosParameterBlock, BasicBpb, Bpb32, FsInfo, first_sector_of_cluster, first_data_sector, offset,
  fat1_offset, root_cluster, fat_info_sector, sector_per_cluster, check_signature, sub_usize,
}
use fat32_rs.Bpb
use fat32_rs.Bpb.Codec.{bpb_bytes, bpb_of_bytes, fs_info_bytes, fs_info_of_bytes}
use fat32_rs.Entry.{dir}
use fat32_rs.Entry.Short.{ShortDirEntry, new_from_name_bytes}
use fat32_rs.Fat.{
  FatManager, open_fat, new_fat, blank_cluster, set_next_cluster, recycle, cluster_chain_len,
  end_of_cluster, free_cluster, new_vir_file_cluster,
}

pub record FileSystem : Type 0 where
  pub disk : Disk
  pub free_cluster_cnt : ℕ
  pub bpb : BiosParameterBlock
  pub fat : FatManager
  pub root_dir_entry : ShortDirEntry

unfoldable pub sector_pre_cluster : FileSystem → ℕ
unfolding sector_per_cluster
sector_pre_cluster fs = sector_per_cluster fs.bpb

unfoldable pub sector_size : FileSystem → ℕ
sector_size fs = fs.bpb.basic_bpb.byts_per_sec

unfoldable pub cluster_size : FileSystem → ℕ
cluster_size fs = fs.bpb.basic_bpb.byts_per_sec * fs.bpb.basic_bpb.sec_per_clus

unfoldable pub cluster_offset : FileSystem → ℕ → Outcome ℕ
cluster_offset fs cluster = offset fs.bpb cluster

unfoldable pub root_sector_id : FileSystem → Outcome ℕ
root_sector_id fs = first_data_sector fs.bpb

-- The count goes into the FSInfo sector, in 32 bits at its byte 488, and into memory.
unfoldable pub set_free_clusters : FileSystem → ℕ → Outcome FileSystem
unfolding fat_info_sector
set_free_clusters fs cnt = do
  disk' ← modify fs.disk (fat_info_sector fs.bpb) 488 (le_u32 cnt)
  done (record fs { disk = disk'; free_cluster_cnt = cnt })

-- `[0u8; BLOCK_SIZE]`
unfoldable pub zero_block : List ℕ
zero_block = replicate block_size 0

-- `for i in 0..sector_pre_cluster`: the blocks left, from `block` on.
unfoldable pub clear_blocks : Disk → ℕ → ℕ → Outcome Disk
unfolding zero_block
clear_blocks d block zero = done d
clear_blocks d block (suc n) = do d' ← modify d block 0 zero_block; clear_blocks d' (block + 1) n

unfoldable pub clear_cluster : FileSystem → ℕ → Outcome FileSystem
unfolding sector_pre_cluster clear_blocks
clear_cluster fs cluster = do
  block_id ← first_sector_of_cluster fs.bpb cluster
  disk' ← clear_blocks fs.disk block_id (sector_pre_cluster fs)
  done (record fs { disk = disk' })

-- `self.fat.write().set_next_cluster(cluster, next)`
unfoldable pub set_next : FileSystem → ℕ → ℕ → Outcome FileSystem
set_next fs cluster next = do
  disk' ← set_next_cluster fs.fat fs.disk cluster next
  done (record fs { disk = disk' })

-- A blank cluster, checked and cleared: the step that `alloc_cluster` makes for each cluster.
unfoldable pub fresh_cluster : ℕ → FileSystem → ℕ → Outcome (ℕ × FileSystem)
unfolding clear_cluster
fresh_cluster fuel fs start = do
  (cluster, fat') ← blank_cluster fs.fat fs.disk fuel start
  guard (leb 2 cluster)
  fs' ← clear_cluster (record fs { fat = fat' }) cluster
  done (cluster, fs')

-- `for _ in 1..num`, with the rounds left: the last cluster of the new chain.
unfoldable pub alloc_loop : ℕ → FileSystem → ℕ → ℕ → Outcome (ℕ × FileSystem)
unfolding fresh_cluster set_next
alloc_loop fuel fs curr zero = done (curr, fs)
alloc_loop fuel fs curr (suc n) = do
  (cluster, fs1) ← fresh_cluster fuel fs curr
  fs2 ← set_next fs1 curr cluster
  alloc_loop fuel fs2 cluster n

unfoldable pub alloc_cluster : ℕ → FileSystem → ℕ → ℕ → Outcome (Option ℕ × FileSystem)
unfolding alloc_loop set_free_clusters
alloc_cluster fuel fs num start_cluster =
    if ltb fs.free_cluster_cnt num then done (none, fs) else do
      (first, fs1) ← fresh_cluster fuel fs start_cluster
      (last, fs2) ← alloc_loop fuel fs1 first (num - 1)
      fs3 ← set_next fs2 last end_of_cluster
      fs4 ← set_free_clusters fs3 (fs.free_cluster_cnt - num)
      done (some first, fs4)

unfoldable pub dealloc_loop : FileSystem → List ℕ → Outcome FileSystem
unfolding set_next
dealloc_loop fs [] = done fs
dealloc_loop fs (c ∷ cs) = do
  fs1 ← set_next fs c free_cluster
  dealloc_loop (record fs1 { fat = recycle fs1.fat c }) cs

unfoldable pub dealloc_cluster : FileSystem → List ℕ → Outcome FileSystem
unfolding dealloc_loop set_free_clusters
dealloc_cluster fs clusters = if length clusters == 0 then done fs else do
  fs1 ← dealloc_loop fs clusters
  set_free_clusters fs1 (fs.free_cluster_cnt + length clusters)

-- `(n + size - 1) / size` of machine words: the sum wraps.
abbrev pub div_up : ℕ → ℕ → Outcome ℕ
div_up n size = div (sub_usize ((n + size) % 2 ^ 64) 1) size

unfoldable pub count_needed_clusters : ℕ → FileSystem → ℕ → ℕ → Outcome ℕ
unfolding cluster_size
count_needed_clusters fuel fs new_size start_cluster =
    let size = cluster_size fs in
    if start_cluster == new_vir_file_cluster then div_up new_size size else do
      old_cluster_cnt ← cluster_chain_len fs.fat fs.disk fuel start_cluster
      cluster_cnt ← div_up new_size size
      done (if ltb old_cluster_cnt cluster_cnt then cluster_cnt - old_cluster_cnt else 0)

abbrev pub block_num : ℕ
block_num = 0x4000

abbrev pub root_dir_cluster : ℕ
root_dir_cluster = 2

-- The structures that `create` writes.
abbrev pub new_basic_bpb : BasicBpb
new_basic_bpb = record {
  bs_jmp_boot = 0xEB ∷ 0x58 ∷ 0x90 ∷ [];
  bs_oem_name = b'm' ∷ b'k' ∷ b'.' ∷ b'f' ∷ b'a' ∷ b't' ∷ b'3' ∷ b'2' ∷ [];
  byts_per_sec = 512;
  sec_per_clus = 8;
  rsvd_sec_cnt = 32;
  num_fats = 2;
  root_ent_cnt = 0;
  tot_sec16 = 0;
  media = 0xF8;
  fat_sz16 = 0;
  sec_per_trk = 0;
  num_heads = 0;
  hidd_sec = 0;
  tot_sec32 = 0x4000;
}

abbrev pub new_bpb32 : Bpb32
new_bpb32 = record {
  fat_sz32 = 64;
  ext_flags = 0;
  fs_ver = 0;
  root_clus = root_dir_cluster;
  fs_info = 1;
  bk_boot_sec = 6;
  reserved = replicate 12 0;
  bs_drv_num = 0x80;
  bs_reserved1 = 0;
  bs_boot_sig = 0x29;
  bs_vol_id = 0x12345678;
  bs_vol_lab = b'm' ∷ b'k' ∷ b'f' ∷ b's' ∷ b'.' ∷ b'f' ∷ b'a' ∷ b't' ∷ b'3' ∷ b'2' ∷ b' ' ∷ [];
  bs_fil_sys_type = b'F' ∷ b'A' ∷ b'T' ∷ b'3' ∷ b'2' ∷ b' ' ∷ b' ' ∷ b' ' ∷ [];
}

abbrev pub new_bpb : BiosParameterBlock
new_bpb = record { basic_bpb = new_basic_bpb; bpb32 = new_bpb32 }

abbrev pub new_fs_info : FsInfo
new_fs_info = record {
  lead_sig = 0x41615252;
  reserved1 = replicate 480 0;
  struc_sig = 0x61417272;
  free_count = block_num - 32 - 128 - 128;
  nxt_free = 0xFFFFFFFF;
  reserved2 = replicate 12 0;
  trail_sig = 0xAA550000;
}

-- `[0x20; 11]` with `ROOT` in front
abbrev pub root_name : List ℕ
root_name = 0x2F ∷ replicate 10 0x20

unfoldable pub create : Disk → Outcome FileSystem
unfolding root_cluster fat1_offset
create device = do
  d1 ← modify device 0 0 (bpb_bytes new_bpb)
  d2 ← modify d1 1 0 (fs_info_bytes new_fs_info)
  (fat, d3) ← new_fat (fat1_offset new_bpb) d2
  d4 ← set_next_cluster fat d3 (root_cluster new_bpb) end_of_cluster
  root_dir_entry ← new_from_name_bytes (root_cluster new_bpb) root_name dir
  done (record {
    disk = d4;
    free_cluster_cnt = Bpb.free_cluster_cnt new_fs_info;
    bpb = new_bpb;
    fat = fat;
    root_dir_entry = root_dir_entry;
  })

unfoldable pub open_fs : Disk → Outcome FileSystem
unfolding root_cluster fat1_offset fat_info_sector check_signature
open_fs device = do
  p ← read device 0 90 0
  let bpb = bpb_of_bytes p
  q ← read device (fat_info_sector bpb) block_size 0
  let fsinfo = fs_info_of_bytes q
  guard (check_signature fsinfo)
  root_dir_entry ← new_from_name_bytes (root_cluster bpb) root_name dir
  done (record {
    disk = device;
    free_cluster_cnt = Bpb.free_cluster_cnt fsinfo;
    bpb = bpb;
    fat = open_fat (fat1_offset bpb);
    root_dir_entry = root_dir_entry;
  })
