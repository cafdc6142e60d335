-- ===== src/Fs/Create.antt =====
-- src/fs.rs: `create` and `open`.
use fat32_rs.Base.{ℕ, ◌+◌, ◌*◌, ◌<◌, ◌≡◌, refl, arith, done, [], ◌∷◌, ◌++◌, replicate}
use fat32_rs.Disk.{Disk, store, modify, read}
use fat32_rs.Bytes.{Bytes, patch, slice, le_u32, read_le_u16, read_le_u32}
use fat32_rs.Bpb.{
  data_cluster_cnt, data_sector_cnt, root_dir_sector_cnt, free_cluster_cnt, root_cluster,
}
use fat32_rs.Bpb.Codec.{bpb_bytes, bpb_of_bytes, fs_info_bytes, fs_info_of_bytes}
use fat32_rs.Fat.{end_of_cluster, new_fat, open_fat, set_next_cluster}
use fat32_rs.Fat.Entries.{entry}
use fat32_rs.Fat.Walk.{IsChain}
use fat32_rs.Fs.{FileSystem, create, open_fs, new_bpb, new_fs_info, root_name}
use fat32_rs.Entry.{attr_directory, dir}
use fat32_rs.Text.{upper}
use fat32_rs.Entry.Short.{ShortDirEntry, empty, new_from_name_bytes}
use fat32_rs.Fs.Shape.{IsMounted}

-- The disk that `create` leaves: the boot sector, FSInfo, and the first three entries of the table.
created_disk : Disk → Disk
created_disk device =
    let d1 = store device 0 (patch (device 0) 0 (bpb_bytes new_bpb)) in
    let d2 = store d1 1 (patch (d1 1) 0 (fs_info_bytes new_fs_info)) in
    let d3 = store d2 32 (patch (d2 32) 0 (le_u32 end_of_cluster ++ le_u32 end_of_cluster)) in
    store d3 32 (patch (d3 32) 8 (le_u32 end_of_cluster))

-- The entry of the root, which is on no disk.
root_entry : ShortDirEntry
unfolding empty
root_entry = record empty {
  name = 0x2F ∷ replicate 7 0x20;
  extension = replicate 3 0x20;
  attr = attr_directory;
  fst_clus_lo = 2;
}

created : Disk → FileSystem
unfolding created_disk root_entry
created device = record {
  disk = created_disk device;
  free_cluster_cnt = 16096;
  bpb = new_bpb;
  fat = record { recycled_cluster = []; fat1_offset = 16384 };
  root_dir_entry = root_entry;
}

new_root_entry : new_from_name_bytes 2 root_name dir ≡ done root_entry
unfolding new_from_name_bytes root_entry patch slice read_le_u16 read_le_u32 upper
new_root_entry = refl

create-created : (device : Disk) → create device ≡ done (created device)
unfolding create created modify bpb_bytes fs_info_bytes new_fat set_next_cluster free_cluster_cnt
create-created device = rw new_root_entry

boot_block :
    (device : Disk) (i : ℕ) → created_disk device 0 i ≡ patch (device 0) 0 (bpb_bytes new_bpb) i
unfolding created_disk store
boot_block device i = refl

open_bpb : (b : Bytes) → bpb_of_bytes (λ i. patch b 0 (bpb_bytes new_bpb) (0 + i)) ≡ new_bpb
unfolding bpb_of_bytes bpb_bytes patch slice read_le_u16 read_le_u32
open_bpb b = refl

open_info :
    (b : Bytes)
    → fs_info_of_bytes (λ i. patch b 0 (fs_info_bytes new_fs_info) (0 + i)) ≡ new_fs_info
unfolding fs_info_of_bytes fs_info_bytes patch slice read_le_u16 read_le_u32
open_info b = refl

created_boot : (device : Disk) → created_disk device 0 ≡ patch (device 0) 0 (bpb_bytes new_bpb)
unfolding created_disk store
created_boot device = refl

created_info :
    (device : Disk) → created_disk device 1 ≡ patch (device 1) 0 (fs_info_bytes new_fs_info)
unfolding created_disk store
created_info device = refl

open_fs-created : (device : Disk) → open_fs (created device).disk ≡ done (created device)
unfolding open_fs created read free_cluster_cnt open_fat
open_fs-created device = rw (
  created_boot device,
  open_bpb (device 0),
  created_info device,
  open_info (device 1),
  new_root_entry,
)

new_bpb-IsMounted : IsMounted new_bpb 16384
new_bpb-IsMounted = omega arith

root_end : (device : Disk) → entry 16384 (created_disk device) 2 ≡ end_of_cluster
unfolding entry created_disk store patch read_le_u32
root_end device = refl

-- On any device `create` returns a file system of the right shape, in whose table the root is a chain
-- of one cluster; and `open` of the disk that it leaves gives that same file system again.
pub open_fs-create :
    (device : Disk)
    → (fs : FileSystem) × (create device ≡ done fs)
      × (open_fs fs.disk ≡ done fs)
      × IsMounted fs.bpb fs.fat.fat1_offset
      × IsChain (entry fs.fat.fat1_offset fs.disk) (root_cluster fs.bpb ∷ [])
unfolding created root_cluster
open_fs-create device = (
  created device,
  create-created device,
  open_fs-created device,
  new_bpb-IsMounted,
  omega (arith, root_end device),
)

-- The count of free clusters that `create` records is more than seven times the number of clusters
-- that the volume has by `data_cluster_cnt`: sectors are counted as clusters.
pub free_cluster_cnt-create :
    (device : Disk)
    → (fs : FileSystem) × (n : ℕ) × (create device ≡ done fs)
      × (data_cluster_cnt fs.bpb ≡ done n)
      × (7 * n < fs.free_cluster_cnt)
unfolding created data_cluster_cnt data_sector_cnt root_dir_sector_cnt
free_cluster_cnt-create device = (created device, 2028, create-created device, refl, omega arith)
