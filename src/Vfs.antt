-- ===== src/Vfs.antt =====
-- src/vfs.rs: `VirtFile`, a file or directory, and its entry. The file system that it shares is passed
-- beside it; `sde_pos` says where its short entry stands, and the root, which has none on disk, keeps
-- its entry in the file system.
pub mod Fields
pub mod Chain
pub mod Extend
pub mod Grow
pub mod Clear
pub mod Io
use fat32_rs.Base.{
  ℕ, zero, suc, ◌+◌, ◌-◌, ◌*◌, ◌/◌, ◌%◌, ◌^◌, ltb, leb, ◌==◌, if◌then◌else◌, Bool, true, false, not,
  ◌&&◌, Option, none, some, List, [], ◌∷◌, length, get_elem?, Outcome, done, panic, guard, unwrap,
  ◌>>=◌, ◌>>◌,
}
use fat32_rs.Disk.{Disk, block_size, read, modify}
use fat32_rs.Bpb.{offset, root_cluster}
use fat32_rs.Entry.{VirtFileType, dir, file}
use fat32_rs.Entry.Short as Short
use fat32_rs.Entry.Short.{ShortDirEntry}
use fat32_rs.Entry.Long as Long
use fat32_rs.Entry.Long.{LongDirEntry}
use fat32_rs.Fat.{
  end_of_cluster, new_vir_file_cluster, get_cluster_at, get_all_cluster_id, cluster_chain_len,
  cluster_chain_tail,
}
use fat32_rs.Fat.Cursor as Cursor
use fat32_rs.Fat.Cursor.{ClusterChain}
use fat32_rs.Fs.{
  FileSystem, cluster_size, sector_pre_cluster, set_next, alloc_cluster, dealloc_cluster,
  count_needed_clusters,
}

-- `ROOT_DIR_ENTRY_CLUSTER`
abbrev pub root_dir_entry_cluster : ℕ
root_dir_entry_cluster = 0

pub record DirEntryPos : Type 0 where
  pub cluster : ℕ
  pub offset_in_cluster : ℕ

pub record VirtFile : Type 0 where
  pub name : List ℕ
  pub sde_pos : DirEntryPos
  pub lde_pos : List DirEntryPos
  pub cluster_chain : ClusterChain
  pub attr : VirtFileType

unfoldable pub root : FileSystem → VirtFile
unfolding root_cluster Cursor.new
root fs = record {
  name = b'/' ∷ [];
  sde_pos = record { cluster = root_dir_entry_cluster; offset_in_cluster = 0 };
  lde_pos = [];
  cluster_chain = Cursor.new (root_cluster fs.bpb) fs.fat.fat1_offset;
  attr = dir;
}

unfoldable pub is_dir : VirtFile → Bool
is_dir self = elim self.attr [ dir ↦ true | file ↦ false ]

unfoldable pub is_file : VirtFile → Bool
is_file self = elim self.attr [ dir ↦ false | file ↦ true ]

-- The block of an entry, and its place there.
unfoldable pub entry_pos : FileSystem → DirEntryPos → Outcome (ℕ × ℕ)
entry_pos fs pos = do
  guard (ltb pos.cluster end_of_cluster)
  cluster_offset ← offset fs.bpb pos.cluster
  let place = (pos.offset_in_cluster + cluster_offset) % 2 ^ 64
  done (place / block_size, place % block_size)

module _ (fs : FileSystem) (self : VirtFile) where
  unfoldable pub sde_pos : Outcome (ℕ × ℕ)
  unfolding entry_pos
  sde_pos = entry_pos fs self.sde_pos

  unfoldable pub lde_pos : ℕ → Outcome (ℕ × ℕ)
  unfolding entry_pos
  lde_pos index = unwrap (get_elem? self.lde_pos index) >>= entry_pos fs

  -- The entry itself, where the source passes it to a closure.
  unfoldable pub read_sde : Outcome ShortDirEntry
  unfolding sde_pos
  read_sde = if self.sde_pos.cluster == root_dir_entry_cluster then done fs.root_dir_entry else do
    (block_id, offset_in_block) ← sde_pos
    p ← read fs.disk block_id 32 offset_in_block
    done (Short.new_from_bytes p)

  unfoldable pub modify_sde : (ShortDirEntry → ShortDirEntry) → Outcome FileSystem
  unfolding sde_pos
  modify_sde f =
      if self.sde_pos.cluster == root_dir_entry_cluster
      then done (record fs { root_dir_entry = f fs.root_dir_entry })
      else do
        (block_id, offset_in_block) ← sde_pos
        p ← read fs.disk block_id 32 offset_in_block
        disk' ←
            modify fs.disk block_id offset_in_block (Short.as_bytes (f (Short.new_from_bytes p)))
        done (record fs { disk = disk' })

  unfoldable pub read_lde : ℕ → Outcome LongDirEntry
  unfolding lde_pos
  read_lde index = do
    (block_id, offset_in_block) ← lde_pos index
    p ← read fs.disk block_id 32 offset_in_block
    done (Long.new_form_bytes p)

  unfoldable pub modify_lde : ℕ → (LongDirEntry → LongDirEntry) → Outcome FileSystem
  unfolding lde_pos
  modify_lde index f = do
    (block_id, offset_in_block) ← lde_pos index
    p ← read fs.disk block_id 32 offset_in_block
    disk' ← modify fs.disk block_id offset_in_block (Long.as_bytes (f (Long.new_form_bytes p)))
    done (record fs { disk = disk' })

  unfoldable pub file_size : Outcome ℕ
  unfolding read_sde
  file_size = read_sde >>= λ sde. done (Short.file_size sde)

  unfoldable pub first_cluster : Outcome ℕ
  unfolding read_sde
  first_cluster = read_sde >>= λ sde. done (Short.first_cluster sde)

  -- The arguments are `usize`, and are cast to `u32`.
  unfoldable pub set_first_cluster : ℕ → Outcome FileSystem
  unfolding modify_sde
  set_first_cluster cluster = modify_sde (λ sde. Short.set_first_cluster sde (cluster % 2 ^ 32))

  unfoldable pub set_file_size : ℕ → Outcome FileSystem
  unfolding modify_sde
  set_file_size size = modify_sde (λ sde. Short.set_file_size sde (size % 2 ^ 32))

  -- `todo!`
  unfoldable pub set_time : ℕ → ℕ → Outcome (Unit {0})
  set_time sec nsec = panic
