-- ===== src/File.antt =====
-- src/file.rs: the trait File, as VirtFile implements it.
pub mod Blocks
pub mod Read
pub mod Unused
pub mod Write
pub mod Start
pub mod Room
use fat32_rs.Base.{
  ℕ, zero, suc, ◌+◌, ◌-◌, ◌*◌, ◌/◌, ◌%◌, ◌^◌, ltb, leb, ◌==◌, if◌then◌else◌, min, none, some, List,
  [], ◌++◌, length, Outcome, done, out_of_fuel, guard, ◌||◌, ◌>>=◌, ◌>>◌, Result, ok, err,
}
use fat32_rs.Bytes.{slice}
use fat32_rs.Disk.{Disk, block_size}
use fat32_rs.Disk
use fat32_rs.Bpb.{offset}
use fat32_rs.Fat.{new_vir_file_cluster}
use fat32_rs.Fat.Cursor.{ClusterChain, next}
use fat32_rs.Fs.{FileSystem, sector_pre_cluster}
use fat32_rs.Names.{get_needed_sector}
use fat32_rs.Vfs.{VirtFile, file_size, set_file_size}
use fat32_rs.Vfs.Io.{write_at}

pub data WriteType : Type 0 where
  over_written append : WriteType

pub data FileError : Type 0 where
  buf_too_small write_error read_out_of_bound bad_cluster_chain : FileError

-- `for i in 0..block_cnt`, with the rounds left and the block of the round: the index, and the bytes
-- put into the front of the buffer, of `room` bytes, so far.
unfoldable pub copy_blocks : Disk → ℕ → ℕ → ℕ → ℕ → ℕ → List ℕ → Outcome (ℕ × List ℕ)
copy_blocks disk room end zero block_id index out = done (index, out)
copy_blocks disk room end (suc n) block_id index out = do
  let len = min block_size ((end + 2 ^ 64 - index) % 2 ^ 64)
  buffer ← Disk.read disk block_id block_size 0
  guard (leb (index + len) room)
  copy_blocks disk room end n (block_id + 1) (index + len) (out ++ slice buffer 0 len)

-- What the closure does with the cluster of an item: `block_cnt`, the index and the bytes afterwards.
-- A difference of `usize` wraps.
unfoldable pub copy_cluster : FileSystem → ℕ → ℕ → ℕ → ℕ → ℕ → List ℕ → Outcome (ℕ × ℕ × List ℕ)
unfolding copy_blocks sector_pre_cluster get_needed_sector
copy_cluster fs size room cluster block_cnt index out = do
  let cluster_size = sector_pre_cluster fs * block_size
  offset_in_disk ← offset fs.bpb cluster
  let is_last = ltb ((size + 2 ^ 64 - index) % 2 ^ 64) cluster_size
  let bytes_left = size % cluster_size
  let block_cnt' = if is_last then get_needed_sector bytes_left else block_cnt
  let end = if is_last then index + bytes_left else index + cluster_size
  guard (block_cnt' == 0 || offset_in_disk % block_size == 0)
  (index', out') ← copy_blocks fs.disk room end block_cnt' (offset_in_disk / block_size) index out
  done (block_cnt', index', out')

-- `clus_chain.map(…).last()`: the bytes put into the front of the buffer.
unfoldable pub copy_clusters :
    ℕ → FileSystem → ℕ → ℕ → ClusterChain → ℕ → ℕ → List ℕ → Outcome (List ℕ)
unfolding copy_cluster
copy_clusters zero fs size room chain block_cnt index out = out_of_fuel
copy_clusters (suc fuel) fs size room chain block_cnt index out = do
  (chain', item) ← next chain fs.disk
  elim item [
    | none ↦ done out
    | some f ↦ do
      (block_cnt', index', out') ← copy_cluster fs size room f.current_cluster block_cnt index out
      copy_clusters fuel fs size room chain' block_cnt' index' out'
  ]

-- The file size and the bytes put into the front of a buffer of `room` bytes.
unfoldable pub read : ℕ → FileSystem → VirtFile → ℕ → Outcome (Result (ℕ × List ℕ) FileError)
unfolding copy_clusters sector_pre_cluster
read fuel fs self room = do
  size ← file_size fs self
  if ltb room size then done (err buf_too_small) else do
    guard (self.cluster_chain.current_cluster == new_vir_file_cluster)
    out ← copy_clusters fuel fs size room self.cluster_chain (sector_pre_cluster fs) 0 []
    done (ok (size, out))

-- Where the buffer goes, and the size of the file afterwards.
abbrev pub placed : WriteType → ℕ → ℕ → ℕ × ℕ
placed over_written size len = (0, len)
placed append size len = (size, size + len)

unfoldable pub write :
    ℕ
    → FileSystem
    → VirtFile
    → List ℕ
    → WriteType
    → Outcome (Result ℕ FileError × FileSystem × VirtFile)
unfolding write_at set_file_size
write fuel fs self buf write_type = do
  size ← file_size fs self
  let (place, new_size) = placed write_type size (length buf)
  (write_size, fs1, self1) ← write_at fuel fs self place buf
  fs2 ← set_file_size fs1 self1 new_size
  done (ok write_size, fs2, self1)
