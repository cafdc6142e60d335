-- ===== src/File/Unused.antt =====
-- src/file.rs: `read` of a file with a cluster that its size does not need.
use fat32_rs.Base.{
  ℕ, zero, suc, ◌+◌, ◌-◌, ◌*◌, ◌/◌, ◌%◌, ◌^◌, ◌≤◌, ◌<◌, ◌≡◌, arith, refl, ◌==◌, min, eq→==, panic,
  lt→ltb, le→ltb, lt→leb, List, [], ◌∷◌, none, done,
}
use fat32_rs.Bytes.{slice}
use fat32_rs.Disk.{Disk, read-block}
use fat32_rs.Bpb.Geometry.{cluster_start, offset-done}
use fat32_rs.Fat.Cursor.Iterate.{next-on_cluster}
use fat32_rs.Fs.{FileSystem, sector_pre_cluster}
use fat32_rs.Fs.Shape.{IsMounted, mounted-IsAligned}
use fat32_rs.Names.{get_needed_sector}
use fat32_rs.Vfs.{VirtFile, file_size}
use fat32_rs.Vfs.Io.Copy.{content-Holds}
use fat32_rs.Vfs.Io.ReadAt.{bytes_of}
use fat32_rs.Vfs.Io.Walk.{IsOpen, next_fresh}
use fat32_rs.File.{copy_blocks, copy_cluster, copy_clusters, read}
use fat32_rs.File.Blocks.{cluster_block, cluster_aligned, or_true, part_of_cluster}

copy_blocks-panic :
    (disk : Disk) (room end n block index : ℕ) (out : List ℕ)
    → 0 < n
    → index ≡ room
    → index < end
    → end < 2 ^ 64
    → copy_blocks disk room end n block index out ≡ panic
unfolding copy_blocks
copy_blocks-panic disk room end zero block index out h e l b = absurd (omega arith)
copy_blocks-panic disk room end (suc n) block index out h e l b = rw (
  read-block disk block,
  lt→leb (index + min 512 ((end + 2 ^ 64 - index) % 2 ^ 64)) room (omega arith),
)

unused_cluster :
    (fs : FileSystem) (m : IsMounted fs.bpb fs.fat.fat1_offset) (y size b : ℕ) (out : List ℕ)
    → 2 ≤ y
    → 0 < size
    → size < fs.bpb.basic_bpb.sec_per_clus * 512
    → copy_cluster fs size size y b size out ≡ panic
unfolding copy_cluster sector_pre_cluster fat32_rs.Bpb.sector_per_cluster get_needed_sector
unused_cluster fs m y size b out h pos l =
    let spc = fs.bpb.basic_bpb.sec_per_clus in
    let wide : spc < 256 = m.volume.cluster in
    let left : size % (spc * 512) ≡ size = grind arith in
    let count = (size + 512 - 1) / 512 in
    rw (
      offset-done m.volume y h,
      lt→ltb ((size + 2 ^ 64 - size) % 2 ^ 64) (spc * 512) (omega arith),
      left,
      cluster_block fs m (λ i. 0) size size (omega arith) (omega (arith, m.volume.cluster)) y,
      cluster_aligned fs m (λ i. 0) size size (omega arith) (omega (arith, m.volume.cluster)) y,
      or_true fs m (λ i. 0) size size (omega arith) (omega (arith, m.volume.cluster)) (count == 0),
      copy_blocks-panic fs.disk size (size + size) count (cluster_start fs.bpb y) size out
          (omega arith) refl (omega arith) (omega (arith, m.volume.cluster)),
    )

second_cluster :
    (fs : FileSystem) (self : VirtFile) (c y : ℕ) (cs : List ℕ) (fuel size : ℕ)
    → IsOpen fs self c (y ∷ cs)
    → 2 ≤ fuel
    → 0 < size
    → size < fs.bpb.basic_bpb.sec_per_clus * 512
    → copy_clusters fuel fs size size self.cluster_chain (sector_pre_cluster fs) 0 [] ≡ panic
unfolding copy_clusters slice sector_pre_cluster fat32_rs.Bpb.sector_per_cluster
second_cluster fs self c y cs (suc (suc fuel)) size o e pos b =
    let small : size + fs.bpb.basic_bpb.sec_per_clus * 512 < 2 ^ 64 =
      omega (arith, o.mounted.volume.cluster) in
    let al = mounted-IsAligned o.mounted in
    rw (
      next_fresh fs.fat.fat1_offset al fs.disk self.cluster_chain c o.table o.start o.fresh,
      part_of_cluster fs o.mounted (bytes_of fs (c ∷ y ∷ cs)) size size (omega arith) small c 0 0
          o.low
          (content-Holds (cluster_start fs.bpb) fs.bpb.basic_bpb.sec_per_clus fs.disk
            (c ∷ y ∷ cs)).0
          (omega arith) (omega arith) (omega arith),
      next-on_cluster fs.fat.fat1_offset al fs.disk c none c y o.low o.chain.0 o.chain.2,
      unused_cluster fs o.mounted y size (get_needed_sector (size - 0))
          (slice (bytes_of fs (c ∷ y ∷ cs)) 0 size) o.chain.1 pos b,
    )
second_cluster fs self c y cs zero size o e pos b = absurd (omega arith)
second_cluster fs self c y cs (suc zero) size o e pos b = absurd (omega arith)

-- For an open file that has a second cluster and whose size ends inside the first, as when a
-- shorter content was written over it, with fuel for two clusters, `read` into a buffer of
-- exactly its size panics.
pub read-panic :
    (fs : FileSystem) (self : VirtFile) (c y : ℕ) (cs : List ℕ) (fuel size : ℕ)
    → IsOpen fs self c (y ∷ cs)
    → file_size fs self ≡ done size
    → 2 ≤ fuel
    → 0 < size
    → size < fs.bpb.basic_bpb.sec_per_clus * 512
    → read fuel fs self size ≡ panic
unfolding read
read-panic fs self c y cs fuel size o known e pos b = rw (
  known,
  le→ltb size size (omega arith),
  eq→== self.cluster_chain.current_cluster 0 o.fresh,
  second_cluster fs self c y cs fuel size o e pos b,
)
