-- ===== src/File/Read.antt =====
-- src/file.rs: `read` gives the bytes of a file whose clusters are those that its size needs.
use fat32_rs.Base.{
  ℕ, ◌+◌, ◌*◌, ◌^◌, ◌≤◌, ◌<◌, ◌≡◌, arith, ltb, eq→==, lt→ltb, le→ltb, if◌then◌else◌, List, [], ◌∷◌,
  length, none, done, ok, err,
}
use native.Mathlib.Decide.{dec_lt}
use fat32_rs.Bytes.{slice}
use fat32_rs.Bpb.Geometry.{cluster_start}
use fat32_rs.Fs.{FileSystem, sector_pre_cluster}
use fat32_rs.Fs.Shape.{mounted-IsAligned}
use fat32_rs.Vfs.{VirtFile, file_size}
use fat32_rs.Vfs.Io.Copy.{content-Holds}
use fat32_rs.Vfs.Io.{read_at}
use fat32_rs.Vfs.Io.ReadAt.{bytes_of, read_at-content}
use fat32_rs.Vfs.Io.Walk.{IsOpen, next_fresh}
use fat32_rs.File.{buf_too_small, copy_clusters, read}
use fat32_rs.File.Blocks.{copy_clusters_lem}

copied :
    (fs : FileSystem) (self : VirtFile) (c : ℕ) (cs : List ℕ) (fuel size room : ℕ)
    → IsOpen fs self c cs
    → length (c ∷ cs) < fuel
    → size + fs.bpb.basic_bpb.sec_per_clus * 512 < 2 ^ 64
    → length cs * (fs.bpb.basic_bpb.sec_per_clus * 512) < size
    → size ≤ length (c ∷ cs) * (fs.bpb.basic_bpb.sec_per_clus * 512)
    → size ≤ room
    → copy_clusters fuel fs size room self.cluster_chain (sector_pre_cluster fs) 0 []
      ≡ done (slice (bytes_of fs (c ∷ cs)) 0 size)
unfolding slice sector_pre_cluster fat32_rs.Bpb.sector_per_cluster
copied fs self c cs fuel size room o e small low high enough =
    copy_clusters_lem fs o.mounted (bytes_of fs (c ∷ cs)) size room enough small fuel c none
      self.cluster_chain c cs 0 0
      (next_fresh fs.fat.fat1_offset (mounted-IsAligned o.mounted) fs.disk self.cluster_chain c
        o.table o.start o.fresh)
      e o.low o.chain
      (content-Holds (cluster_start fs.bpb) fs.bpb.basic_bpb.sec_per_clus fs.disk (c ∷ cs))
      (omega arith) (omega arith) (omega arith)

-- For an open file whose size ends in the last cluster of its chain, with more fuel than it has
-- clusters, `read` into a buffer of at least that size gives the size and the bytes that the clusters
-- hold, as `read_at` of the whole file does; into a smaller buffer it is refused.
pub read-read_at :
    (fs : FileSystem) (self : VirtFile) (c : ℕ) (cs : List ℕ) (fuel size room : ℕ)
    → IsOpen fs self c cs
    → file_size fs self ≡ done size
    → length (c ∷ cs) < fuel
    → size + fs.bpb.basic_bpb.sec_per_clus * 512 < 2 ^ 64
    → length cs * (fs.bpb.basic_bpb.sec_per_clus * 512) < size
    → size ≤ length (c ∷ cs) * (fs.bpb.basic_bpb.sec_per_clus * 512)
    → (out : List ℕ) × (read_at fuel fs self 0 size ≡ done out)
      × (read fuel fs self room
          ≡ done (if ltb room size then err buf_too_small else ok (size, out)))
unfolding read
read-read_at fs self c cs fuel size room o known e small low high = (
  slice (bytes_of fs (c ∷ cs)) 0 size,
  read_at-content fs self c cs fuel 0 size o (omega arith) (omega arith),
  elim (dec_lt room size) [
    | yes l ↦ rw (known, lt→ltb room size l)
    | no g ↦ rw (
      known,
      le→ltb room size (omega arith),
      eq→== self.cluster_chain.current_cluster 0 o.fresh,
      copied fs self c cs fuel size room o e small low high (omega arith),
    )
  ],
)
