-- ===== src/Tests/Fs.antt =====
-- The file system of src/fs.rs on a small disk.
use fat32_rs.Base.{ℕ, ◌^◌, ◌<◌, ◌≡◌, refl, arith, List, [], ◌∷◌, ◌++◌, some, done}
use fat32_rs.Bytes.{read_le_u32}
use fat32_rs.Disk.{Disk}
use fat32_rs.Bpb.{root_cluster}
use fat32_rs.Bpb.Geometry.{IsVolume, cluster_start}
use fat32_rs.Entry.Short.{empty}
use fat32_rs.Fat.Entries.{entry}
use fat32_rs.Fat.Walk.{IsChain}
use fat32_rs.Fs.{
  FileSystem, clear_cluster, alloc_cluster, dealloc_cluster, create, open_fs, new_bpb,
}
use fat32_rs.Fs.Shape.{IsMounted}
use fat32_rs.Fs.Clear.{Cleared, clear_cluster-Cleared}
use fat32_rs.Fs.Pool.{Pool, free_count}
use fat32_rs.Fs.Alloc.{Allocated, alloc_cluster-Allocated}
use fat32_rs.Fs.Alloc.Step.{state}
use fat32_rs.Fs.Dealloc.{Freed, dealloc_cluster-Freed, dealloc_cluster-alloc_cluster}
use fat32_rs.Fs.Create.{open_fs-create}
use fat32_rs.Fs.{cluster_size, count_needed_clusters}
use fat32_rs.Fs.Needed.{IsNeeded, count_needed_clusters-IsNeeded}
use fat32_rs.Tests.Fat.{used, entries, chain, aligned}

mounted : IsMounted new_bpb 16384
mounted = omega arith

volume : IsVolume new_bpb
volume = omega arith

three_free : free_count (entry 16384 used) 4 5 ≡ 3
unfolding free_count entry read_le_u32
three_free = refl

-- Cluster 3 was recycled; 4, 6 and 8 are found by the search.
pool : Pool 8192 (entry 16384 used) (3 ∷ []) 2 4 5 3
pool = record {
  zero_reserved = omega (arith, entries);
  one_reserved = omega (arith, entries);
  queue = omega (arith, entries);
  distinct = (tt, tt);
  apart = omega arith;
  below = omega arith;
  top = omega arith;
  small = omega arith;
  enough = omega (arith, three_free);
}

abbrev before : FileSystem
before = state new_bpb 16384 2000 empty used (3 ∷ [])

clear_cluster-Cleared_example :
    (d' : Disk) × (clear_cluster before 9 ≡ done (record before { disk = d' }))
    × Cleared used (cluster_start new_bpb 9) 8 d'
clear_cluster-Cleared_example = clear_cluster-Cleared before 9 volume (omega arith) (omega arith)

alloc_cluster-Allocated_example :
    (first : ℕ) × (cs : List ℕ) × (d' : Disk) × (alloc_cluster 8192 before 3 2
      ≡ done (some first, state new_bpb 16384 1997 empty d' []))
    × Allocated new_bpb 16384 used 3 1997 first cs d'
alloc_cluster-Allocated_example =
    alloc_cluster-Allocated new_bpb 16384 mounted 2000 empty 8192 2 used (3 ∷ []) 2 4 5 pool
      (omega arith) (omega arith)

dealloc_cluster-Freed_example :
    (d' : Disk) × (dealloc_cluster before (2 ∷ 5 ∷ 7 ∷ [])
      ≡ done (state new_bpb 16384 2003 empty d' (3 ∷ 2 ∷ 5 ∷ 7 ∷ [])))
    × Freed new_bpb 16384 used (2 ∷ 5 ∷ 7 ∷ []) d'
    × (2003 < 2 ^ 32 → read_le_u32 (d' 1) 488 ≡ 2003)
dealloc_cluster-Freed_example =
    dealloc_cluster-Freed new_bpb 16384 mounted 2000 empty used (3 ∷ []) 2 (5 ∷ 7 ∷ [])
      (omega arith)

dealloc_cluster-alloc_cluster_example :
    (first : ℕ) × (cs : List ℕ) × (fs1 : FileSystem) × (d2 : Disk) × (alloc_cluster 8192 before 3 2
      ≡ done (some first, fs1))
    × (dealloc_cluster fs1 (first ∷ cs)
        ≡ done (state new_bpb 16384 2000 empty d2 ([] ++ first ∷ cs)))
    × ((x : ℕ) → x < 8192 → entry 16384 d2 x ≡ entry 16384 used x)
dealloc_cluster-alloc_cluster_example =
    dealloc_cluster-alloc_cluster new_bpb 16384 mounted 2000 empty 8192 2 used (3 ∷ []) 2 4 5 pool
      (omega arith) (omega arith)

open_fs-create_example :
    (fs : FileSystem) × (create used ≡ done fs)
    × (open_fs fs.disk ≡ done fs)
    × IsMounted fs.bpb fs.fat.fat1_offset
    × IsChain (entry fs.fat.fat1_offset fs.disk) (root_cluster fs.bpb ∷ [])
open_fs-create_example = open_fs-create used

size : cluster_size before ≡ 4096
unfolding cluster_size
size = refl

count_needed_clusters-IsNeeded_example :
    (k m : ℕ) × (count_needed_clusters 10 before 20000 0 ≡ done k)
    × IsNeeded (cluster_size before) 0 k 20000
    × (count_needed_clusters 10 before 20000 2 ≡ done m)
    × IsNeeded (cluster_size before) 3 m 20000
count_needed_clusters-IsNeeded_example =
    count_needed_clusters-IsNeeded before 10 20000 2 (5 ∷ 7 ∷ []) aligned (omega (arith, size))
      (omega (arith, size)) (omega arith) (omega arith) (omega arith) (omega arith) chain
