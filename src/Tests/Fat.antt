-- ===== src/Tests/Fat.antt =====
-- The table of src/fat.rs with a chain of three clusters.
use fat32_rs.Base.{
  ℕ, ◌≤◌, ◌≡◌, ◌≢◌, refl, arith, ◌==◌, if◌then◌else◌, List, [], ◌∷◌, ◌++◌, get_elem?, done,
}
use fat32_rs.Bytes.{of_list, read_le_u32, le_u32}
use fat32_rs.Disk.{Disk}
use fat32_rs.Fat.{
  FatManager, end_of_cluster, link, set_next_cluster, get_next_cluster, get_all_cluster_id,
  cluster_chain_len, cluster_chain_tail, get_cluster_at, find_blank_cluster,
}
use fat32_rs.Fat.Entries.{IsAligned, entry, entry_block, get_next_cluster-set_next_cluster}
use fat32_rs.Fat.Walk.{IsChain, walks-chain}
use fat32_rs.Base.{none, some}
use fat32_rs.Fat.Cursor.{ClusterChain, new, refresh}
use fat32_rs.Fat.Cursor.Iterate.{visited, visited-get_all_cluster_id}
use fat32_rs.Fat.Search.{FirstFree, find_blank_cluster-FirstFree}

abbrev words : List ℕ → List ℕ
words [] = []
words (v ∷ vs) = le_u32 v ++ words vs

-- 2 → 5 → 7 and 9; 3, 4, 6, 8 and all behind 9 are free.
abbrev pub table : List ℕ
table =
    words (
      end_of_cluster ∷ end_of_cluster ∷ 5 ∷ 0 ∷ 0 ∷ 7 ∷ 0 ∷ end_of_cluster ∷ 0 ∷ end_of_cluster
      ∷ [])

abbrev pub used : Disk
used b i = if b == 32 then of_list table i else 0

abbrev manager : FatManager
manager = record { recycled_cluster = []; fat1_offset = 16384 }

pub entries :
    (entry 16384 used 0 ≡ end_of_cluster)
    × (entry 16384 used 1 ≡ end_of_cluster)
    × (entry 16384 used 2 ≡ 5)
    × (entry 16384 used 3 ≡ 0)
    × (entry 16384 used 4 ≡ 0)
    × (entry 16384 used 5 ≡ 7)
    × (entry 16384 used 6 ≡ 0)
    × (entry 16384 used 7 ≡ end_of_cluster)
unfolding entry read_le_u32
entries = (refl, refl, refl, refl, refl, refl, refl, refl)

pub ended : entry 16384 used 9 ≡ end_of_cluster
unfolding entry read_le_u32
ended = refl

pub aligned : IsAligned 16384
aligned = refl

pub chain : IsChain (entry 16384 used) (2 ∷ 5 ∷ 7 ∷ [])
chain = omega (arith, entries)

get_next_cluster-set_next_cluster_example :
    (d' : Disk) × (set_next_cluster manager used 7 9 ≡ done d')
    × (get_next_cluster manager d' 7 ≡ done (link 9))
    × ((m : ℕ) → m ≢ 7 → get_next_cluster manager d' m ≡ get_next_cluster manager used m)
    × ((b : ℕ) → b ≢ entry_block 16384 7 → d' b ≡ used b)
get_next_cluster-set_next_cluster_example =
    get_next_cluster-set_next_cluster manager aligned used 7 9 (omega arith)

walks-chain_example :
    (get_all_cluster_id manager used 10 2 ≡ done (2 ∷ 5 ∷ 7 ∷ []))
    × (cluster_chain_len manager used 10 2 ≡ done 3)
    × (cluster_chain_tail manager used 10 2 ≡ done 7)
    × ((i : ℕ) → get_cluster_at manager used 2 i ≡ done (get_elem? (2 ∷ 5 ∷ 7 ∷ []) i))
walks-chain_example =
    walks-chain manager aligned used 10 2 (5 ∷ 7 ∷ []) (omega arith) (omega arith) (omega arith)
      (omega arith) chain

find_blank_cluster-FirstFree_example :
    (c : ℕ) × (find_blank_cluster manager used 10 2 ≡ done c)
    × FirstFree manager aligned used 3 c
    × (c ≤ 6)
find_blank_cluster-FirstFree_example =
    find_blank_cluster-FirstFree manager aligned used 10 2 6 (omega arith) (omega arith)
      (omega arith) (entries.6)

-- A cursor at the end of another chain.
abbrev stale : ClusterChain
stale = record {
  fat1_offset = 16384;
  start_cluster = 9;
  previous_cluster = some 9;
  current_cluster = 10;
  next_cluster = none;
}

visited-get_all_cluster_id_example :
    (get_all_cluster_id manager used 10 2 ≡ done (2 ∷ 5 ∷ 7 ∷ []))
    × (visited 10 (new 2 16384) used ≡ done (2 ∷ 5 ∷ 7 ∷ []))
    × (visited 10 (refresh stale 2) used ≡ done (2 ∷ 5 ∷ 7 ∷ []))
visited-get_all_cluster_id_example =
    visited-get_all_cluster_id manager used 10 2 (5 ∷ 7 ∷ []) stale aligned refl (omega arith)
      (omega arith) (omega arith) (omega arith) chain
