-- ===== src/Fat/Cursor.antt =====
-- src/fat.rs: `ClusterChain`, a cursor on the chain of a file. While `current_cluster` is 0 it
-- stands before the first cluster.
pub mod Iterate
use fat32_rs.Base.{
  ℕ, ◌+◌, ◌*◌, ◌/◌, ◌%◌, leb, ◌==◌, if◌then◌else◌, Bool, true, false, Option, none, some, Outcome,
  done, guard, ◌>>=◌, ◌>>◌,
}
use fat32_rs.Bytes.{read_le_u32}
use fat32_rs.Disk.{Disk, block_size, read}
use fat32_rs.Fat.{link, new_vir_file_cluster}

pub record ClusterChain : Type 0 where
  pub fat1_offset : ℕ
  pub start_cluster : ℕ
  pub previous_cluster : Option ℕ
  pub current_cluster : ℕ
  pub next_cluster : Option ℕ

unfoldable pub new : ℕ → ℕ → ClusterChain
new cluster fat_offset = record {
  fat1_offset = fat_offset;
  start_cluster = cluster;
  previous_cluster = none;
  current_cluster = 0;
  next_cluster = none;
}

unfoldable pub refresh : ClusterChain → ℕ → ClusterChain
refresh chain start = record chain { current_cluster = new_vir_file_cluster; start_cluster = start }

unfoldable pub next_is_none : ClusterChain → Bool
next_is_none chain = elim chain.next_cluster [ none ↦ true | some c ↦ false ]

unfoldable pub previous_is_none : ClusterChain → Bool
previous_is_none chain = elim chain.previous_cluster [ none ↦ true | some c ↦ false ]

-- The entry of the current cluster becomes the next link; the item is a copy of the cursor.
unfoldable pub load : ClusterChain → Disk → Outcome (ClusterChain × Option ClusterChain)
load chain disk = do
  let offset = chain.current_cluster * 4
  let offset_left = offset % block_size
  let block_id = chain.fat1_offset / block_size + offset / block_size
  buffer ← read disk block_id block_size 0
  guard (leb (offset_left + 4) block_size)
  let chain' = record chain { next_cluster = link (read_le_u32 buffer offset_left) }
  done (chain', some chain')

-- `Iterator::next`: the cursor afterwards, and the item.
unfoldable pub next : ClusterChain → Disk → Outcome (ClusterChain × Option ClusterChain)
unfolding load
next chain disk =
    if chain.current_cluster == new_vir_file_cluster
    then load (record chain { current_cluster = chain.start_cluster; previous_cluster = none }) disk
    else elim chain.next_cluster [
      | none ↦ done (chain, none)
      | some c ↦
          load (record chain { previous_cluster = some chain.current_cluster; current_cluster = c })
            disk
    ]
