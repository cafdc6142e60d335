-- ===== src/Tests/Io.antt =====
-- A file of src/vfs.rs on the clusters 5 and 7, whose entry is the third of cluster 2.
use fat32_rs.Base.{
  ℕ, ◌≡◌, ◌+◌, ◌*◌, ◌≤◌, ◌<◌, List, ◌⊎◌, inl, refl, arith, [], ◌∷◌, done, none, ◌==◌, if◌then◌else◌,
  panic,
}
use fat32_rs.Bpb.{offset, first_data_sector, root_dir_sector_cnt}
use fat32_rs.Bytes.{slice, read_le_u16, read_le_u32}
use fat32_rs.Disk.{Disk, read}
use fat32_rs.Entry.Short.{empty, new_from_bytes}
use fat32_rs.Entry.Short as Short
use fat32_rs.Fat.Entries.{entry}
use fat32_rs.Fs.{FileSystem, new_bpb, cluster_size}
use fat32_rs.Fs.Alloc.Step.{state}
use fat32_rs.Vfs.{VirtFile, sde_pos, read_sde, first_cluster, file_size}
use fat32_rs.Vfs.Io.{read_at, write_at}
use fat32_rs.Vfs.Io.Walk.{IsOpen}
use fat32_rs.Vfs.Io.ReadAt.{bytes_of, read_at-content, read_at-end}
use fat32_rs.Vfs.Io.Stored.{IsStored, incerase_size-fits, read_at-write_at}
use fat32_rs.Tests.Fat.{used}
use fat32_rs.Tests.Vfs.{third}

-- The entry names the cluster 5 and the size 8192.
abbrev pub held : Disk
held b i = if b == 160 then (if i == 90 then 5 else if i == 93 then 32 else 0) else used b i

abbrev pub volume : FileSystem
volume = state new_bpb 16384 2000 empty held []

abbrev pub fifth : VirtFile
fifth = record third {
  cluster_chain = record {
    fat1_offset = 16384;
    start_cluster = 5;
    previous_cluster = none;
    current_cluster = 0;
    next_cluster = none;
  };
}

place : sde_pos volume fifth ≡ done (160, 64)
unfolding sde_pos offset first_data_sector root_dir_sector_cnt
place = refl

pub first : first_cluster volume fifth ≡ done 5
unfolding first_cluster read_sde sde_pos offset first_data_sector root_dir_sector_cnt new_from_bytes
    read_le_u16 read Short.first_cluster
first = refl

pub size : file_size volume fifth ≡ done 8192
unfolding file_size read_sde sde_pos offset first_data_sector root_dir_sector_cnt new_from_bytes
    read_le_u32 read Short.file_size
size = refl

link_5 : entry 16384 held 5 ≡ 7
unfolding entry read_le_u32
link_5 = refl

link_7 : 0x0FFF_FFF8 ≤ entry 16384 held 7
unfolding entry read_le_u32
link_7 = omega arith

pub opened : IsOpen volume fifth 5 (7 ∷ [])
opened = record {
  mounted = omega arith;
  table = refl;
  fresh = refl;
  start = refl;
  first = first;
  low = omega arith;
  chain = (link_5, omega arith, omega arith, link_7);
}

held_byte : (i : ℕ) → held 160 i < 256
held_byte i = ground arith

pub stored : IsStored volume fifth 5 (7 ∷ []) 160 64
stored = record {
  opened = opened;
  in_table = omega arith;
  distinct = omega arith;
  entry = record {
    not_root = omega arith;
    position = place;
    inside = omega arith;
    bytes = held_byte;
  };
  apart = (inl (omega arith), (inl (omega arith), tt));
}

-- Across the border of the two clusters.
read_at-content_example :
    read_at 2 volume fifth 4090 10 ≡ done (slice (bytes_of volume (5 ∷ 7 ∷ [])) 4090 10)
read_at-content_example =
    read_at-content volume fifth 5 (7 ∷ []) 2 4090 10 opened (omega arith) (omega arith)

read_at-end_example :
    read_at 3 volume fifth 8192 10 ≡ (if 8192 == 2 * cluster_size volume then done [] else panic)
unfolding cluster_size
read_at-end_example =
    read_at-end volume fifth 5 (7 ∷ []) 3 8192 10 opened (omega arith) (omega arith) (omega arith)
      (omega arith) (omega arith)

abbrev pub word : List ℕ
word = b'a' ∷ b'b' ∷ b'c' ∷ []

read_at-write_at_example :
    (fs2 : FileSystem) × (write_at 2 volume fifth 4095 word ≡ done (3, fs2, fifth))
    × (read_at 2 fs2 fifth 4095 3 ≡ done word)
    × ((q n : ℕ)
        → q + n ≤ 8192
        → (q + n ≤ 4095) ⊎ (4098 ≤ q)
        → read_at 2 fs2 fifth q n ≡ read_at 2 volume fifth q n)
read_at-write_at_example =
    read_at-write_at volume volume fifth fifth 5 (7 ∷ []) 160 64 stored 2 4095 word (omega arith)
      (incerase_size-fits volume fifth 2 5 8192 4098 first size (omega arith)) refl (omega arith)
      (omega arith)
