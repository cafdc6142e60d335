-- ===== src/Tests/File.antt =====
-- Files of src/file.rs: one on the cluster 9, one that does not use its second cluster, and that of
-- Tests/Io on two clusters.
use fat32_rs.Base.{
  ℕ, ◌≡◌, ◌≤◌, ◌<◌, List, inl, refl, arith, [], ◌∷◌, done, none, ◌==◌, if◌then◌else◌, panic, ltb,
  ok, err,
}
use fat32_rs.Bpb.{offset, first_data_sector, root_dir_sector_cnt}
use fat32_rs.Bytes.{read_le_u16, read_le_u32}
use fat32_rs.Disk.{Disk}
use fat32_rs.Disk
use fat32_rs.Entry.Short.{empty, new_from_bytes}
use fat32_rs.Entry.Short as Short
use fat32_rs.Fat.Entries.{entry}
use fat32_rs.Fs.{FileSystem, new_bpb}
use fat32_rs.Fs.Alloc.Step.{state}
use fat32_rs.Vfs.{VirtFile, sde_pos, read_sde, first_cluster, file_size}
use fat32_rs.Vfs.Io.{read_at}
use fat32_rs.Vfs.Io.Walk.{IsOpen}
use fat32_rs.Vfs.Io.Stored.{IsStored, incerase_size-fits}
use fat32_rs.File.{over_written, buf_too_small, read, write}
use fat32_rs.File.Read.{read-read_at}
use fat32_rs.File.Unused.{read-panic}
use fat32_rs.File.Write.{read-write}
use fat32_rs.Tests.Fat.{used}
use fat32_rs.Tests.Vfs.{third}
use fat32_rs.Tests.Io.{volume, fifth, opened, size, word}

read-read_at_example :
    (out : List ℕ) × (read_at 3 volume fifth 0 8192 ≡ done out)
    × (read 3 volume fifth 9000
        ≡ done (if ltb 9000 8192 then err buf_too_small else ok (8192, out)))
read-read_at_example =
    read-read_at volume fifth 5 (7 ∷ []) 3 8192 9000 opened size (omega arith) (omega arith)
      (omega arith) (omega arith)

-- The entry names a cluster, and a size in two bytes.
abbrev disk : ℕ → ℕ → ℕ → Disk
disk c lo hi b i =
    if b == 160
    then (if i == 90 then c else if i == 92 then lo else if i == 93 then hi else 0)
    else used b i

abbrev with_entry : ℕ → ℕ → ℕ → FileSystem
with_entry c lo hi = state new_bpb 16384 2000 empty (disk c lo hi) []

abbrev starting : ℕ → VirtFile
starting c = record third {
  cluster_chain = record {
    fat1_offset = 16384;
    start_cluster = c;
    previous_cluster = none;
    current_cluster = 0;
    next_cluster = none;
  };
}

short_first : first_cluster (with_entry 5 100 0) (starting 5) ≡ done 5
unfolding first_cluster read_sde sde_pos offset first_data_sector root_dir_sector_cnt new_from_bytes
    read_le_u16 Disk.read Short.first_cluster
short_first = refl

short_size : file_size (with_entry 5 100 0) (starting 5) ≡ done 100
unfolding file_size read_sde sde_pos offset first_data_sector root_dir_sector_cnt new_from_bytes
    read_le_u32 Disk.read Short.file_size
short_size = refl

link_5 : entry 16384 (disk 5 100 0) 5 ≡ 7
unfolding entry read_le_u32
link_5 = refl

link_7 : 0x0FFF_FFF8 ≤ entry 16384 (disk 5 100 0) 7
unfolding entry read_le_u32
link_7 = omega arith

short_opened : IsOpen (with_entry 5 100 0) (starting 5) 5 (7 ∷ [])
short_opened = record {
  mounted = omega arith;
  table = refl;
  fresh = refl;
  start = refl;
  first = short_first;
  low = omega arith;
  chain = (link_5, omega arith, omega arith, link_7);
}

read-panic_example : read 2 (with_entry 5 100 0) (starting 5) 100 ≡ panic
read-panic_example =
    read-panic (with_entry 5 100 0) (starting 5) 5 7 [] 2 100 short_opened short_size (omega arith)
      (omega arith) (omega arith)

-- On the cluster 9, with 4096 bytes.
place_9 : sde_pos (with_entry 9 0 16) (starting 9) ≡ done (160, 64)
unfolding sde_pos offset first_data_sector root_dir_sector_cnt
place_9 = refl

first_9 : first_cluster (with_entry 9 0 16) (starting 9) ≡ done 9
unfolding first_cluster read_sde sde_pos offset first_data_sector root_dir_sector_cnt new_from_bytes
    read_le_u16 Disk.read Short.first_cluster
first_9 = refl

size_9 : file_size (with_entry 9 0 16) (starting 9) ≡ done 4096
unfolding file_size read_sde sde_pos offset first_data_sector root_dir_sector_cnt new_from_bytes
    read_le_u32 Disk.read Short.file_size
size_9 = refl

link_9 : 0x0FFF_FFF8 ≤ entry 16384 (disk 9 0 16) 9
unfolding entry read_le_u32
link_9 = omega arith

byte_9 : (i : ℕ) → disk 9 0 16 160 i < 256
byte_9 i = ground arith

single : IsStored (with_entry 9 0 16) (starting 9) 9 [] 160 64
single = record {
  opened = record {
    mounted = omega arith;
    table = refl;
    fresh = refl;
    start = refl;
    first = first_9;
    low = omega arith;
    chain = link_9;
  };
  in_table = omega arith;
  distinct = omega arith;
  entry = record {
    not_root = omega arith;
    position = place_9;
    inside = omega arith;
    bytes = byte_9;
  };
  apart = (inl (omega arith), tt);
}

read-write_example :
    (fs3 : FileSystem) × (write 2 (with_entry 9 0 16) (starting 9) word over_written
      ≡ done (ok 3, fs3, starting 9))
    × (read 2 fs3 (starting 9) 10 ≡ done (ok (3, word)))
read-write_example =
    read-write (with_entry 9 0 16) (with_entry 9 0 16) (starting 9) (starting 9) 9 [] 160 64 single
      (omega arith) refl 2 4096 10 word size_9
      (incerase_size-fits (with_entry 9 0 16) (starting 9) 2 9 4096 3 first_9 size_9 (omega arith))
      (omega arith) (omega arith) (omega arith) (omega arith) (omega arith)
