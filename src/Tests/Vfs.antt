-- ===== src/Tests/Vfs.antt =====
-- A file of src/vfs.rs whose entry is the third of cluster 2.
use fat32_rs.Base.{◌≡◌, refl, arith, [], ◌∷◌, done, none}
use fat32_rs.Bpb.{offset, first_data_sector, root_dir_sector_cnt}
use fat32_rs.Entry.{file}
use fat32_rs.Entry.Short.{empty}
use fat32_rs.Fs.{FileSystem, new_bpb}
use fat32_rs.Fs.Alloc.Step.{state}
use fat32_rs.Vfs.{VirtFile, sde_pos, first_cluster}
use fat32_rs.Vfs.Fields.{IsPlaced}
use fat32_rs.Base.{ℕ}
use fat32_rs.Disk.{Disk, read}
use fat32_rs.Fat.Entries.{entry}
use fat32_rs.Base.{◌==◌, ◌<◌, if◌then◌else◌, All, ◌∉◌}
use fat32_rs.Bytes.{read_le_u16, read_le_u32}
use fat32_rs.Entry.Short.{delete, new_from_bytes}
use fat32_rs.Fs.Shape.{IsMounted}
use fat32_rs.Vfs.{read_sde}
use fat32_rs.Vfs.Fields.{entry_of}
use fat32_rs.Vfs.Chain.{clear}
use fat32_rs.Vfs.Clear.{clear-Freed}
use fat32_rs.Tests.Fat.{used}

abbrev pub mounted : FileSystem
mounted = state new_bpb 16384 2000 empty used []

abbrev pub third : VirtFile
third = record {
  name = b'a' ∷ [];
  sde_pos = record { cluster = 2; offset_in_cluster = 64 };
  lde_pos = [];
  cluster_chain = record {
    fat1_offset = 16384;
    start_cluster = 0;
    previous_cluster = none;
    current_cluster = 0;
    next_cluster = none;
  };
  attr = file;
}

place : sde_pos mounted third ≡ done (160, 64)
unfolding sde_pos offset first_data_sector root_dir_sector_cnt
place = refl

placed : IsPlaced mounted third 160 64
placed = record {
  not_root = omega arith;
  position = place;
  inside = omega arith;
  bytes = λ i. omega arith;
}

-- The entry names the cluster 9, whose chain is that cluster; 2, 5, 7 is its directory.
abbrev filed : Disk
filed b i = if b == 160 then if i == 90 then 9 else 0 else used b i

abbrev full : FileSystem
full = state new_bpb 16384 2000 empty filed (3 ∷ [])

full_place : sde_pos full third ≡ done (160, 64)
unfolding sde_pos offset first_data_sector root_dir_sector_cnt
full_place = refl

filed_byte : (i : ℕ) → filed 160 i < 256
filed_byte i = ground arith

filed_placed : IsPlaced full third 160 64
filed_placed = record {
  not_root = omega arith;
  position = full_place;
  inside = omega arith;
  bytes = filed_byte;
}

filed_end : entry 16384 filed 9 ≡ 0x0FFF_FFF8
unfolding entry read_le_u32
filed_end = refl

filed_first : first_cluster full third ≡ done 9
unfolding first_cluster read_sde sde_pos offset first_data_sector root_dir_sector_cnt new_from_bytes
    read_le_u16 read fat32_rs.Entry.Short.first_cluster
filed_first = refl

shape : IsMounted new_bpb 16384
shape = omega arith

clear-Freed_example :
    (d' : Disk) × (clear 10 full third ≡ done (1, state new_bpb 16384 2001 empty d' (3 ∷ 9 ∷ [])))
    × (read_sde (state new_bpb 16384 2001 empty d' (3 ∷ 9 ∷ [])) third
        ≡ done (delete (entry_of full third 160 64 filed_placed)))
    × All (λ x. entry 16384 d' x ≡ 0) (9 ∷ [])
    × ((x : ℕ) → x < 8192 → x ∉ (9 ∷ []) → entry 16384 d' x ≡ entry 16384 filed x)
clear-Freed_example =
    clear-Freed new_bpb 16384 shape 10 2000 empty filed (3 ∷ []) third 160 64 9 [] filed_placed
      (omega arith) refl filed_first (omega arith) (omega arith) (omega (arith, filed_end))
      (omega arith) (omega arith) (omega arith)
