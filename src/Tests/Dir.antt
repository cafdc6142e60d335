-- ===== src/Tests/Dir.antt =====
-- A directory of src/dir.rs on the clusters 5 and 7, whose first two slots name `B` and `A`.
use fat32_rs.Base.{
  ℕ, some, ◌+◌, ◌≤◌, ◌<◌, ◌≡◌, ◌≢◌, ◌∙◌, ap, sym, inr, refl, arith, [], ◌∷◌, done, true, false,
  ◌==◌, ltb, ◌%◌, if◌then◌else◌, ok, ◌*◌,
}
use native.Mathlib.Decide.{dec_lt}
use fat32_rs.Bpb.{offset, first_data_sector, root_dir_sector_cnt}
use fat32_rs.Bytes.{slice, read_le_u16, read_le_u32}
use fat32_rs.Disk.{Disk}
use fat32_rs.Disk
use fat32_rs.Entry.{dir}
use fat32_rs.Entry.Short.{empty, new_from_bytes}
use fat32_rs.Entry.Short as Short
use fat32_rs.Fat.Entries.{entry}
use fat32_rs.Fs.{FileSystem, new_bpb}
use fat32_rs.Fs.Alloc.Step.{state}
use fat32_rs.Text.{upper}
use fat32_rs.Vfs.{VirtFile, is_dir, sde_pos, read_sde, first_cluster}
use fat32_rs.Vfs.Io.Walk.{IsOpen}
use fat32_rs.Vfs.Io.Copy.{content}
use fat32_rs.Vfs.Io.ReadAt.{bytes_of}
use fat32_rs.Dir.{empty_entry_index}
use fat32_rs.Dir.Find.{find_by_sfn}
use fat32_rs.Dir.Slots.{IsWalked, is_match, answer, empty_entry_index-first, find_by_sfn-first}
use fat32_rs.Dir.Own.{IsOwn, find_by_sfn-IsOwn}
use fat32_rs.Vfs.Io.Stored.{capacity_of}
use fat32_rs.Tests.Io.{held, fifth}

abbrev pub listed : Disk
listed b i =
    if b == 184
    then (if i == 0
        then 66
        else if i == 32
        then 65
        else if ltb i 43
        then (if ltb (i % 32) 11 then 32 else 0)
        else 0)
    else held b i

abbrev pub volume : FileSystem
volume = state new_bpb 16384 2000 empty listed []

abbrev folder : VirtFile
folder = record fifth { attr = dir }

first : first_cluster volume folder ≡ done 5
unfolding first_cluster read_sde sde_pos offset first_data_sector root_dir_sector_cnt new_from_bytes
    read_le_u16 Disk.read Short.first_cluster
first = refl

link_5 : entry 16384 listed 5 ≡ 7
unfolding entry read_le_u32
link_5 = refl

link_7 : 0x0FFF_FFF8 ≤ entry 16384 listed 7
unfolding entry read_le_u32
link_7 = omega arith

opened : IsOpen volume folder 5 (7 ∷ [])
opened = record {
  mounted = omega arith;
  table = refl;
  fresh = refl;
  start = refl;
  first = first;
  low = omega arith;
  chain = (link_5, omega arith, omega arith, link_7);
}

walked : IsWalked 3 volume folder 5 (7 ∷ [])
unfolding is_dir
walked = record {
  opened = opened;
  directory = refl;
  fuel = omega arith;
  small = omega arith;
  number = omega arith;
}

byte_0 : bytes_of volume (5 ∷ 7 ∷ []) 0 ≡ 66
unfolding content
byte_0 = refl

byte_32 : bytes_of volume (5 ∷ 7 ∷ []) 32 ≡ 65
unfolding content
byte_32 = refl

byte_64 : bytes_of volume (5 ∷ 7 ∷ []) 64 ≡ 0
unfolding content
byte_64 = refl

used_slots : (j : ℕ) → j < 2 → bytes_of volume (5 ∷ 7 ∷ []) (j * 32) ≢ 0
used_slots j l = elim (dec_lt j 1) [
  | yes a ↦
      let e : j * 32 ≡ 0 = omega arith in
      λ z. absurd (omega (arith, sym z ∙ ap (bytes_of volume (5 ∷ 7 ∷ [])) e ∙ byte_0))
  | no b ↦
      let e : j * 32 ≡ 32 = omega arith in
      λ z. absurd (omega (arith, sym z ∙ ap (bytes_of volume (5 ∷ 7 ∷ [])) e ∙ byte_32))
]

empty_entry_index-first_example : empty_entry_index 3 volume folder 3 ≡ done (ok 64)
empty_entry_index-first_example =
    empty_entry_index-first 3 volume folder 5 (7 ∷ []) walked 3 2 (omega arith) (omega arith)
      used_slots (inr (omega arith, byte_64))

other : is_match 3 volume folder 5 (7 ∷ []) walked (b'A' ∷ []) 0 ≡ false
unfolding slice new_from_bytes Short.is_deleted Short.get_name_uppercase content
other = refl

match : is_match 3 volume folder 5 (7 ∷ []) walked (b'A' ∷ []) 1 ≡ true
unfolding slice new_from_bytes Short.is_deleted Short.get_name_uppercase content
match = refl

find_by_sfn-first_example :
    find_by_sfn 3 volume folder 2 (b'a' ∷ [])
    ≡ answer 3 volume folder 5 (7 ∷ []) walked (b'A' ∷ []) 1
unfolding upper
find_by_sfn-first_example =
    find_by_sfn-first 3 volume folder 5 (7 ∷ []) walked (b'a' ∷ []) 2 1 (omega arith) (omega arith)
      (λ j l.
        let e : j ≡ 0 = omega arith in
        ap (is_match 3 volume folder 5 (7 ∷ []) walked (b'A' ∷ [])) e ∙ other)
      (inr (omega arith, match))

one_inside : 1 * 32 + 32 ≤ capacity_of volume (5 ∷ 7 ∷ [])
one_inside = omega arith

find_by_sfn-IsOwn_example :
    (f : VirtFile) × (find_by_sfn 3 volume folder 2 (b'a' ∷ []) ≡ done (some f))
    × IsOwn 3 volume folder 5 (7 ∷ []) walked 1 one_inside (b'A' ∷ []) f
unfolding upper
find_by_sfn-IsOwn_example =
    find_by_sfn-IsOwn 3 volume folder 5 (7 ∷ []) walked 1 one_inside (b'a' ∷ []) 2 (omega arith)
      (λ j l.
        let e : j ≡ 0 = omega arith in
        ap (is_match 3 volume folder 5 (7 ∷ []) walked (b'A' ∷ [])) e ∙ other)
      match
