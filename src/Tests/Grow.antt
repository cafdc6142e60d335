-- ===== src/Tests/Grow.antt =====
-- A file of src/vfs.rs that takes a third cluster.
use fat32_rs.Vfs.Grow.Room.{write_at-HasRoom}
use fat32_rs.File.Room.{write-HasRoom}
use fat32_rs.File.{append}
use fat32_rs.Bytes.{patch}
use fat32_rs.Vfs.Io.ReadAt.{bytes_of}
use fat32_rs.Vfs.Io.Walk.{IsOpen}
use fat32_rs.Vfs.Io.Stored.{IsStored}
use fat32_rs.Base.{◌++◌, inr, ◌⊎◌}
use fat32_rs.Base.{ℕ, ◌+◌, ◌≤◌, ◌≡◌, inl, refl, arith, ap, sym, [], ◌∷◌, done, List}
use native.Mathlib.Decide.{dec_lt}
use fat32_rs.Base.{suc, ◌<◌, ◌^◌, ok}
use fat32_rs.File as File
use fat32_rs.File.{over_written, write}
use fat32_rs.File.Start.{read-write-IsStarted}
use fat32_rs.Bytes.{read_le_u32}
use fat32_rs.Disk.{read}
use fat32_rs.Entry.Short.{empty}
use fat32_rs.Fat.{cluster_chain_len, get_next_cluster}
use fat32_rs.Fat.Entries.{entry}
use fat32_rs.Bpb.Geometry.{data_start}
use fat32_rs.Fs.{FileSystem, new_bpb, count_needed_clusters, cluster_size}
use fat32_rs.Fs.Pool.{Pool, free_count}
use fat32_rs.Fs.Alloc.Step.{Outside}
use fat32_rs.Vfs.Io.{read_at, write_at}
use fat32_rs.Vfs.Grow.{IsReady, IsGrown, incerase_size-IsGrown, read_at-write_at-IsGrown}
use fat32_rs.Vfs.Io.Stored.{capacity_of}
use fat32_rs.Bytes.{read_le_u16, slice}
use fat32_rs.Bpb.{offset, first_data_sector, root_dir_sector_cnt}
use fat32_rs.Entry.Short as Short
use fat32_rs.Entry.Short.{new_from_bytes}
use fat32_rs.Fs.Shape.{IsMounted}
use fat32_rs.Vfs.{VirtFile, sde_pos, read_sde, first_cluster, file_size}
use fat32_rs.Vfs.Fields.{IsPlaced}
use fat32_rs.Vfs.Grow.Start.{IsStartable, read_at-write_at-IsStarted}
use fat32_rs.Tests.Fat.{used}
use fat32_rs.Tests.Vfs.{mounted, third}
use fat32_rs.Tests.Io.{held, volume, fifth, stored, size, word}

entries :
    (entry 16384 held 0 ≡ 0x0FFF_FFF8)
    × (entry 16384 held 1 ≡ 0x0FFF_FFF8)
    × (entry 16384 held 2 ≡ 5)
    × (entry 16384 held 5 ≡ 7)
unfolding entry read_le_u32
entries = (refl, refl, refl, refl)

two_free : free_count (entry 16384 held) 6 3 ≡ 2
unfolding free_count entry read_le_u32
two_free = refl

pool : Pool 8192 (entry 16384 held) [] 5 6 3 1
pool = record {
  zero_reserved = omega (arith, entries);
  one_reserved = omega (arith, entries);
  queue = tt;
  distinct = tt;
  apart = omega arith;
  below = omega arith;
  top = omega arith;
  small = omega arith;
  enough = omega (arith, two_free);
}

needed : count_needed_clusters 8192 volume 8195 5 ≡ done 1
unfolding count_needed_clusters cluster_size cluster_chain_len get_next_cluster read_le_u32 read
needed = refl

-- The entry's block is in the cluster 2, which is in use.
away : (x : ℕ) → entry 16384 held x ≡ 0 → 2 ≤ x → Outside new_bpb 160 x
away x e h = elim (dec_lt 2 x) [
  | yes l ↦ inl (omega arith)
  | no n ↦
      let two : x ≡ 2 = omega arith in
      absurd (omega (arith, entries, ap (entry 16384 held) (sym two), e))
]

low : data_start new_bpb ≤ 160
low = omega arith

ready :
    IsReady new_bpb 16384 2000 empty held [] fifth 5
      (7 ∷ [])
      160
      64
      stored
      low
      away
      8192
      8195
      8192
      0
      6
      3
ready = record {
  is_file = refl;
  known = size;
  larger = omega arith;
  small = omega arith;
  needed = needed;
  pool = pool;
  counted = omega arith;
  fuel_table = omega arith;
  fuel_chain = omega arith;
  short = omega arith;
  number = omega arith;
}

incerase_size-IsGrown_example :
    (ds : List ℕ) × (fs' : FileSystem) × IsGrown new_bpb 16384 2000 empty held [] fifth 5
      (7 ∷ [])
      160
      64
      stored
      low
      away
      8192
      8195
      0
      ds
      fs'
incerase_size-IsGrown_example =
    incerase_size-IsGrown new_bpb 16384 2000 empty held [] fifth 5 (7 ∷ []) 160 64 stored low away
      8192 8195 8192 0 6 3 ready

-- The word is written behind the end of the file.
read_at-write_at-IsGrown_example :
    (fs' : FileSystem) × (write_at 8192 volume fifth 8192 word ≡ done (3, fs', fifth))
    × (read_at 8192 fs' fifth 8192 3 ≡ done word)
    × ((p t : ℕ)
        → p + t ≤ capacity_of volume (5 ∷ 7 ∷ [])
        → p + t ≤ 8192
        → read_at 8192 fs' fifth p t ≡ read_at 8192 volume fifth p t)
read_at-write_at-IsGrown_example =
    read_at-write_at-IsGrown new_bpb 16384 2000 empty held [] fifth 5 (7 ∷ []) 160 64 stored low
      away 8192 8192 8192 0 6 3 word (omega arith) ready (omega arith)

-- The entry of the third slot has neither clusters nor a size.
empty_place : sde_pos mounted third ≡ done (160, 64)
unfolding sde_pos offset first_data_sector root_dir_sector_cnt
empty_place = refl

empty_placed : IsPlaced mounted third 160 64
empty_placed = record {
  not_root = omega arith;
  position = empty_place;
  inside = omega arith;
  bytes = λ i. omega arith;
}

empty_first : first_cluster mounted third ≡ done 0
unfolding first_cluster read_sde sde_pos offset first_data_sector root_dir_sector_cnt new_from_bytes
    read_le_u16 read Short.first_cluster
empty_first = refl

empty_size : file_size mounted third ≡ done 0
unfolding file_size read_sde sde_pos offset first_data_sector root_dir_sector_cnt new_from_bytes
    read_le_u32 read Short.file_size
empty_size = refl

used_entries :
    (entry 16384 used 0 ≡ 0x0FFF_FFF8)
    × (entry 16384 used 1 ≡ 0x0FFF_FFF8)
    × (entry 16384 used 2 ≡ 5)
unfolding entry read_le_u32
used_entries = (refl, refl, refl)

two_free_used : free_count (entry 16384 used) 3 2 ≡ 2
unfolding free_count entry read_le_u32
two_free_used = refl

used_away : (x : ℕ) → entry 16384 used x ≡ 0 → 2 ≤ x → Outside new_bpb 160 x
used_away x e h = elim (dec_lt 2 x) [
  | yes l ↦ inl (omega arith)
  | no n ↦
      let two : x ≡ 2 = omega arith in
      absurd (omega (arith, used_entries, ap (entry 16384 used) (sym two), e))
]

needed_first : count_needed_clusters 8192 mounted 5003 0 ≡ done 2
unfolding count_needed_clusters cluster_size
needed_first = refl

is_mounted : IsMounted new_bpb 16384
is_mounted = omega arith

used-Pool : (n : ℕ) → n ≤ 2 → Pool 8192 (entry 16384 used) [] 0 3 2 n
used-Pool n h = record {
  zero_reserved = omega (arith, used_entries);
  one_reserved = omega (arith, used_entries);
  queue = tt;
  distinct = tt;
  apart = omega arith;
  below = omega arith;
  top = omega arith;
  small = omega arith;
  enough = omega (arith, two_free_used);
}

startable :
    (new_size n : ℕ)
    → 0 < new_size
    → new_size < 2 ^ 32
    → n ≤ 1
    → count_needed_clusters 8192 mounted new_size 0 ≡ done (suc n)
    → IsStartable new_bpb 16384 2000 empty used [] is_mounted third 160 64 empty_placed refl low
        used_away 8192 new_size 0 n 3 2
startable new_size n larger small h needed' = record {
  is_file = refl;
  empty = empty_first;
  known = empty_size;
  larger = larger;
  small = small;
  needed = needed';
  pool = used-Pool (suc n) (omega arith);
  counted = omega arith;
  fuel_table = omega arith;
}

-- The word is written to the second cluster of an empty file.
read_at-write_at-IsStarted_example :
    (fs' : FileSystem) × (self' : VirtFile) × (write_at 8192 mounted third 5000 word
      ≡ done (3, fs', self'))
    × (read_at 8192 fs' self' 5000 3 ≡ done word)
    × ((p t : ℕ) → p + t ≤ 5000 → read_at 8192 fs' self' p t ≡ done (slice (λ i. 0) p t))
read_at-write_at-IsStarted_example =
    read_at-write_at-IsStarted new_bpb 16384 2000 empty used [] is_mounted third 160 64 empty_placed
      refl low used_away 8192 5000 0 1 3 2 word (omega arith)
      (startable 5003 1 (omega arith) (omega arith) (omega arith) needed_first) (omega arith)

needed_word : count_needed_clusters 8192 mounted 3 0 ≡ done 1
unfolding count_needed_clusters cluster_size
needed_word = refl

read-write-IsStarted_example :
    (fs' : FileSystem) × (self' : VirtFile) × (write 8192 mounted third word over_written
      ≡ done (ok 3, fs', self'))
    × (File.read 8192 fs' self' 10 ≡ done (ok (3, word)))
read-write-IsStarted_example =
    read-write-IsStarted new_bpb 16384 2000 empty used [] is_mounted third 160 64 empty_placed refl
      low used_away 8192 0 0 3 2 10 word (omega arith)
      (startable 3 0 (omega arith) (omega arith) (omega arith) needed_word) (omega arith)
      (omega arith)

abbrev two_clusters : ℕ → ℕ
two_clusters i = bytes_of volume (5 ∷ 7 ∷ []) i

-- In place, across the border of the two clusters.
write_at-HasRoom_example :
    (ds : List ℕ) × (fs' : FileSystem) × (write_at 8192 volume fifth 4095 word
      ≡ done (3, fs', fifth))
    × IsStored fs' fifth 5 (7 ∷ [] ++ ds) 160 64
    × (file_size fs' fifth ≡ done 8192)
    × ((i : ℕ)
        → (i < 8192) ⊎ ((4095 ≤ i) × (i < 4098))
        → bytes_of fs' (5 ∷ (7 ∷ [] ++ ds)) i ≡ patch two_clusters 4095 word i)
write_at-HasRoom_example =
    write_at-HasRoom new_bpb 16384 2000 empty held [] fifth 5 (7 ∷ []) 160 64 stored low away 8192
      4095 8192 word (omega arith)
      (record {
        is_file = refl;
        known = size;
        small = omega arith;
        fuel_chain = omega arith;
        short = omega arith;
        number = omega arith;
        room = inl (omega arith);
      })

-- The word is appended, in a third cluster.
write-HasRoom_example :
    (ds : List ℕ) × (fs' : FileSystem) × (write 8192 volume fifth word append
      ≡ done (ok 3, fs', fifth))
    × (file_size fs' fifth ≡ done 8195)
    × IsOpen fs' fifth 5 (7 ∷ [] ++ ds)
    × ((p t : ℕ)
        → (p + t ≤ 8192) ⊎ (p + t ≤ 8195)
        → read_at 8192 fs' fifth p t ≡ done (slice (patch two_clusters 8192 word) p t))
write-HasRoom_example =
    write-HasRoom new_bpb 16384 2000 empty held [] fifth 5 (7 ∷ []) 160 64 stored low away 8192 8192
      word append (omega arith) (omega arith)
      (record {
        is_file = refl;
        known = size;
        small = omega arith;
        fuel_chain = omega arith;
        short = omega arith;
        number = omega arith;
        room = inr (0, 6, 3, ready, omega arith);
      })
