-- ===== src/Dir/Own.antt =====
-- src/dir.rs: the file that a search gives has the entry of its slot.
use fat32_rs.Base.{
  ℕ, suc, ◌+◌, ◌*◌, ◌/◌, ◌%◌, ◌^◌, ◌≤◌, ◌<◌, ◌≡◌, arith, ap, ◌∙◌, refl, sym, lt→ltb, eq→==, ne→==,
  true, false, List, [], ◌∷◌, length, get_elem?, some, inr, map, done,
}
use fat32_rs.Bytes.{of_list, slice, get_or-slice}
use fat32_rs.Disk.{Disk, read-done}
use fat32_rs.Disk
use fat32_rs.Bpb.{offset}
use fat32_rs.Bpb.Geometry.{cluster_start, cluster_start-lt, offset-done}
use fat32_rs.Entry.Short as Short
use fat32_rs.Entry.Short.{ShortDirEntry, new_from_bytes}
use fat32_rs.Fat.{end_of_cluster, get_cluster_at}
use fat32_rs.Fat.Cursor as Cursor
use fat32_rs.Fat.Entries.{entry}
use fat32_rs.Fat.Walk.{walks-chain}
use fat32_rs.Fs.{FileSystem, cluster_size}
use fat32_rs.Fs.Shape.{mounted-IsAligned}
use fat32_rs.Vfs.{VirtFile, DirEntryPos, entry_pos, read_sde, sde_pos}
use fat32_rs.Vfs.Chain.{dir_entry_pos, offset_block_pos, file_cluster_chain}
use fat32_rs.Vfs.Io.Copy.{quot_bound}
use fat32_rs.Vfs.Io.ReadAt.{bytes_of}
use fat32_rs.Vfs.Io.Stored.{capacity_of}
use fat32_rs.Text.{upper}
use fat32_rs.Entry.{VirtFileType}
use fat32_rs.Dir.{type_of}
use fat32_rs.Dir.Place.{new_from_bytes_ext, get_elem?_lt, content_at, IsChain-range}
use fat32_rs.Dir.Find.{found, find_by_sfn}
use fat32_rs.Dir.Slots.{IsWalked, slot, is_match, find_by_sfn-first}

-- A place of 32 bytes in a cluster of `size` bytes is in one block.
in_block : (k m spc j : ℕ) → k * 32 ≡ m * spc * 512 + j → j < spc * 512 → j % 512 + 32 ≤ 512
in_block k m spc j e l = omega (arith, e)

module _ (walk : ℕ) (fs : FileSystem) (self : VirtFile) (c : ℕ) (cs : List ℕ)
    (w : IsWalked walk fs self c cs) (k : ℕ) (inside : k * 32 + 32 ≤ capacity_of fs (c ∷ cs)) where
  abbrev spc : ℕ
  spc = fs.bpb.basic_bpb.sec_per_clus

  abbrev size : ℕ
  size = spc * 512

  abbrev number : ℕ
  number = k * 32 / size

  abbrev rest : ℕ
  rest = k * 32 % size

  size_pos : 0 < size
  size_pos = omega (arith, w.opened.mounted.volume.cluster_pos)

  cluster_size-size : cluster_size fs ≡ size
  unfolding cluster_size
  cluster_size-size = rw w.opened.mounted.block (omega arith)

  number-lt : number < length (c ∷ cs)
  number-lt = quot_bound (k * 32) size (length (c ∷ cs)) size_pos (omega (arith, inside))

  rest-lt : rest < size
  rest-lt = grind (arith, size_pos)

  place_split : k * 32 ≡ number * size + rest
  place_split = grind (arith, size_pos)

  small_rest : rest < 2 ^ 17
  small_rest = omega (arith, rest-lt, w.opened.mounted.volume.cluster)

  in_one : rest % 512 + 32 ≤ 512
  in_one = in_block k number spc rest (place_split ∙ ap (λ z. z + rest) (grind arith)) rest-lt

  module _ (x : ℕ) (got : get_elem? (c ∷ cs) number ≡ some x) where
    in_range : (2 ≤ x) × (x < end_of_cluster)
    in_range =
        IsChain-range (entry fs.fat.fat1_offset fs.disk) c cs number x w.opened.chain w.opened.low
          w.number got

    walked_to : get_cluster_at fs.fat fs.disk c (number % 2 ^ 32) ≡ done (some x)
    walked_to =
        let small : number % 2 ^ 32 ≡ number = omega (arith, number-lt, w.small) in
        let (all, len, tail, nth) =
          walks-chain fs.fat (mounted-IsAligned w.opened.mounted) fs.disk (suc (length cs)) c cs
            (omega arith) (omega (arith, w.small)) w.opened.low w.number w.opened.chain in
        ap (get_cluster_at fs.fat fs.disk c) small ∙ nth number ∙ ap done got

    abbrev block : ℕ
    block = cluster_start fs.bpb x + rest / 512

    start-lt : cluster_start fs.bpb x < 2 ^ 43
    start-lt = cluster_start-lt w.opened.mounted.volume x (omega (arith, in_range.1))

    placed : offset fs.bpb x ≡ done (cluster_start fs.bpb x * 512)
    placed =
        offset-done w.opened.mounted.volume x in_range.0
        ∙ ap (λ z. done (cluster_start fs.bpb x * z)) w.opened.mounted.block

    abbrev pos : DirEntryPos
    pos = record { cluster = x; offset_in_cluster = rest }

    dir_entry_pos_run : dir_entry_pos fs self (k * 32) ≡ done (some pos)
    unfolding dir_entry_pos
    dir_entry_pos_run =
        rw (cluster_size-size, ne→== size 0 (omega (arith, size_pos)), w.opened.first, walked_to)
          refl

    offset_block_pos_run : offset_block_pos fs self (k * 32) ≡ done (some (block, rest % 512))
    unfolding offset_block_pos
    offset_block_pos_run =
        rw
          (
            cluster_size-size,
            ne→== size 0 (omega (arith, size_pos)),
            w.opened.first,
            walked_to,
            placed,
            eq→== (cluster_start fs.bpb x * 512 % 512) 0 (omega arith),
          )
          (ap (λ z. done (some (z, rest % 512))) (omega (arith, start-lt, small_rest)))

    abbrev stored : ShortDirEntry
    stored = new_from_bytes (λ i. fs.disk block (rest % 512 + i))

    read_stored :
        Disk.read fs.disk block 32 (rest % 512) ≡ done (λ i. fs.disk block (rest % 512 + i))
    read_stored = read-done fs.disk block 32 (rest % 512) in_one

    chain_run :
        file_cluster_chain fs self (k * 32)
        ≡ done (Cursor.new (Short.first_cluster stored) fs.fat.fat1_offset)
    unfolding file_cluster_chain
    chain_run = rw (offset_block_pos_run, read_stored) refl

    entry_pos_run : entry_pos fs pos ≡ done (block, rest % 512)
    unfolding entry_pos
    entry_pos_run =
        rw (lt→ltb x end_of_cluster in_range.1, placed)
          (ap (λ z. done (z, (rest + cluster_start fs.bpb x * 512) % 2 ^ 64 % 512))
              (omega (arith, start-lt, small_rest))
            ∙ ap (λ z. done (block, z)) (omega (arith, start-lt, small_rest)))

    slot_byte :
        (i : ℕ)
        → i < 32
        → fs.disk block (rest % 512 + i) ≡ of_list (slice (bytes_of fs (c ∷ cs)) (k * 32) 32) i
    slot_byte i l =
        let there : k * 32 + i ≡ number * size + (rest + i) = omega (arith, place_split) in
        let same_block : (rest + i) / 512 ≡ rest / 512 = omega (arith, in_one, l) in
        let same_place : (rest + i) % 512 ≡ rest % 512 + i = omega (arith, in_one, l) in
        sym (
          get_or-slice (bytes_of fs (c ∷ cs)) (k * 32) 32 i l
          ∙ ap (bytes_of fs (c ∷ cs)) there
          ∙ content_at (cluster_start fs.bpb) spc fs.disk (c ∷ cs) number x (rest + i) got
              (omega (arith, rest-lt, in_one, l))
          ∙ ap (λ z. fs.disk (cluster_start fs.bpb x + z) ((rest + i) % 512)) same_block
          ∙ ap (fs.disk block) same_place)

    stored-slot : stored ≡ slot (bytes_of fs (c ∷ cs)) k
    stored-slot = new_from_bytes_ext _ _ slot_byte

    abbrev own : List ℕ → List DirEntryPos → VirtFileType → VirtFile
    own name lde_pos attr = record {
      name = name;
      sde_pos = pos;
      lde_pos = lde_pos;
      cluster_chain = Cursor.new (Short.first_cluster stored) fs.fat.fat1_offset;
      attr = attr;
    }

    found_run :
        (name : List ℕ) (lde_pos : List DirEntryPos) (sde : ShortDirEntry)
        → found walk fs self name lde_pos sde (k * 32) ≡ done (own name lde_pos (type_of sde))
    unfolding found
    found_run name lde_pos sde = rw (dir_entry_pos_run, chain_run) refl

    own_entry :
        (name : List ℕ) (lde_pos : List DirEntryPos) (attr : VirtFileType)
        → read_sde fs (own name lde_pos attr) ≡ done stored
    unfolding read_sde sde_pos
    own_entry name lde_pos attr =
        rw (ne→== x 0 (λ e. absurd (omega (arith, in_range.0, e))), entry_pos_run, read_stored) refl

  -- A file with the entry of the slot: the one that is read for it, and whose clusters its cursor walks.
  pub record IsOwn (name : List ℕ) (f : VirtFile) : Type 0 where
    pub named : f.name ≡ name
    pub entry : read_sde fs f ≡ done (slot (bytes_of fs (c ∷ cs)) k)
    pub clusters :
        f.cluster_chain
        ≡ Cursor.new (Short.first_cluster (slot (bytes_of fs (c ∷ cs)) k)) fs.fat.fat1_offset
    pub attr : f.attr ≡ type_of (slot (bytes_of fs (c ∷ cs)) k)
    pub no_long : f.lde_pos ≡ []

  found-IsOwn :
      (name : List ℕ)
      → (f : VirtFile) × (found walk fs self name [] (slot (bytes_of fs (c ∷ cs)) k) (k * 32)
          ≡ done f)
        × IsOwn name f
  found-IsOwn name =
      let (x, got) = get_elem?_lt (c ∷ cs) number number-lt in
      let sde = slot (bytes_of fs (c ∷ cs)) k in
      (
        own x got name [] (type_of sde),
        found_run x got name [] sde,
        record {
          named = refl;
          entry = own_entry x got name [] (type_of sde) ∙ ap done (stored-slot x got);
          clusters =
              ap (λ z. Cursor.new (Short.first_cluster z) fs.fat.fat1_offset) (stored-slot x got);
          attr = refl;
          no_long = refl;
        },
      )

  -- In a directory whose clusters are a chain of the table, with fuel for the slots, where slot `k` is the
  -- first one that is not deleted and has the name in upper case, `find_by_sfn` returns a file with that
  -- name, for which the entry in slot `k` is read from the disk, with a cursor before its clusters.
  pub find_by_sfn-IsOwn :
      (name : List ℕ) (fuel : ℕ)
      → k < fuel
      → ((j : ℕ) → j < k → is_match walk fs self c cs w (map upper name) j ≡ false)
      → is_match walk fs self c cs w (map upper name) k ≡ true
      → (f : VirtFile) × (find_by_sfn walk fs self fuel name ≡ done (some f))
        × IsOwn (map upper name) f
  find_by_sfn-IsOwn name fuel l other hit =
      let (f, ran, own_f) = found-IsOwn (map upper name) in
      (
        f,
        find_by_sfn-first walk fs self c cs w name fuel k l (omega (arith, inside)) other
              (inr (inside, hit))
            ∙ rw (ne→== (k * 32) (capacity_of fs (c ∷ cs)) (omega (arith, inside)), ran) refl,
        own_f,
      )
