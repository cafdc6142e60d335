-- ===== src/Dir/Find.antt =====
-- src/dir.rs: find_by_sfn, find_by_lfn, find_by_name and find.
use fat32_rs.Base.{
  ℕ, zero, suc, ◌+◌, ◌-◌, ◌*◌, ◌/◌, ◌%◌, ◌^◌, ltb, ◌==◌, ◌&&◌, ◌||◌, if◌then◌else◌, Bool, true,
  false, not, Option, none, some, List, [], ◌∷◌, length, get_elem?, map, list_eq, Outcome, done,
  out_of_fuel, guard, unwrap, ◌>>=◌, ◌>>◌, Result, ok, err,
}
use Prim.Native.Nat.{bit_xor}
use fat32_rs.Entry.{dirent_size, attr_long_name, dir_entry_unused, last_long_entry}
use fat32_rs.Entry.Short as Short
use fat32_rs.Entry.Short.{ShortDirEntry}
use fat32_rs.Entry.Long as Long
use fat32_rs.Entry.Long.{LongDirEntry}
use fat32_rs.Fs.{FileSystem}
use fat32_rs.Names.{split_name_ext, long_name_split}
use fat32_rs.Text.{upper, as_bytes}
use fat32_rs.Vfs.{VirtFile, DirEntryPos, is_dir}
use fat32_rs.Vfs.Chain.{dir_entry_pos, file_cluster_chain}
use fat32_rs.Vfs.Io.{read_at}
use fat32_rs.Dir.{DirError, no_match, fill_sde, fill_lde, type_of}

-- Whether a name gets long entries made of all its pieces: its parts are longer than a short entry.
unfoldable pub is_long : List ℕ → Bool
unfolding split_name_ext as_bytes
is_long name =
    let (name_, ext_) = split_name_ext name in
    ltb 8 (length (as_bytes name_)) || ltb 3 (length (as_bytes ext_))

module _ (walk : ℕ) (fs : FileSystem) (self : VirtFile) where
  -- The file whose short entry is at a place of the directory.
  unfoldable pub found : List ℕ → List DirEntryPos → ShortDirEntry → ℕ → Outcome VirtFile
  unfolding type_of
  found name lde_pos sde place = do
    option ← dir_entry_pos fs self place
    sde_pos ← unwrap option
    clus_chain ← file_cluster_chain fs self place
    done (record {
      name = name;
      sde_pos = sde_pos;
      lde_pos = lde_pos;
      cluster_chain = clus_chain;
      attr = type_of sde;
    })

  unfoldable pub sfn_loop : List ℕ → ℕ → ShortDirEntry → ℕ → Outcome (Option VirtFile)
  unfolding found
  sfn_loop name zero sde index = out_of_fuel
  sfn_loop name (suc fuel) sde index = do
    bs ← read_at walk fs self index dirent_size
    let sde' = fill_sde sde bs
    let rest = sfn_loop name fuel sde' (index + dirent_size)
    if not (length bs == dirent_size)
        then done none
        else if not (Short.is_deleted sde') && list_eq name (Short.get_name_uppercase sde')
        then (found name [] sde' index >>= λ f. done (some f))
        else rest

  unfoldable pub find_by_sfn : ℕ → List ℕ → Outcome (Option VirtFile)
  unfolding sfn_loop upper
  find_by_sfn fuel name = sfn_loop (map upper name) fuel Short.empty 0

  -- `for i in 1..order`, with the rounds left: whether the pieces match, and the entry read last; nothing
  -- if the directory ends.
  unfoldable pub match_pieces :
      List (List ℕ) → ℕ → ℕ → ℕ → LongDirEntry → Outcome (Option (Bool × LongDirEntry))
  match_pieces name_vec index i zero lde = done (some (true, lde))
  match_pieces name_vec index i (suc n) lde = do
    bs ← read_at walk fs self (index + i * dirent_size) dirent_size
    let lde' = fill_lde lde bs
    let rest = match_pieces name_vec index (i + 1) n lde'
    if not (length bs == dirent_size) then done none else do
      piece ← unwrap (get_elem? name_vec (length name_vec - 1 - i))
      if not (list_eq (Long.name_utf16 lde') piece) || not (Long.attr lde' == attr_long_name)
          then done (some (false, lde'))
          else rest

  -- `for i in 0..order`, with the rounds left: the places of the long entries.
  unfoldable pub lde_places : ℕ → ℕ → Outcome (List DirEntryPos)
  lde_places place zero = done []
  lde_places place (suc n) = do
    option ← dir_entry_pos fs self place
    pos ← unwrap option
    rest ← lde_places (place + dirent_size) n
    done (pos ∷ rest)

  -- What is done when all pieces have matched: the answer of the search, or nothing to go on.
  unfoldable pub check_sde : List ℕ → ℕ → ℕ → LongDirEntry → Outcome (Option (Option VirtFile))
  unfolding found lde_places
  check_sde name name_cnt index lde = do
    let sde_offset = index + name_cnt * dirent_size
    bs ← read_at walk fs self sde_offset dirent_size
    let sde = fill_sde Short.empty bs
    if not (length bs == dirent_size)
        then done (some none)
        else if not (Short.is_deleted sde) && Long.check_sum lde == Short.gen_check_sum sde
        then (lde_places index name_cnt >>= λ lde_pos.
            found name lde_pos sde sde_offset >>= λ f. done (some (some f)))
        else done none

  -- An entry with the last piece of the name: the answer, or nothing to go on; and the entry read last.
  unfoldable pub match_name :
      List ℕ → List (List ℕ) → ℕ → LongDirEntry → Outcome (Option (Option VirtFile) × LongDirEntry)
  unfolding match_pieces check_sde
  match_name name name_vec index lde =
      let order = bit_xor (Long.order lde) last_long_entry in
      if Long.order lde / 2 ^ 6 % 2 == 0
        || Long.order lde == dir_entry_unused
        || not (order == length name_vec)
      then done (none, lde)
      else do
        matched ← match_pieces name_vec index 1 (order - 1) lde
        elim matched [
          | none ↦ done (some none, lde)
          | some m ↦
              if m.0
              then (check_sde name order index m.1 >>= λ answer. done (answer, m.1))
              else done (none, m.1)
        ]

  unfoldable pub lfn_loop :
      List ℕ → List (List ℕ) → List ℕ → ℕ → LongDirEntry → ℕ → Outcome (Option VirtFile)
  unfolding match_name
  lfn_loop name name_vec name_last zero lde index = out_of_fuel
  lfn_loop name name_vec name_last (suc fuel) lde index = do
    bs ← read_at walk fs self index dirent_size
    let lde' = fill_lde lde bs
    if not (length bs == dirent_size) then done none else do
      (answer, lde'') ←
          (if Long.attr lde' == attr_long_name && list_eq (Long.name_utf16 lde') name_last
            then match_name name name_vec index lde'
            else done (none, lde'))
      let rest = lfn_loop name name_vec name_last fuel lde'' (index + dirent_size)
      elim answer [ none ↦ rest | some result ↦ done result ]

  unfoldable pub find_by_lfn : ℕ → List ℕ → Outcome (Option VirtFile)
  unfolding lfn_loop long_name_split Long.empty
  find_by_lfn fuel name = do
    let name_vec = long_name_split name
    name_last ← unwrap (get_elem? name_vec (length name_vec - 1))
    lfn_loop name name_vec name_last fuel Long.empty 0

  unfoldable pub find_by_name : ℕ → List ℕ → Outcome (Option VirtFile)
  unfolding find_by_sfn find_by_lfn is_long
  find_by_name fuel name = do
    guard (is_dir self)
    if is_long name then find_by_lfn fuel name else find_by_sfn fuel name

-- `for i in 0..len`
unfoldable pub find :
    ℕ → ℕ → FileSystem → VirtFile → List (List ℕ) → Outcome (Result VirtFile DirError)
unfolding find_by_name
find walk fuel fs current [] = done (ok current)
find walk fuel fs current (part ∷ path) =
    let skipped = find walk fuel fs current path in
    if list_eq part [] || list_eq part (b'.' ∷ []) then skipped else do
      option ← find_by_name walk fs current fuel part
      elim option [ none ↦ done (err no_match) | some vfile ↦ find walk fuel fs vfile path ]
