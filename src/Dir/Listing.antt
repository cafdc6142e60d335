-- ===== src/Dir/Listing.antt =====
-- src/dir.rs: ls_with_attr and ls; src/vfs.rs: dir_info.
use fat32_rs.Base.{
  ℕ, zero, suc, ◌+◌, ◌==◌, ◌||◌, if◌then◌else◌, Bool, true, false, not, Option, none, some, List,
  [], ◌∷◌, ◌++◌, length, map, Outcome, done, out_of_fuel, ◌>>=◌, Result, ok, err,
}
use Prim.Native.Nat.{bit_xor}
use fat32_rs.Entry.{dirent_size, attr_long_name, last_long_entry}
use fat32_rs.Entry.Short as Short
use fat32_rs.Entry.Long as Long
use fat32_rs.Entry.Long.{LongDirEntry}
use fat32_rs.Fs.{FileSystem}
use fat32_rs.Vfs.{VirtFile, is_dir}
use fat32_rs.Vfs.Io.{read_at}
use fat32_rs.Dir.{DirError, not_dir, list_lfn_illegal, fill_lde, transmute}

module _ (walk : ℕ) (fs : FileSystem) (self : VirtFile) where
  -- `for _ in 0..order`, with the rounds left: the name, the last entry and its place, or nothing if the
  -- directory ends.
  unfoldable pub join_name :
      ℕ → List ℕ → LongDirEntry → ℕ → Outcome (Option (List ℕ × LongDirEntry × ℕ))
  unfolding Long.name
  join_name zero name entry place = done (some (name, entry, place))
  join_name (suc n) name entry place = do
    let name' = Long.name entry ++ name
    let place' = place + dirent_size
    bs ← read_at walk fs self place' dirent_size
    let entry' = fill_lde entry bs
    let rest = join_name n name' entry' place'
    if not (length bs == dirent_size) || Long.is_empty entry' then done none else rest

  -- The item of an entry that is not deleted, the last entry read and its place.
  unfoldable pub item : LongDirEntry → ℕ → Outcome (Option ((List ℕ × ℕ) × LongDirEntry × ℕ))
  unfolding join_name
  item entry place =
      if not (Long.attr entry == attr_long_name)
      then done (
          some (
            (Short.get_name_lowercase (transmute entry), Short.attr (transmute entry)),
            entry,
            place,
          ))
      else do
        joined ← join_name (bit_xor (Long.order entry) last_long_entry) [] entry place
        elim joined [ none ↦ done none | some j ↦ done (some ((j.0, Long.attr j.1), j.1, j.2)) ]

  unfoldable pub ls_loop :
      ℕ → List (List ℕ × ℕ) → LongDirEntry → ℕ → Outcome (Result (List (List ℕ × ℕ)) DirError)
  unfolding item
  ls_loop zero list entry place = out_of_fuel
  ls_loop (suc fuel) list entry place = do
    bs ← read_at walk fs self place dirent_size
    let entry' = fill_lde entry bs
    let skipped = ls_loop fuel list entry' (place + dirent_size)
    if not (length bs == dirent_size) || Long.is_empty entry'
        then done (ok list)
        else if Long.is_deleted entry'
        then skipped
        else do
          option ← item entry' place
          elim option [
            | none ↦ done (err list_lfn_illegal)
            | some i ↦ ls_loop fuel (list ++ (i.0 ∷ [])) i.1 (i.2 + dirent_size)
          ]

  unfoldable pub ls_with_attr : ℕ → Outcome (Result (List (List ℕ × ℕ)) DirError)
  unfolding ls_loop Long.empty
  ls_with_attr fuel = if not (is_dir self) then done (err not_dir) else ls_loop fuel [] Long.empty 0

  unfoldable pub ls : ℕ → Outcome (Result (List (List ℕ)) DirError)
  unfolding ls_with_attr
  ls fuel = do
    result ← ls_with_attr fuel
    elim result [ ok v ↦ done (ok (map (λ i. i.0) v)) | err e ↦ done (err e) ]

  -- (d_name, the place behind the entry, first cluster, d_type)
  unfoldable pub info_loop :
      ℕ → Bool → List ℕ → LongDirEntry → ℕ → Outcome (Option (List ℕ × ℕ × ℕ × ℕ))
  info_loop zero is_long name entry index = out_of_fuel
  info_loop (suc fuel) is_long name entry index = do
    bs ← read_at walk fs self index dirent_size
    let entry' = fill_lde entry bs
    let sde = transmute entry'
    let name' = if is_long then name else Short.get_name_lowercase sde
    let skipped = info_loop fuel false [] entry' (index + dirent_size)
    let rest = info_loop fuel true (Long.name entry' ++ name) entry' (index + dirent_size)
    if not (length bs == dirent_size) || Long.is_empty entry'
        then done none
        else if Long.is_deleted entry'
        then skipped
        else if not (Long.attr entry' == attr_long_name)
        then done (some (name', index + dirent_size, Short.first_cluster sde, Short.attr sde))
        else rest

  unfoldable pub dir_info : ℕ → ℕ → Outcome (Option (List ℕ × ℕ × ℕ × ℕ))
  unfolding info_loop Long.empty
  dir_info fuel place =
      if not (is_dir self) then done none else info_loop fuel false [] Long.empty place
