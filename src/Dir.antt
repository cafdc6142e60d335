-- ===== src/Dir.antt =====
-- src/dir.rs: directories, files of 32-byte entries. Each search runs over the entries from the front,
-- and reads one by `read_at` into the bytes of an entry that it keeps. `walk` is the fuel of `read_at`,
-- and `fuel` that of the search.
pub mod Find
pub mod Listing
pub mod Create
pub mod Slots
pub mod Place
pub mod Own
use fat32_rs.Base.{
  ℕ, zero, suc, ◌+◌, ◌==◌, ◌||◌, if◌then◌else◌, Bool, true, false, not, List, ◌++◌, drop, length,
  Outcome, done, out_of_fuel, ◌>>=◌, Result, ok, err,
}
use fat32_rs.Bytes.{of_list}
use fat32_rs.Entry.{VirtFileType, dir, file, dirent_size, attr_directory}
use fat32_rs.Entry.Short as Short
use fat32_rs.Entry.Short.{ShortDirEntry}
use fat32_rs.Entry.Long as Long
use fat32_rs.Entry.Long.{LongDirEntry}
use fat32_rs.Fs.{FileSystem}
use fat32_rs.Vfs.{VirtFile, is_dir}
use fat32_rs.Vfs.Io.{read_at}

pub data DirError : Type 0 where
  no_match_dir no_match_file no_match illegal_char dir_has_exist file_has_exist not_dir
        list_lfn_illegal create_file_error missing_name :
      DirError

-- The entry after a read into its bytes, of which the front is replaced.
unfoldable pub fill_sde : ShortDirEntry → List ℕ → ShortDirEntry
unfolding Short.as_bytes Short.new_from_bytes
fill_sde sde bs = Short.new_from_bytes (of_list (bs ++ drop (length bs) (Short.as_bytes sde)))

unfoldable pub fill_lde : LongDirEntry → List ℕ → LongDirEntry
unfolding Long.as_bytes Long.new_form_bytes
fill_lde lde bs = Long.new_form_bytes (of_list (bs ++ drop (length bs) (Long.as_bytes lde)))

-- `core::mem::transmute` of a long entry
unfoldable pub transmute : LongDirEntry → ShortDirEntry
unfolding Long.as_bytes Short.new_from_bytes
transmute lde = Short.new_from_bytes (of_list (Long.as_bytes lde))

unfoldable pub vir_file_type : VirtFile → VirtFileType
unfolding is_dir
vir_file_type self = if is_dir self then dir else file

-- The type that an entry's attribute says.
unfoldable pub type_of : ShortDirEntry → VirtFileType
unfolding Short.attr
type_of sde = if Short.attr sde == attr_directory then dir else file

module _ (walk : ℕ) (fs : FileSystem) (self : VirtFile) where
  -- The loop of `empty_entry_index`.
  unfoldable pub empty_loop : ℕ → ShortDirEntry → ℕ → Outcome ℕ
  unfolding read_at fill_sde Short.is_empty
  empty_loop zero sde index = out_of_fuel
  empty_loop (suc fuel) sde index = do
    bs ← read_at walk fs self index dirent_size
    let sde' = fill_sde sde bs
    let rest = empty_loop fuel sde' (index + dirent_size)
    if length bs == 0 || Short.is_empty sde' then done index else rest

  unfoldable pub empty_entry_index : ℕ → Outcome (Result ℕ DirError)
  unfolding empty_loop Short.empty
  empty_entry_index fuel =
      if not (is_dir self)
      then done (err not_dir)
      else (empty_loop fuel Short.empty 0 >>= λ index. done (ok index))
