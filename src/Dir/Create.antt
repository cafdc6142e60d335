-- ===== src/Dir/Create.antt =====
-- src/dir.rs: create and remove.
use fat32_rs.Base.{
  ℕ, ◌+◌, ◌%◌, ◌^◌, leb, ◌==◌, if◌then◌else◌, Bool, true, false, none, some, List, [], ◌∷◌, length,
  get_elem?, reverse, Outcome, done, guard, unwrap, ◌>>=◌, ◌>>◌, Result, ok, err,
}
use Prim.Native.Nat.{bit_or}
use fat32_rs.Entry.{VirtFileType, dir, file, dirent_size}
use fat32_rs.Entry.Short as Short
use fat32_rs.Entry.Short.{ShortDirEntry}
use fat32_rs.Entry.Long as Long
use fat32_rs.Fat.{new_vir_file_cluster}
use fat32_rs.Fs.{FileSystem}
use fat32_rs.Names.{long_name_split, short_name_format, generate_short_name}
use fat32_rs.Vfs.{VirtFile, is_dir, first_cluster}
use fat32_rs.Vfs.Chain.{clear}
use fat32_rs.Vfs.Io.{write_at}
use fat32_rs.Dir.{DirError, file_has_exist, create_file_error, vir_file_type, empty_entry_index}
use fat32_rs.Dir.Find.{is_long, find_by_name, find}

-- `ALL_UPPER_CASE`
abbrev pub all_upper_case : ℕ
all_upper_case = 0x00

abbrev pub type_eq : VirtFileType → VirtFileType → Bool
type_eq dir dir = true
type_eq dir file = false
type_eq file dir = false
type_eq file file = true

-- The 32 bytes of an entry, all written.
unfoldable pub put_entry : ℕ → FileSystem → VirtFile → ℕ → List ℕ → Outcome (FileSystem × VirtFile)
unfolding write_at
put_entry walk fs self place bs = do
  (write_size, fs', self') ← write_at walk fs self place bs
  guard (write_size == dirent_size)
  done (fs', self')

-- The short entry of a new file: its name, shortened if it is long.
unfoldable pub new_sde : List ℕ → VirtFileType → Outcome ShortDirEntry
unfolding is_long generate_short_name short_name_format Short.new Short.set_name_case
new_sde name file_type = do
  short_name ← (if is_long name then generate_short_name name else done name)
  let (name_, ext_) = short_name_format short_name
  sde ← Short.new new_vir_file_cluster name_ ext_ file_type
  done (Short.set_name_case sde all_upper_case)

-- `for i in 0..lfn_cnt`: the pieces left, the last first; the order of the first is marked. The place
-- behind the long entries.
unfoldable pub put_ldes :
    ℕ
    → FileSystem
    → VirtFile
    → ShortDirEntry
    → Bool
    → ℕ
    → List (List ℕ)
    → Outcome (ℕ × FileSystem × VirtFile)
unfolding put_entry Long.new_form_name_slice Long.as_bytes Short.gen_check_sum
put_ldes walk fs self sde is_first place [] = done (place, fs, self)
put_ldes walk fs self sde is_first place (piece ∷ pieces) = do
  let number = length (piece ∷ pieces) % 2 ^ 8
  let order = if is_first then bit_or number 0x40 else number
  let lde = Long.new_form_name_slice order piece (Short.gen_check_sum sde)
  (fs', self') ← put_entry walk fs self place (Long.as_bytes lde)
  put_ldes walk fs' self' sde false (place + dirent_size) pieces

-- The pieces that become long entries: all of a long name, the first of a short one.
unfoldable pub pieces_of : List ℕ → Outcome (List (List ℕ))
unfolding long_name_split is_long
pieces_of name =
    if is_long name
    then done (reverse (long_name_split name))
    else (unwrap (get_elem? (long_name_split name) 0) >>= λ name_array. done (name_array ∷ []))

-- The entries `..` and `.` of a new directory.
unfoldable pub put_dots : ℕ → FileSystem → VirtFile → VirtFile → Outcome (FileSystem × VirtFile)
unfolding short_name_format Short.new Short.as_bytes write_at
put_dots walk fs self child = do
  parent_cluster ← first_cluster fs self
  let (dots, no_ext) = short_name_format (b'.' ∷ b'.' ∷ [])
  parent_sde ← Short.new (parent_cluster % 2 ^ 32) dots no_ext dir
  (_, fs1, child1) ← write_at walk fs child dirent_size (Short.as_bytes parent_sde)
  child_cluster ← first_cluster fs1 child1
  let (dot, no_ext') = short_name_format (b'.' ∷ [])
  self_sde ← Short.new (child_cluster % 2 ^ 32) dot no_ext' dir
  (_, fs2, child2) ← write_at walk fs1 child1 0 (Short.as_bytes self_sde)
  done (fs2, child2)

-- The new entries are written at a place, and the file is searched for by its name.
unfoldable pub put_file :
    ℕ
    → ℕ
    → FileSystem
    → VirtFile
    → List ℕ
    → VirtFileType
    → ℕ
    → Outcome (Result VirtFile DirError × FileSystem × VirtFile)
unfolding new_sde pieces_of put_ldes put_dots find_by_name
put_file walk fuel fs self name file_type entry_offset = do
  sde ← new_sde name file_type
  pieces ← pieces_of name
  (place, fs1, self1) ← put_ldes walk fs self sde true entry_offset pieces
  (fs2, self2) ← put_entry walk fs1 self1 place (Short.as_bytes sde)
  own_cluster ← first_cluster fs2 self2
  guard (leb 2 own_cluster)
  option ← find_by_name walk fs2 self2 fuel name
  elim option [
    | none ↦ done (err create_file_error, fs2, self2)
    | some child ↦
        if type_eq file_type dir
        then (put_dots walk fs2 self2 child >>= λ r. done (ok r.1, r.0, self2))
        else done (ok child, fs2, self2)
  ]

unfoldable pub create :
    ℕ
    → ℕ
    → FileSystem
    → VirtFile
    → List ℕ
    → VirtFileType
    → Outcome (Result VirtFile DirError × FileSystem × VirtFile)
unfolding put_file find_by_name vir_file_type empty_entry_index
create walk fuel fs self name file_type = do
  guard (is_dir self)
  option ← find_by_name walk fs self fuel name
  let has_exist : Bool = elim option [ none ↦ false | some f ↦ type_eq (vir_file_type f) file_type ]
  if has_exist then done (err file_has_exist, fs, self) else do
    index ← empty_entry_index walk fs self fuel
    elim index [
      | err e ↦ done (err e, fs, self)
      | ok entry_offset ↦ put_file walk fuel fs self name file_type entry_offset
    ]

unfoldable pub remove :
    ℕ
    → ℕ
    → FileSystem
    → VirtFile
    → List (List ℕ)
    → Outcome (Result (Unit {0}) DirError × FileSystem)
unfolding find clear
remove walk fuel fs self path = do
  result ← find walk fuel fs self path
  elim result [ ok f ↦ (clear walk fs f >>= λ r. done (ok tt, r.1)) | err e ↦ done (err e, fs) ]
