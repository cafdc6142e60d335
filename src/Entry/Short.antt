-- ===== src/Entry/Short.antt =====
-- src/entry.rs: `ShortDirEntry`, the 32 bytes of a file in its directory.
pub mod Codec
pub mod Strings
pub mod Fields
use fat32_rs.Base.{
  ℕ, zero, suc, ◌+◌, ◌-◌, ◌*◌, ◌/◌, ◌%◌, ◌^◌, ltb, leb, ◌==◌, if◌then◌else◌, Bool, true, false,
  ◌&&◌, ◌||◌, List, [], ◌∷◌, ◌++◌, map, length, get_or, set, replicate, Outcome, done, panic, guard,
  ◌>>=◌, ◌>>◌,
}
use fat32_rs.Bytes.{Bytes, of_list, slice, patch, read_le_u16, read_le_u32, le_u16, le_u32}
use fat32_rs.Text.{upper, lower}
use fat32_rs.Entry.{
  attr_read_only, attr_hidden, attr_system, attr_directory, attr_archive, dir_entry_unused,
  dir_entry_last_and_unused, space, VirtFileType, dir, file,
}

pub record ShortDirEntry : Type 0 where
  pub name : List ℕ
  pub extension : List ℕ
  pub attr : ℕ
  pub nt_res : ℕ
  pub crt_time_tenth : ℕ
  pub crt_time : ℕ
  pub crt_date : ℕ
  pub lst_acc_date : ℕ
  pub fst_clus_hi : ℕ
  pub wrt_time : ℕ
  pub wrt_date : ℕ
  pub fst_clus_lo : ℕ
  pub file_size : ℕ

unfoldable pub empty : ShortDirEntry
empty = record {
  name = replicate 8 0;
  extension = replicate 3 0;
  attr = attr_archive;
  nt_res = 0;
  crt_time_tenth = 0;
  crt_time = 0;
  crt_date = 0;
  lst_acc_date = 0;
  fst_clus_hi = 0;
  wrt_time = 0;
  wrt_date = 0;
  fst_clus_lo = 0;
  file_size = 0;
}

-- The bytes of the packed structure.
unfoldable pub as_bytes : ShortDirEntry → List ℕ
as_bytes e =
    e.name
    ++ (e.extension
        ++ (e.attr
            ∷ e.nt_res
            ∷ e.crt_time_tenth
            ∷ (le_u16 e.crt_time
                ++ le_u16 e.crt_date
                ++ le_u16 e.lst_acc_date
                ++ le_u16 e.fst_clus_hi
                ++ le_u16 e.wrt_time
                ++ le_u16 e.wrt_date
                ++ le_u16 e.fst_clus_lo
                ++ le_u32 e.file_size)))

-- The structure that stands at an address.
unfoldable pub new_from_bytes : Bytes → ShortDirEntry
new_from_bytes b = record {
  name = slice b 0 8;
  extension = slice b 8 3;
  attr = b 11;
  nt_res = b 12;
  crt_time_tenth = b 13;
  crt_time = read_le_u16 b 14;
  crt_date = read_le_u16 b 16;
  lst_acc_date = read_le_u16 b 18;
  fst_clus_hi = read_le_u16 b 20;
  wrt_time = read_le_u16 b 22;
  wrt_date = read_le_u16 b 24;
  fst_clus_lo = read_le_u16 b 26;
  file_size = read_le_u32 b 28;
}

-- `hi << 16` and `+` are `u32`.
unfoldable pub first_cluster : ShortDirEntry → ℕ
first_cluster e = e.fst_clus_hi * 2 ^ 16 + e.fst_clus_lo

unfoldable pub set_first_cluster : ShortDirEntry → ℕ → ShortDirEntry
set_first_cluster e cluster = record e {
  fst_clus_hi = cluster / 2 ^ 16 % 2 ^ 16;
  fst_clus_lo = cluster % 2 ^ 16;
}

-- `[SPACE; n]` with the front overwritten; the slice of the target panics if it is too long.
abbrev pub pad : ℕ → List ℕ → Outcome (List ℕ)
pad n bs = do guard (leb (length bs) n); done (bs ++ replicate (n - length bs) space)

abbrev pub type_attr : VirtFileType → ℕ
type_attr dir = attr_directory
type_attr file = attr_archive

unfoldable pub new : ℕ → List ℕ → List ℕ → VirtFileType → Outcome ShortDirEntry
unfolding empty set_first_cluster
new cluster name extension create_type = do
  name_ ← pad 8 name
  extension_ ← pad 3 extension
  done (
      set_first_cluster
        (record empty {
          name = map upper name_;
          extension = map upper extension_;
          attr = type_attr create_type;
        })
        cluster)

-- One round of the checksum, in the low byte.
abbrev pub sum_step : ℕ → ℕ → ℕ
sum_step sum c = (sum % 2 * 2 ^ 7 + sum / 2 + c) % 256

unfoldable pub sum_loop : ℕ → List ℕ → ℕ
sum_loop sum [] = sum
sum_loop sum (c ∷ cs) = sum_loop (sum_step sum c) cs

unfoldable pub gen_check_sum : ShortDirEntry → ℕ
unfolding sum_loop
gen_check_sum e = sum_loop 0 (e.name ++ e.extension)

-- `name[0]`
abbrev pub first_byte : ShortDirEntry → ℕ
first_byte e = get_or e.name 0 0

unfoldable pub is_deleted : ShortDirEntry → Bool
is_deleted e = first_byte e == dir_entry_unused

unfoldable pub is_empty : ShortDirEntry → Bool
is_empty e = first_byte e == dir_entry_last_and_unused

unfoldable pub delete : ShortDirEntry → ShortDirEntry
unfolding set_first_cluster
delete e =
    let e' = set_first_cluster (record e { file_size = 0 }) 0 in
    record e' { name = set e'.name 0 dir_entry_unused }

unfoldable pub file_size : ShortDirEntry → ℕ
file_size e = e.file_size

unfoldable pub set_file_size : ShortDirEntry → ℕ → ShortDirEntry
set_file_size e size = record e { file_size = size }

-- The image that the two constructors from bytes fill: the name, the cluster in its two halves, and
-- the attribute where each type puts it.
abbrev pub image : ℕ → List ℕ → VirtFileType → Bytes
image cluster name_bytes create_type =
    let named = patch (λ _. 0) 0 (map upper name_bytes) in
    let high = patch named 0x14 (le_u16 (cluster / 2 ^ 16)) in
    let low = patch high 0x1A (le_u16 cluster) in
    elim create_type [
      | dir ↦ patch low 0x0B (attr_directory ∷ [])
      | file ↦ patch low 0x10 (attr_archive ∷ [])
    ]

-- `copy_from_slice` panics if the name has not 11 bytes.
unfoldable pub new_from_name_bytes : ℕ → List ℕ → VirtFileType → Outcome ShortDirEntry
unfolding new_from_bytes
new_from_name_bytes cluster name_bytes create_type = do
  guard (length name_bytes == 11)
  done (new_from_bytes (image cluster name_bytes create_type))

-- The upper case is made of the spaces, before the name is copied over them.
unfoldable pub set_name : ShortDirEntry → List ℕ → List ℕ → Outcome ShortDirEntry
set_name e name extension = do
  name_ ← pad 8 name
  _ ← pad 3 extension
  done (record e { name = name_ })

unfoldable pub set_name_case : ShortDirEntry → ℕ → ShortDirEntry
set_name_case e state = record e { nt_res = state }

unfoldable pub is_free : ShortDirEntry → Bool
is_free e =
    first_byte e == dir_entry_unused
    || first_byte e == dir_entry_last_and_unused
    || first_byte e == 0x05

-- The byte is refused anywhere in a name.
abbrev pub is_refused : ℕ → Bool
is_refused c =
    ltb c 0x20
    || c == 0x22
    || c == 0x2A
    || c == 0x2E
    || c == 0x2F
    || c == 0x3A
    || c == 0x3C
    || c == 0x3E
    || c == 0x3F
    || c == 0x5B
    || c == 0x5C
    || c == 0x5D
    || c == 0x7C

unfoldable pub none_refused : List ℕ → Bool
none_refused [] = true
none_refused (c ∷ cs) = if is_refused c then false else none_refused cs

unfoldable pub is_valid_name : ShortDirEntry → Bool
unfolding none_refused
is_valid_name e =
    if ltb (first_byte e) 0x20
    then first_byte e == 0x05
    else none_refused e.extension && none_refused e.name

unfoldable pub is_dir : ShortDirEntry → Bool
is_dir e = e.attr == attr_directory

unfoldable pub is_file : ShortDirEntry → Bool
is_file e =
    e.attr == attr_archive
    || e.attr == attr_hidden
    || e.attr == attr_system
    || e.attr == attr_read_only

unfoldable pub attr : ShortDirEntry → ℕ
attr e = e.attr

unfoldable pub set_attr : ShortDirEntry → ℕ → ShortDirEntry
set_attr e a = record e { attr = a }

-- The bytes up to the first space.
unfoldable pub until_space : List ℕ → List ℕ
until_space [] = []
until_space (c ∷ cs) = if c == space then [] else c ∷ until_space cs

-- A dot stands before an extension that is not blank.
abbrev pub dotted : List ℕ → List ℕ
dotted [] = []
dotted (c ∷ cs) = b'.' ∷ c ∷ cs

-- Each byte is pushed as the `char` of its number.
unfoldable pub get_name_uppercase : ShortDirEntry → List ℕ
unfolding until_space
get_name_uppercase e = until_space e.name ++ dotted (until_space e.extension)

unfoldable pub get_name_lowercase : ShortDirEntry → List ℕ
unfolding get_name_uppercase
get_name_lowercase e = map lower (get_name_uppercase e)

unfoldable pub set_create_time : ShortDirEntry → ℕ → ShortDirEntry
set_create_time e time = record e { crt_time = time }

unfoldable pub set_create_date : ShortDirEntry → ℕ → ShortDirEntry
set_create_date e date = record e { crt_date = date }

unfoldable pub set_last_access_date : ShortDirEntry → ℕ → ShortDirEntry
set_last_access_date e date = record e { lst_acc_date = date }

unfoldable pub set_last_write_time : ShortDirEntry → ℕ → ShortDirEntry
set_last_write_time e time = record e { wrt_time = time }

unfoldable pub set_last_write_date : ShortDirEntry → ℕ → ShortDirEntry
set_last_write_date e date = record e { wrt_date = date }
