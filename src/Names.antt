-- ===== src/Names.antt =====
-- The functions on names in src/lib.rs. A name is its list of characters; its length in the source is
-- that of its UTF-8 bytes.
pub mod Split
pub mod Short
pub mod Pieces
use fat32_rs.Base.{
  ℕ, zero, suc, ◌+◌, ◌-◌, ◌*◌, ◌/◌, ◌%◌, ◌^◌, ltb, leb, ◌==◌, if◌then◌else◌, Bool, true, false, not,
  ◌&&◌, ◌||◌, List, [], ◌∷◌, ◌++◌, map, length, get_or, get_elem?, replicate, take, drop, list_eq,
  Option, none, some, Outcome, done, panic, guard, unwrap, ◌>>=◌, ◌>>◌,
}
use fat32_rs.Text.{upper, as_bytes, utf8, encode_utf16, is_ascii, contains, before, behind}
use fat32_rs.Entry.{space}

-- `LONG_NAME_LEN_CAP`
abbrev pub long_name_len_cap : ℕ
long_name_len_cap = 13

abbrev pub block_size : ℕ
block_size = 512

pub data NameType : Type 0 where
  sfn lfn : NameType

-- The characters `\/:*?"<>|`.
abbrev pub illegal_chars : List ℕ
illegal_chars = 0x5C ∷ b'/' ∷ b':' ∷ b'*' ∷ b'?' ∷ 0x22 ∷ b'<' ∷ b'>' ∷ b'|' ∷ []

unfoldable pub contains_any : List ℕ → List ℕ → Bool
unfolding contains
contains_any [] chs = false
contains_any (c ∷ cs) chs = if contains c chs then true else contains_any cs chs

unfoldable pub is_illegal : List ℕ → Bool
unfolding contains_any
is_illegal chs = contains_any illegal_chars chs

unfoldable pub any_upper : List ℕ → Bool
any_upper [] = false
any_upper (c ∷ cs) = (leb b'A' c && leb c b'Z') || any_upper cs

-- The name is cut at its first dot.
unfoldable pub sfn_or_lfn : List ℕ → NameType
unfolding any_upper contains is_ascii as_bytes before behind
sfn_or_lfn value =
    let name = before b'.' value in
    let extension = behind b'.' value in
    if is_ascii name
      && not (any_upper name)
      && not (contains b' ' name)
      && not (contains b'.' name)
      && not (contains b'.' extension)
      && leb (length (as_bytes name)) 8
      && leb (length (as_bytes extension)) 3
    then sfn
    else lfn

unfoldable pub get_lde_cnt : List ℕ → ℕ
get_lde_cnt value_str = (length value_str + long_name_len_cap - 1) / long_name_len_cap

-- `for (index, ch) in value_str.chars().enumerate()`, from index `index` on.
unfoldable pub lfn_index_loop : ℕ → ℕ → ℕ → List ℕ → ℕ
unfolding utf8
lfn_index_loop limit index len [] = len
lfn_index_loop limit index len (ch ∷ chs) =
    lfn_index_loop limit (index + 1) (if ltb index limit then len + length (utf8 ch) else len) chs

-- `count - 1` and `13 * …` are `usize`.
unfoldable pub get_lfn_index : List ℕ → ℕ → ℕ
unfolding lfn_index_loop
get_lfn_index value_str count =
    lfn_index_loop (13 * ((count + 2 ^ 64 - 1) % 2 ^ 64) % 2 ^ 64) 0 0 value_str

unfoldable pub get_needed_sector : ℕ → ℕ
get_needed_sector value = (value + block_size - 1) / block_size

-- `chunks` of 13, as many as are given.
unfoldable pub chunks : ℕ → List ℕ → List (List ℕ)
chunks zero us = []
chunks (suc n) us = take long_name_len_cap us ∷ chunks n (drop long_name_len_cap us)

-- The units with the end mark and the fill behind them: a 0, then 0xFFFF up to `total`.
unfoldable pub fill_name : List ℕ → ℕ → List ℕ
fill_name us total =
    if ltb (length us) total then us ++ (0 ∷ replicate (total - length us - 1) 0xFFFF) else us

unfoldable pub long_name_split : List ℕ → List (List ℕ)
unfolding chunks fill_name
long_name_split value =
    let us = encode_utf16 value in
    let lfn_cnt = (length us + long_name_len_cap - 1) / long_name_len_cap in
    chunks lfn_cnt (fill_name us (lfn_cnt * long_name_len_cap))

-- `name.split(".")`, its first two parts: the second is empty if there is no dot.
unfoldable pub split_name_ext : List ℕ → List ℕ × List ℕ
unfolding before behind
split_name_ext name =
    if list_eq name (b'.' ∷ [])
    then (b'.' ∷ [], [])
    else if list_eq name (b'.' ∷ b'.' ∷ [])
    then (b'.' ∷ b'.' ∷ [], [])
    else (before b'.' name, before b'.' (behind b'.' name))

-- `for i in 0..n`: upper-case bytes, and spaces where the text has ended.
unfoldable pub pad_upper : ℕ → List ℕ → List ℕ
unfolding upper
pad_upper zero bs = []
pad_upper (suc n) [] = space ∷ pad_upper n []
pad_upper (suc n) (c ∷ bs) = upper c ∷ pad_upper n bs

unfoldable pub short_name_format : List ℕ → List ℕ × List ℕ
unfolding split_name_ext pad_upper as_bytes
short_name_format value =
    let (name, ext) = split_name_ext value in
    (pad_upper 8 (as_bytes name), pad_upper 3 (as_bytes ext))

-- `for i in 0..6`: `name[i]` panics past the end.
unfoldable pub first_upper : ℕ → List ℕ → Outcome (List ℕ)
unfolding upper
first_upper zero bs = done []
first_upper (suc n) [] = panic
first_upper (suc n) (c ∷ bs) = first_upper n bs >>= λ r. done (upper c ∷ r)

unfoldable pub generate_short_name : List ℕ → Outcome (List ℕ)
unfolding split_name_ext first_upper pad_upper as_bytes
generate_short_name long_name = do
  let (name_, ext_) = split_name_ext long_name
  front ← first_upper 6 (as_bytes name_)
  done (front ++ (b'~' ∷ b'1' ∷ pad_upper 3 (as_bytes ext_)))
