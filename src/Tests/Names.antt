-- ===== src/Tests/Names.antt =====
-- The names of src/lib.rs at concrete inputs.
use fat32_rs.Base.{panic, ◌⊎◌, ◌≤◌}
use fat32_rs.Base.{
  ℕ, ◌+◌, ◌/◌, ◌<◌, ◌≡◌, refl, arith, List, [], ◌∷◌, length, replicate, done, All, ◌∉◌,
}
use mathlib.Core.List.{flatten}
use fat32_rs.Base.{map}
use fat32_rs.Entry.Long.{name, new_form_name_slice}
use fat32_rs.Names.Pieces.{IsPlain, flatten-map-long_name_split}
use fat32_rs.Text.{as_bytes, encode_utf16, utf16}
use fat32_rs.Entry.{space}
use fat32_rs.Entry.Long.{until_zero}
use fat32_rs.Names.{
  sfn, lfn, sfn_or_lfn, long_name_split, generate_short_name, short_name_format, split_name_ext,
  get_lde_cnt, get_lfn_index,
}
use fat32_rs.Names.Split.{long_name_split-flatten}
use fat32_rs.Names.Short.{generate_short_name-short_name_format}

-- `long_file_name.text`
abbrev long_file_name : List ℕ
long_file_name =
    b'l' ∷ b'o' ∷ b'n' ∷ b'g' ∷ b'_' ∷ b'f' ∷ b'i' ∷ b'l' ∷ b'e' ∷ b'_' ∷ b'n' ∷ b'a' ∷ b'm' ∷ b'e'
    ∷ b'.' ∷ b't' ∷ b'e' ∷ b'x' ∷ b't' ∷ []

-- `a.text`
abbrev a_text : List ℕ
a_text = b'a' ∷ b'.' ∷ b't' ∷ b'e' ∷ b'x' ∷ b't' ∷ []

-- `LONG_F~1TEX`
abbrev short : List ℕ
short = b'L' ∷ b'O' ∷ b'N' ∷ b'G' ∷ b'_' ∷ b'F' ∷ b'~' ∷ b'1' ∷ b'T' ∷ b'E' ∷ b'X' ∷ []

kinds : (sfn_or_lfn a_text ≡ lfn) × (sfn_or_lfn (b'a' ∷ b'.' ∷ b'c' ∷ []) ≡ sfn)
unfolding sfn_or_lfn
kinds = (refl, refl)

counts : (get_lde_cnt long_file_name ≡ 2) × (get_lfn_index long_file_name 2 ≡ 13)
unfolding get_lde_cnt get_lfn_index
counts = (refl, refl)

units : 0 ∉ encode_utf16 long_file_name
unfolding encode_utf16 utf16
units = omega arith

generated : generate_short_name long_file_name ≡ done short
unfolding generate_short_name
generated = refl

long_name_split-flatten_example :
    (length (long_name_split long_file_name) ≡ (length (encode_utf16 long_file_name) + 12) / 13)
    × All (λ p. length p ≡ 13) (long_name_split long_file_name)
    × (until_zero (flatten (long_name_split long_file_name)) ≡ encode_utf16 long_file_name)
long_name_split-flatten_example = long_name_split-flatten long_file_name units

generate_short_name-short_name_format_example :
    ((6 ≤ length (as_bytes (split_name_ext long_file_name).0))
      × ((s : List ℕ) × (generate_short_name long_file_name ≡ done s)
          × (length s ≡ 11)
          × (b'.' ∉ s)
          × ((short_name_format s).1 ≡ replicate 3 space)))
    ⊎ ((length (as_bytes (split_name_ext long_file_name).0) < 6)
        × (generate_short_name long_file_name ≡ panic))
generate_short_name-short_name_format_example = generate_short_name-short_name_format long_file_name

plain : All IsPlain long_file_name
plain = ground arith

flatten-map-long_name_split_example :
    flatten (map (λ p. name (new_form_name_slice 0x41 p 9)) (long_name_split long_file_name))
    ≡ long_file_name
flatten-map-long_name_split_example = flatten-map-long_name_split 0x41 9 long_file_name plain
