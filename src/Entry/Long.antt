-- ===== src/Entry/Long.antt =====
-- src/entry.rs: `LongDirEntry`, 13 UTF-16 units of a long name.
pub mod Laws
pub mod Utf8
use fat32_rs.Base.{
  ℕ, zero, suc, ◌+◌, ◌-◌, ◌*◌, ◌/◌, ◌%◌, ◌^◌, ltb, leb, ◌==◌, if◌then◌else◌, Bool, true, false, not,
  ◌&&◌, ◌||◌, List, [], ◌∷◌, ◌++◌, map, length, get_or, set, replicate, take, drop, Outcome, done,
  panic, guard, ◌>>=◌, ◌>>◌,
}
use Prim.Native.Nat.{bit_xor}
use fat32_rs.Bytes.{Bytes, of_list, slice, patch, read_le_u16, le_u16}
use fat32_rs.Text.{encode_utf16, from_utf16_lossy}
use fat32_rs.Entry.{attr_long_name, dir_entry_unused, dir_entry_last_and_unused, last_long_entry}

pub record LongDirEntry : Type 0 where
  pub ord : ℕ
  pub name1 : List ℕ
  pub attr : ℕ
  pub ldir_type : ℕ
  pub chk_sum : ℕ
  pub name2 : List ℕ
  pub fst_clus_lo : ℕ
  pub name3 : List ℕ

unfoldable pub empty : LongDirEntry
empty = record {
  ord = 0;
  name1 = replicate 5 0;
  attr = attr_long_name;
  ldir_type = 0;
  chk_sum = 0;
  name2 = replicate 6 0;
  fst_clus_lo = 0;
  name3 = replicate 2 0;
}

-- The bytes of an array of units, and `n` units from an address on.
unfoldable pub units_bytes : List ℕ → List ℕ
units_bytes [] = []
units_bytes (u ∷ us) = u % 256 ∷ u / 256 % 256 ∷ units_bytes us

unfoldable pub units : Bytes → ℕ → ℕ → List ℕ
units b o zero = []
units b o (suc n) = read_le_u16 b o ∷ units b (o + 2) n

-- The bytes of the packed structure.
unfoldable pub as_bytes : LongDirEntry → List ℕ
unfolding units_bytes
as_bytes e =
    e.ord
    ∷ (units_bytes e.name1
        ++ (e.attr
            ∷ e.ldir_type
            ∷ e.chk_sum
            ∷ (units_bytes e.name2 ++ (le_u16 e.fst_clus_lo ++ units_bytes e.name3))))

-- The structure that stands at an address.
unfoldable pub new_form_bytes : Bytes → LongDirEntry
unfolding units
new_form_bytes b = record {
  ord = b 0;
  name1 = units b 1 5;
  attr = b 11;
  ldir_type = b 12;
  chk_sum = b 13;
  name2 = units b 14 6;
  fst_clus_lo = read_le_u16 b 26;
  name3 = units b 28 2;
}

-- The array has 13 units.
unfoldable pub set_name : LongDirEntry → List ℕ → LongDirEntry
set_name e name_array = record e {
  name1 = take 5 name_array;
  name2 = take 6 (drop 5 name_array);
  name3 = drop 11 name_array;
}

unfoldable pub new_form_name_slice : ℕ → List ℕ → ℕ → LongDirEntry
unfolding empty
new_form_name_slice order name_array check_sum = record empty {
  ord = order;
  name1 = take 5 name_array;
  chk_sum = check_sum;
  name2 = take 6 (drop 5 name_array);
  name3 = drop 11 name_array;
}

unfoldable pub name_utf16 : LongDirEntry → List ℕ
name_utf16 e = e.name1 ++ (e.name2 ++ e.name3)

-- The units up to the first 0.
unfoldable pub until_zero : List ℕ → List ℕ
until_zero [] = []
until_zero (u ∷ us) = if u == 0 then [] else u ∷ until_zero us

unfoldable pub name : LongDirEntry → List ℕ
unfolding name_utf16 until_zero
name e = from_utf16_lossy (until_zero (name_utf16 e))

-- `write_unicode`: the units in an array of 13, a 0 behind them if there is room, the rest 0xFFFF,
-- spread over the three places. More than 13 units overrun the array.
unfoldable pub write_unicode : List ℕ → Bytes → Outcome Bytes
unfolding units_bytes
write_unicode value buf = do
  let us = encode_utf16 value
  guard (leb (length us) 13)
  let ended = us ++ (if length us == 13 then [] else 0 ∷ [])
  let temp = ended ++ replicate (13 - length ended) 0xFFFF
  done (
      patch
        (patch (patch buf 0x01 (units_bytes (take 5 temp))) 0x0E
          (units_bytes (take 6 (drop 5 temp))))
        0x1C (units_bytes (drop 11 temp)))

unfoldable pub new : ℕ → ℕ → List ℕ → Outcome LongDirEntry
unfolding write_unicode new_form_bytes
new order check_sum name_str = do
  let ordered = patch (λ _. 0) 0x00 (order ∷ [])
  let marked = patch ordered 0x0B (attr_long_name ∷ [])
  buf ← write_unicode name_str (patch marked 0x0D (check_sum ∷ []))
  done (new_form_bytes buf)

unfoldable pub attr : LongDirEntry → ℕ
attr e = e.attr

unfoldable pub order : LongDirEntry → ℕ
order e = e.ord

unfoldable pub check_sum : LongDirEntry → ℕ
check_sum e = e.chk_sum

unfoldable pub is_free : LongDirEntry → Bool
is_free e = e.ord == dir_entry_last_and_unused || e.ord == dir_entry_unused

unfoldable pub is_empty : LongDirEntry → Bool
is_empty e = e.ord == dir_entry_last_and_unused

unfoldable pub is_valid : LongDirEntry → Bool
is_valid e = not (e.ord == dir_entry_unused)

unfoldable pub is_deleted : LongDirEntry → Bool
is_deleted e = e.ord == dir_entry_unused

unfoldable pub delete : LongDirEntry → LongDirEntry
delete e = record e { ord = dir_entry_unused }

-- `ord & (LAST_LONG_ENTRY - 1)`, the low six bits
unfoldable pub lde_order : LongDirEntry → ℕ
lde_order e = e.ord % 2 ^ 6

-- `ord & LAST_LONG_ENTRY`, bit six
unfoldable pub is_lde_end : LongDirEntry → Bool
is_lde_end e = e.ord / 2 ^ 6 % 2 == 1
