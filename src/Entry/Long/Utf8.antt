-- ===== src/Entry/Long/Utf8.antt =====
-- src/entry.rs: `name_to_utf8`, the name of a long entry in UTF-8.
use fat32_rs.Base.{
  ℕ, ◌≢◌, ◌<◌, ◌≡◌, ◌∙◌, ap, sym, refl, arith, ◌+◌, ◌-◌, ◌/◌, ◌%◌, leb, ◌==◌, ne→==, ◌||◌,
  if◌then◌else◌, List, [], ◌∷◌, ◌++◌, length, replicate, All,
}
use mathlib.Core.List.{append_assoc}
use fat32_rs.Text.{utf8, as_bytes}
use fat32_rs.Entry.Long.{LongDirEntry, name_utf16}

-- A unit by itself.
unfoldable pub unit_utf8 : ℕ → List ℕ
unit_utf8 u =
    if leb u 0x7F
    then u ∷ []
    else if leb u 0x7FF
    then (0xC0 + u / 64 % 32) ∷ (0x80 + u % 64) ∷ []
    else (0xE0 + u / 4096 % 32) ∷ (0x80 + u / 64 % 64) ∷ (0x80 + u % 64) ∷ []

-- A part of the name, up to a 0 or 0xFFFF.
unfoldable pub part_utf8 : List ℕ → List ℕ
unfolding unit_utf8
part_utf8 [] = []
part_utf8 (u ∷ us) = if u == 0 || u == 0xFFFF then [] else unit_utf8 u ++ part_utf8 us

-- The array of 39 bytes, and how many are used. Each of the three parts ends by itself.
unfoldable pub name_to_utf8 : LongDirEntry → List ℕ × ℕ
unfolding part_utf8
name_to_utf8 e =
    let bytes = part_utf8 e.name1 ++ (part_utf8 e.name2 ++ part_utf8 e.name3) in
    (bytes ++ replicate (39 - length bytes) 0, length bytes)

-- A unit that is a character and no mark.
abbrev pub IsUnit : ℕ → Type 0
IsUnit u = (u ≢ 0) × (u < 0xFFFF)

unit_utf8-utf8 : (u : ℕ) → u < 0xFFFF → unit_utf8 u ≡ utf8 u
unfolding unit_utf8 utf8
unit_utf8-utf8 u h = ground arith

part_utf8-as_bytes : (us : List ℕ) → All IsUnit us → part_utf8 us ≡ as_bytes us
unfolding part_utf8 as_bytes
part_utf8-as_bytes [] a = refl
part_utf8-as_bytes (u ∷ us) a = rw (
  ne→== u 0 a.0.0,
  ne→== u 0xFFFF (omega (arith, a.0.1)),
  unit_utf8-utf8 u a.0.1,
  part_utf8-as_bytes us a.1,
)

as_bytes-append : (us vs : List ℕ) → as_bytes (us ++ vs) ≡ as_bytes us ++ as_bytes vs
unfolding as_bytes
as_bytes-append [] vs = refl
as_bytes-append (u ∷ us) vs =
    ap (λ r. utf8 u ++ r) (as_bytes-append us vs)
    ∙ sym (append_assoc (utf8 u) (as_bytes us) (as_bytes vs))

-- If every unit of a long entry's name is a character below 0xFFFF and not 0, `name_to_utf8` is the
-- UTF-8 of the name, filled up with zeros, and its length.
pub name_to_utf8-as_bytes :
    (e : LongDirEntry)
    → All IsUnit e.name1
    → All IsUnit e.name2
    → All IsUnit e.name3
    → name_to_utf8 e ≡ (
      as_bytes (name_utf16 e) ++ replicate (39 - length (as_bytes (name_utf16 e))) 0,
      length (as_bytes (name_utf16 e)),
    )
unfolding name_to_utf8 name_utf16
name_to_utf8-as_bytes e a b c = rw (
  part_utf8-as_bytes e.name1 a,
  part_utf8-as_bytes e.name2 b,
  part_utf8-as_bytes e.name3 c,
  as_bytes-append e.name1 (e.name2 ++ e.name3),
  as_bytes-append e.name2 e.name3,
)
