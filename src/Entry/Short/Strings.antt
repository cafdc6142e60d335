-- ===== src/Entry/Short/Strings.antt =====
-- src/entry.rs: names of short entries as arrays of bytes, and a short entry made of a string.
use fat32_rs.Base.{
  ℕ, ◌+◌, ◌-◌, ◌/◌, ◌^◌, ltb, leb, ◌==◌, ◌&&◌, if◌then◌else◌, ◌<◌, ◌≡◌, sym, refl, arith, lt→ltb,
  eq→==, ne→==, All, true, Option, none, some, List, [], ◌∷◌, ◌++◌, length, get_or, replicate,
  Outcome, done, guard, ◌>>◌,
}
use mathlib.Core.List.{append-nil}
use fat32_rs.Bytes.{Bytes, patch, le_u16}
use fat32_rs.Text.{upper, as_bytes, before, behind, lead, decode, from_utf8}
use native.Mathlib.Decide.{ℕ_discrete}
use fat32_rs.Entry.{VirtFileType, dir, file, space, attr_directory, attr_archive}
use fat32_rs.Entry.Short.{ShortDirEntry, new_from_bytes, until_space, dotted, get_name_uppercase}

-- The bytes that are not spaces.
unfoldable pub no_spaces : List ℕ → List ℕ
no_spaces [] = []
no_spaces (c ∷ cs) = let rest = no_spaces cs in if c == space then rest else c ∷ rest

-- The array, and how many of its bytes are used.
unfoldable pub name_bytes_array_with_dot : ShortDirEntry → Outcome (List ℕ × ℕ)
unfolding no_spaces
name_bytes_array_with_dot e = do
  let dot = if get_or e.extension 0 space == space then [] else b'.' ∷ []
  let full_name = no_spaces e.name ++ (dot ++ no_spaces e.extension)
  guard (leb (length full_name) 12)
  done (full_name ++ replicate (12 - length full_name) 0, length full_name)

unfoldable pub name_bytes_array : ShortDirEntry → Outcome (List ℕ)
unfolding no_spaces
name_bytes_array e = do
  let full_name = no_spaces e.name ++ no_spaces e.extension
  guard (leb (length full_name) 11)
  done (full_name ++ replicate (11 - length full_name) 0)

-- `item[o..o + n].make_ascii_uppercase()`
unfoldable pub upper_range : Bytes → ℕ → ℕ → Bytes
unfolding upper
upper_range item o n i = if leb o i && ltb i (o + n) then upper (item i) else item i

-- The name is cut at its first dot; a part that runs past the 32 bytes panics.
unfoldable pub new_form_name_str : ℕ → List ℕ → VirtFileType → Outcome ShortDirEntry
unfolding before behind as_bytes upper_range new_from_bytes
new_form_name_str cluster name_str create_type = do
  let name = as_bytes (before b'.' name_str)
  let extension = as_bytes (behind b'.' name_str)
  guard (leb (length name) 32 && leb (8 + length extension) 32)
  let blank = patch (λ _. 0) 0x00 (replicate 11 space)
  let named = patch (patch blank 0x00 name) 0x08 extension
  let upper_case = upper_range (upper_range named 0x00 (length name)) 0x08 (length extension)
  let placed = patch (patch upper_case 0x14 (le_u16 (cluster / 2 ^ 16))) 0x1A (le_u16 cluster)
  let attribute : Bytes = elim create_type [
    | dir ↦ patch placed 0x0B (attr_directory ∷ [])
    | file ↦ patch placed 0x10 (attr_archive ∷ [])
  ]
  done (new_from_bytes attribute)

-- `core::str::from_utf8(…).unwrap_or("")`
abbrev pub or_empty : Option (List ℕ) → List ℕ
or_empty none = []
or_empty (some s) = s

-- The name, and behind a dot the extension, unless it is blank.
unfoldable pub name : ShortDirEntry → List ℕ
unfolding from_utf8 until_space
name e =
    let name_ = or_empty (from_utf8 (until_space e.name)) in
    let extension = until_space e.extension in
    if length extension == 0 then name_ else name_ ++ (b'.' ∷ or_empty (from_utf8 extension))

lead_ascii : (b : ℕ) → b < 0x80 → lead b ≡ (true, 0, 0, 0, b)
unfolding lead
lead_ascii b h = rw (lt→ltb b 0x80 h)

-- The bytes below 0x80 are characters.
decode_ascii : (lo hi v : ℕ) (bs : List ℕ) → All (λ b. b < 0x80) bs → decode 0 lo hi v bs ≡ some bs
unfolding decode
decode_ascii lo hi v [] h = refl
decode_ascii lo hi v (b ∷ bs) h = rw (lead_ascii b h.0, decode_ascii 0 0 b bs h.1) refl

until_space-All : (bs : List ℕ) → All (λ b. b < 0x80) bs → All (λ b. b < 0x80) (until_space bs)
unfolding until_space
until_space-All [] h = tt
until_space-All (b ∷ bs) h = elim (ℕ_discrete b space) [
  | yes e ↦ rw (eq→== b space e) tt
  | no ne ↦ rw (ne→== b space ne) (h.0, until_space-All bs h.1)
]

with_extension : (s x : List ℕ) → (if length x == 0 then s else s ++ (b'.' ∷ x)) ≡ s ++ dotted x
with_extension s [] = sym (append-nil s)
with_extension s (c ∷ cs) = rw (ne→== (length (c ∷ cs)) 0 (λ e. absurd (omega (arith, e)))) refl

-- Of an entry whose bytes are below 0x80, `name` and `get_name_uppercase` give the same name.
pub name-get_name_uppercase :
    (e : ShortDirEntry)
    → All (λ b. b < 0x80) e.name
    → All (λ b. b < 0x80) e.extension
    → name e ≡ get_name_uppercase e
unfolding name get_name_uppercase from_utf8
name-get_name_uppercase e h h' =
    rw
      (
        decode_ascii 0 0 0 (until_space e.name) (until_space-All e.name h),
        decode_ascii 0 0 0 (until_space e.extension) (until_space-All e.extension h'),
      )
      (with_extension (until_space e.name) (until_space e.extension))
