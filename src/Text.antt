-- ===== src/Text.antt =====
-- Text as the source uses it: a `str` is its list of `char`s, Unicode scalar values. The encodings
-- and tests here are those of Rust's standard library.
use fat32_rs.Base.{
  ℕ, ◌+◌, ◌-◌, ◌*◌, ◌/◌, ◌%◌, ◌≤◌, ◌<◌, ◌⊎◌, arith, ltb, leb, ◌==◌, if◌then◌else◌, Bool, true,
  false, zero, suc, Option, none, some, ◌&&◌, ◌||◌, List, [], ◌∷◌, ◌++◌, length,
}

-- `to_ascii_uppercase`, `to_ascii_lowercase`
unfoldable pub upper : ℕ → ℕ
upper c = if leb b'a' c && leb c b'z' then c - 32 else c

unfoldable pub lower : ℕ → ℕ
lower c = if leb b'A' c && leb c b'Z' then c + 32 else c

-- The UTF-8 bytes of a character.
unfoldable pub utf8 : ℕ → List ℕ
utf8 c =
    if ltb c 0x80
    then c ∷ []
    else if ltb c 0x800
    then (0xC0 + c / 64) ∷ (0x80 + c % 64) ∷ []
    else if ltb c 0x10000
    then (0xE0 + c / 4096) ∷ (0x80 + c / 64 % 64) ∷ (0x80 + c % 64) ∷ []
    else (0xF0 + c / 262144) ∷ (0x80 + c / 4096 % 64) ∷ (0x80 + c / 64 % 64) ∷ (0x80 + c % 64) ∷ []

-- `as_bytes`
unfoldable pub as_bytes : List ℕ → List ℕ
unfolding utf8
as_bytes [] = []
as_bytes (c ∷ s) = utf8 c ++ as_bytes s

-- The UTF-16 units of a character.
unfoldable pub utf16 : ℕ → List ℕ
utf16 c =
    if ltb c 0x10000
    then c ∷ []
    else (0xD800 + (c - 0x10000) / 1024) ∷ (0xDC00 + (c - 0x10000) % 1024) ∷ []

unfoldable pub encode_utf16 : List ℕ → List ℕ
unfolding utf16
encode_utf16 [] = []
encode_utf16 (c ∷ s) = utf16 c ++ encode_utf16 s

abbrev pub is_high : ℕ → Bool
is_high u = leb 0xD800 u && ltb u 0xDC00

abbrev pub is_low : ℕ → Bool
is_low u = leb 0xDC00 u && ltb u 0xE000

-- `String::from_utf16_lossy`: a surrogate without its partner becomes U+FFFD.
unfoldable pub from_utf16_lossy : List ℕ → List ℕ
from_utf16_lossy [] = []
from_utf16_lossy (u ∷ []) = (if is_high u || is_low u then 0xFFFD else u) ∷ []
from_utf16_lossy (u ∷ v ∷ r) =
    let paired = (0x10000 + (u - 0xD800) * 1024 + (v - 0xDC00)) ∷ from_utf16_lossy r in
    let lone = (if is_high u || is_low u then 0xFFFD else u) ∷ from_utf16_lossy (v ∷ r) in
    if is_high u && is_low v then paired else lone

-- `is_ascii`
unfoldable pub is_ascii : List ℕ → Bool
is_ascii [] = true
is_ascii (c ∷ s) = ltb c 0x80 && is_ascii s

-- `contains` of a character
unfoldable pub contains : ℕ → List ℕ → Bool
contains c [] = false
contains c (x ∷ s) = (x == c) || contains c s

-- The text up to the first `c`, and the text behind it.
unfoldable pub before : ℕ → List ℕ → List ℕ
before c [] = []
before c (x ∷ s) = if x == c then [] else x ∷ before c s

unfoldable pub behind : ℕ → List ℕ → List ℕ
behind c [] = []
behind c (x ∷ s) = if x == c then s else behind c s

-- A Unicode scalar value.
abbrev pub IsChar : ℕ → Type 0
IsChar c = (c < 0xD800) ⊎ ((0xE000 ≤ c) × (c < 0x110000))

pub length-utf8 : (c : ℕ) → (1 ≤ length (utf8 c)) × (length (utf8 c) ≤ 4)
unfolding utf8
length-utf8 c = ground arith

-- What the first byte of a character says: whether it is one, the bytes that follow, the range of the
-- next one, and the bits that it gives.
unfoldable pub lead : ℕ → Bool × ℕ × ℕ × ℕ × ℕ
lead a =
    if ltb a 0x80
    then (true, 0, 0, 0, a)
    else if leb 0xC2 a && leb a 0xDF
    then (true, 1, 0x80, 0xBF, a - 0xC0)
    else if a == 0xE0
    then (true, 2, 0xA0, 0xBF, 0)
    else if a == 0xED
    then (true, 2, 0x80, 0x9F, 13)
    else if leb 0xE1 a && leb a 0xEF
    then (true, 2, 0x80, 0xBF, a - 0xE0)
    else if a == 0xF0
    then (true, 3, 0x90, 0xBF, 0)
    else if leb 0xF1 a && leb a 0xF3
    then (true, 3, 0x80, 0xBF, a - 0xF0)
    else if a == 0xF4
    then (true, 3, 0x80, 0x8F, 4)
    else (false, 0, 0, 0, 0)

-- A character before the rest, if it is whole.
abbrev pub emit : Bool → ℕ → Option (List ℕ) → Option (List ℕ)
emit whole c none = none
emit true c (some s) = some (c ∷ s)
emit false c (some s) = some s

-- The characters of the bytes left, `n` bytes before the end of one.
unfoldable pub decode : ℕ → ℕ → ℕ → ℕ → List ℕ → Option (List ℕ)
decode zero lo hi v [] = some []
decode (suc n) lo hi v [] = none
decode zero lo hi v (a ∷ s) =
    let l = lead a in
    let rest = emit (l.1 == 0) l.4 (decode l.1 l.2 l.3 l.4 s) in if l.0 then rest else none
decode (suc n) lo hi v (b ∷ s) =
    let v' = v * 64 + (b - 0x80) in
    let rest = emit (n == 0) v' (decode n 0x80 0xBF v' s) in
    if leb lo b && leb b hi then rest else none

-- `core::str::from_utf8`
unfoldable pub from_utf8 : List ℕ → Option (List ℕ)
unfolding decode lead
from_utf8 bs = decode 0 0 0 0 bs
