-- ===== src/Bytes.antt =====
-- Bytes and little-endian words: `u16::from_le_bytes`, `read_le_u16`, `read_le_u32` of src/lib.rs,
-- and the stores that a typed pointer into a block makes. A byte string is a function from offsets.
use fat32_rs.Base.{
  ℕ, zero, suc, ◌+◌, ◌*◌, ◌/◌, ◌%◌, ◌^◌, ◌≤◌, ◌<◌, ◌≡◌, refl, ap, ◌∙◌, ◌⊎◌, inl, inr, arith, ◌==◌,
  if◌then◌else◌, List, [], ◌∷◌, length, get_or, All,
}
use mathlib.Core.Path.{ap₂}
use native.Mathlib.Nat.{add_assoc}

-- The bytes at an address: `*const u8`.
abbrev pub Bytes : Type 0
Bytes = ℕ → ℕ

-- The bytes of a slice, with zeros behind its end.
abbrev pub of_list : List ℕ → Bytes
of_list bs i = get_or bs i 0

-- The `n` bytes from `o` on.
unfoldable pub slice : Bytes → ℕ → ℕ → List ℕ
slice b o zero = []
slice b o (suc n) = b o ∷ slice b (o + 1) n

-- `dst[o..o + src.len()].copy_from_slice(src)`
unfoldable pub patch : Bytes → ℕ → List ℕ → Bytes
patch b o [] i = b i
patch b o (x ∷ xs) i = if i == o then x else patch b (o + 1) xs i

unfoldable pub read_le_u16 : Bytes → ℕ → ℕ
read_le_u16 b o = b o + 256 * b (o + 1)

unfoldable pub read_le_u32 : Bytes → ℕ → ℕ
read_le_u32 b o = b o + 256 * b (o + 1) + 65536 * b (o + 2) + 16777216 * b (o + 3)

-- `to_le_bytes`
abbrev pub le_u16 : ℕ → List ℕ
le_u16 v = v % 256 ∷ v / 256 % 256 ∷ []

abbrev pub le_u32 : ℕ → List ℕ
le_u32 v = v % 256 ∷ v / 256 % 256 ∷ v / 65536 % 256 ∷ v / 16777216 % 256 ∷ []

-- Every byte is below 256.
abbrev pub IsBytes : Bytes → Type 0
IsBytes b = (i : ℕ) → b i < 256

pub length-slice : (b : Bytes) (o n : ℕ) → length (slice b o n) ≡ n
unfolding slice
length-slice b o zero = refl
length-slice b o (suc n) = ap suc (length-slice b (o + 1) n)

-- A patch changes nothing outside its range.
pub patch_outside :
    (b : Bytes) (o : ℕ) (xs : List ℕ) (i : ℕ) → (i < o) ⊎ (o + length xs ≤ i) → patch b o xs i ≡ b i
unfolding patch
patch_outside b o [] i h = refl
patch_outside b o (x ∷ xs) i h = ground (arith, patch_outside b (o + 1) xs i)

-- Inside its range a patch is what was written.
pub patch_inside :
    (b : Bytes) (o : ℕ) (xs : List ℕ) (i : ℕ) → i < length xs → patch b o xs (o + i) ≡ get_or xs i 0
unfolding patch
patch_inside b o [] i h = absurd (omega arith)
patch_inside b o (x ∷ xs) zero h = ground arith
patch_inside b o (x ∷ xs) (suc i) h =
    let e : o + 1 + i ≡ o + suc i = omega arith in
    let r : patch b (o + 1) xs (o + 1 + i) ≡ get_or xs i 0 =
      patch_inside b (o + 1) xs i (omega arith) in
    let r' : patch b (o + 1) xs (o + suc i) ≡ get_or xs i 0 = rw e at r in ground arith

pub patch_bytes :
    (b : Bytes) (o : ℕ) (xs : List ℕ) → IsBytes b → All (λ x. x < 256) xs → IsBytes (patch b o xs)
unfolding patch
patch_bytes b o [] hb h i = hb i
patch_bytes b o (x ∷ xs) hb h i = ground (arith, h.0, patch_bytes b (o + 1) xs hb h.1 i)

pub slice_ext :
    (b c : Bytes) (o n : ℕ) → ((i : ℕ) → o ≤ i → i < o + n → b i ≡ c i) → slice b o n ≡ slice c o n
unfolding slice
slice_ext b c o zero h = refl
slice_ext b c o (suc n) h =
    ap₂ ◌∷◌ (h o (omega arith) (omega arith))
      (slice_ext b c (o + 1) n λ i p q. h i (omega arith) (omega arith))

-- What was written is read back.
pub slice-patch : (b : Bytes) (o : ℕ) (xs : List ℕ) → slice (patch b o xs) o (length xs) ≡ xs
unfolding slice patch
slice-patch b o [] = refl
slice-patch b o (x ∷ xs) = ap₂ ◌∷◌ (ground arith) (
    slice_ext _ (patch b (o + 1) xs) (o + 1) (length xs) (λ i p q. ground arith)
    ∙ slice-patch b (o + 1) xs)

pub read_le_u32-lt : (b : Bytes) (o : ℕ) → IsBytes b → read_le_u32 b o < 2 ^ 32
unfolding read_le_u32
read_le_u32-lt b o h = omega (arith, h o, h (o + 1), h (o + 2), h (o + 3))

pub read_le_u16-lt : (b : Bytes) (o : ℕ) → IsBytes b → read_le_u16 b o < 2 ^ 16
unfolding read_le_u16
read_le_u16-lt b o h = omega (arith, h o, h (o + 1))

pub read_le_u32-patch :
    (b : Bytes) (o v : ℕ) → v < 2 ^ 32 → read_le_u32 (patch b o (le_u32 v)) o ≡ v
unfolding read_le_u32 patch
read_le_u32-patch b o v h = ground arith

-- A store of a word leaves every word that does not overlap it.
pub read_le_u32-patch_ne :
    (b : Bytes) (o p v : ℕ)
    → (p + 4 ≤ o) ⊎ (o + 4 ≤ p)
    → read_le_u32 (patch b o (le_u32 v)) p ≡ read_le_u32 b p
unfolding read_le_u32 patch
read_le_u32-patch_ne b o p v (inl h) = ground arith
read_le_u32-patch_ne b o p v (inr h) = ground arith

pub read_le_u32-shift :
    (b : Bytes) (o k : ℕ) → read_le_u32 (λ i. b (o + i)) k ≡ read_le_u32 b (o + k)
unfolding read_le_u32
read_le_u32-shift b o k = simp add_assoc

pub read_le_u16-shift :
    (b : Bytes) (o k : ℕ) → read_le_u16 (λ i. b (o + i)) k ≡ read_le_u16 b (o + k)
unfolding read_le_u16
read_le_u16-shift b o k = simp add_assoc

pub get_or-slice : (b : Bytes) (o n i : ℕ) → i < n → get_or (slice b o n) i 0 ≡ b (o + i)
unfolding slice
get_or-slice b o zero i h = absurd (omega arith)
get_or-slice b o (suc n) zero h = ap b (omega arith)
get_or-slice b o (suc n) (suc i) h =
    get_or-slice b (o + 1) n i (omega (arith, h)) ∙ ap b (omega arith)

pub get_or-far : (xs : List ℕ) (i d : ℕ) → length xs ≤ i → get_or xs i d ≡ d
get_or-far [] i d h = refl
get_or-far (x ∷ xs) zero d h = absurd (omega (arith, h))
get_or-far (x ∷ xs) (suc i) d h = get_or-far xs i d (omega (arith, h))
