-- ===== src/Dir/Place.antt =====
-- src/dir.rs, src/entry.rs: a place of a file in its clusters, and the bytes of an entry.
use fat32_rs.Base.{
  ℕ, zero, suc, ◌≢◌, ◌+◌, ◌-◌, ◌*◌, ◌/◌, ◌%◌, ◌≤◌, ◌<◌, ◌≡◌, arith, ap, ◌∙◌, refl, sym, ltb, lt→ltb,
  le→ltb, if◌then◌else◌, List, [], ◌∷◌, length, get_elem?, none, some,
}
use mathlib.Core.Path.{fun_ext}
use native.Mathlib.Decide.{dec_lt}
use fat32_rs.Bytes.{Bytes, slice, read_le_u16, read_le_u32}
use fat32_rs.Disk.{Disk}
use fat32_rs.Entry.Short.{new_from_bytes}
use fat32_rs.Fat.{end_of_cluster}
use fat32_rs.Fat.Walk.{IsChain}
use fat32_rs.Vfs.Io.Copy.{content}

-- An entry is made of 32 bytes.
clip : Bytes → Bytes
clip p i = if ltb i 32 then p i else 0

clip_ext : (p q : Bytes) → ((i : ℕ) → i < 32 → p i ≡ q i) → clip p ≡ clip q
unfolding clip
clip_ext p q h = fun_ext (λ i. elim (dec_lt i 32) [
  | yes l ↦ rw (lt→ltb i 32 l) (h i l)
  | no g ↦ rw (le→ltb i 32 (omega (arith, g))) refl
])

new_from_bytes-clip : (p : Bytes) → new_from_bytes p ≡ new_from_bytes (clip p)
unfolding new_from_bytes slice read_le_u16 read_le_u32 clip
new_from_bytes-clip p = refl

pub new_from_bytes_ext :
    (p q : Bytes) → ((i : ℕ) → i < 32 → p i ≡ q i) → new_from_bytes p ≡ new_from_bytes q
new_from_bytes_ext p q h =
    new_from_bytes-clip p ∙ ap new_from_bytes (clip_ext p q h) ∙ sym (new_from_bytes-clip q)

-- A place of a file that is inside its clusters.
pub get_elem?_lt : (cs : List ℕ) (n : ℕ) → n < length cs → (x : ℕ) × (get_elem? cs n ≡ some x)
get_elem?_lt [] n h = absurd (omega (arith, h))
get_elem?_lt (c ∷ cs) zero h = (c, refl)
get_elem?_lt (c ∷ cs) (suc n) h = get_elem?_lt cs n (omega (arith, h))

pub content_at :
    (start : ℕ → ℕ) (spc : ℕ) (d : Disk) (cs : List ℕ) (n x j : ℕ)
    → get_elem? cs n ≡ some x
    → j < spc * 512
    → content start spc d cs (n * (spc * 512) + j) ≡ d (start x + j / 512) (j % 512)
unfolding content
content_at start spc d [] n x j e l = absurd (none-some e)
  where
    none-some : {x : ℕ} → none ≢ some x
    none-some e = cc
content_at start spc d (c ∷ cs) zero x j e l =
    let same : zero * (spc * 512) + j ≡ j = omega arith in
    let own : c ≡ x = some-inj e in
    rw (same, lt→ltb j (spc * 512) l) (ap (λ z. d (start z + j / 512) (j % 512)) own)
  where
    some-inj : {x y : ℕ} → some x ≡ some y → x ≡ y
    some-inj e = cc
content_at start spc d (c ∷ cs) (suc n) x j e l =
    let next : suc n * (spc * 512) + j - spc * 512 ≡ n * (spc * 512) + j = omega arith in
    rw (le→ltb (suc n * (spc * 512) + j) (spc * 512) (omega arith), next)
      (content_at start spc d cs n x j e l)

-- The clusters of a chain are clusters of the table.
pub IsChain-range :
    (e : ℕ → ℕ) (c : ℕ) (cs : List ℕ) (n x : ℕ)
    → IsChain e (c ∷ cs)
    → 2 ≤ c
    → c < end_of_cluster
    → get_elem? (c ∷ cs) n ≡ some x
    → (2 ≤ x) × (x < end_of_cluster)
IsChain-range e c cs zero x ch lo hi g = grind arith
IsChain-range e c [] (suc n) x ch lo hi g = grind arith
IsChain-range e c (c' ∷ cs) (suc n) x ch lo hi g = IsChain-range e c' cs n x ch.3 ch.1 ch.2 g
