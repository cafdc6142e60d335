-- ===== src/Names/Split.antt =====
-- src/lib.rs: a long name cut into the pieces of its entries, and put together again.
use fat32_rs.Base.{
  ℕ, zero, suc, ◌+◌, ◌-◌, ◌*◌, ◌/◌, ◌≤◌, ◌≡◌, inl, inr, refl, arith, ltb, ap, ◌∙◌, sym, List, [],
  ◌∷◌, ◌++◌, length, take, drop, replicate, All, take-append-drop, length-append, length-replicate,
  length-drop, length-take_of_le, Bool-cases, ltb→lt, ltb→le, ne→==, ◌∉◌,
}
use mathlib.Core.List.{flatten}
use fat32_rs.Text.{encode_utf16}
use fat32_rs.Names.{chunks, fill_name, long_name_split, long_name_len_cap}
use fat32_rs.Entry.Long.{until_zero}

flatten-chunks : (n : ℕ) (us : List ℕ) → length us ≡ n * 13 → flatten (chunks n us) ≡ us
unfolding chunks flatten
flatten-chunks zero [] h = refl
flatten-chunks zero (u ∷ us) h = absurd (omega arith)
flatten-chunks (suc n) us h =
    ap (λ r. take 13 us ++ r) (flatten-chunks n (drop 13 us) (omega (arith, length-drop 13 us)))
    ∙ take-append-drop 13 us

chunks-lengths :
    (n : ℕ) (us : List ℕ)
    → length us ≡ n * 13
    → (length (chunks n us) ≡ n) × All (λ p. length p ≡ 13) (chunks n us)
unfolding chunks
chunks-lengths zero us h = (refl, tt)
chunks-lengths (suc n) us h =
    let (a, b) = chunks-lengths n (drop 13 us) (omega (arith, length-drop 13 us)) in
    (ap suc a, (length-take_of_le 13 us (omega arith), b))

pub length-fill_name :
    (us : List ℕ) (total : ℕ) → length us ≤ total → length (fill_name us total) ≡ total
unfolding fill_name
length-fill_name us total h = elim (Bool-cases (ltb (length us) total)) [
  | inl l ↦ rw l (
      omega (
        arith,
        length-append us (0 ∷ replicate (total - length us - 1) 0xFFFF),
        length-replicate {A = ℕ} (total - length us - 1) 0xFFFF,
        ltb→lt (length us) total l,
      ))
  | inr g ↦ rw g (omega (arith, ltb→le (length us) total g))
]

until_zero-append : (us r : List ℕ) → 0 ∉ us → until_zero (us ++ (0 ∷ r)) ≡ us
unfolding until_zero
until_zero-append [] r h = refl
until_zero-append (u ∷ us) r h = rw (ne→== u 0 (λ p. h.0 (sym p)), until_zero-append us r h.1)

pub until_zero_all : (us : List ℕ) → 0 ∉ us → until_zero us ≡ us
unfolding until_zero
until_zero_all [] h = refl
until_zero_all (u ∷ us) h = rw (ne→== u 0 (λ p. h.0 (sym p)), until_zero_all us h.1)

pub until_zero-fill_name : (us : List ℕ) (total : ℕ) → 0 ∉ us → until_zero (fill_name us total) ≡ us
unfolding fill_name
until_zero-fill_name us total h = elim (Bool-cases (ltb (length us) total)) [
  | inl l ↦ rw l (until_zero-append us (replicate (total - length us - 1) 0xFFFF) h)
  | inr g ↦ rw g (until_zero_all us h)
]

-- A name without a zero unit is cut into as many pieces as its UTF-16 units fill, of 13 units each, and the pieces in
-- order, up to the end mark if there is one, are the units of the name.
pub long_name_split-flatten :
    (name : List ℕ)
    → 0 ∉ encode_utf16 name
    → (length (long_name_split name) ≡ (length (encode_utf16 name) + 12) / 13)
      × All (λ p. length p ≡ 13) (long_name_split name)
      × (until_zero (flatten (long_name_split name)) ≡ encode_utf16 name)
unfolding long_name_split
long_name_split-flatten name h =
    let us = encode_utf16 name in
    let cnt : ℕ = (length us + long_name_len_cap - 1) / long_name_len_cap in
    let full : length (fill_name us (cnt * 13)) ≡ cnt * 13 =
      length-fill_name us (cnt * 13) (omega arith) in
    let (a, b) = chunks-lengths cnt (fill_name us (cnt * 13)) full in
    (
      a ∙ omega arith,
      b,
      ap until_zero (flatten-chunks cnt (fill_name us (cnt * 13)) full)
          ∙ until_zero-fill_name us (cnt * 13) h,
    )
