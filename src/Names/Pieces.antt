-- ===== src/Names/Pieces.antt =====
-- src/lib.rs and src/entry.rs: a long name in its entries, and the names of the entries.
use fat32_rs.Base.{
  ℕ, zero, suc, ◌+◌, ◌-◌, ◌*◌, ◌/◌, ◌≤◌, ◌<◌, ◌≡◌, ◌≢◌, ◌⊎◌, inl, inr, refl, arith, ltb, ap, sym,
  List, [], ◌∷◌, ◌++◌, map, length, take, drop, All, le→ltb, lt→ltb, take-append-drop, length-drop,
  Bool-cases, ◌∉◌, false,
}
use native.Mathlib.Decide.{dec_lt}
use mathlib.Core.List.{flatten, append-nil}
use fat32_rs.Text.{utf16, encode_utf16, from_utf16_lossy, is_high, is_low}
use fat32_rs.Names.{chunks, fill_name, long_name_split}
use fat32_rs.Names.Split.{until_zero_all, until_zero-fill_name, length-fill_name}
use fat32_rs.Entry.Long.{until_zero, name, new_form_name_slice}
use fat32_rs.Entry.Long.Laws.{name_utf16-new_form_name_slice}

-- A character of one UTF-16 unit, other than 0.
abbrev pub IsPlain : ℕ → Type 0
IsPlain c = (c ≢ 0) × ((c < 0xD800) ⊎ ((0xE000 ≤ c) × (c < 0x10000)))

not_surrogate : (c : ℕ) → IsPlain c → (is_high c ≡ false) × (is_low c ≡ false)
not_surrogate c h = ground arith

encode_utf16-plain : (s : List ℕ) → All IsPlain s → encode_utf16 s ≡ s
unfolding encode_utf16 utf16
encode_utf16-plain [] h = refl
encode_utf16-plain (c ∷ s) h =
    let small : c < 0x10000 = ground (arith, h.0) in
    rw (lt→ltb c 0x10000 small, encode_utf16-plain s h.1)

from_utf16_lossy-plain : (s : List ℕ) → All IsPlain s → from_utf16_lossy s ≡ s
unfolding from_utf16_lossy
from_utf16_lossy-plain [] h = refl
from_utf16_lossy-plain (u ∷ []) h = rw ((not_surrogate u h.0).0, (not_surrogate u h.0).1)
from_utf16_lossy-plain (u ∷ v ∷ s) h =
    rw ((not_surrogate u h.0).0, (not_surrogate u h.0).1, from_utf16_lossy-plain (v ∷ s) h.1)

no_zero : (s : List ℕ) → All IsPlain s → 0 ∉ s
no_zero [] h = tt
no_zero (c ∷ s) h = ((λ p. h.0.0 (sym p)), no_zero s h.1)

All-take : (n : ℕ) (s : List ℕ) → All IsPlain s → All IsPlain (take n s)
All-take zero s h = tt
All-take (suc n) [] h = tt
All-take (suc n) (c ∷ s) h = (h.0, All-take n s h.1)

All-drop : (n : ℕ) (s : List ℕ) → All IsPlain s → All IsPlain (drop n s)
All-drop zero s h = h
All-drop (suc n) [] h = tt
All-drop (suc n) (c ∷ s) h = All-drop n s h.1

take-append : (n : ℕ) (xs ys : List ℕ) → n ≤ length xs → take n (xs ++ ys) ≡ take n xs
take-append zero xs ys h = refl
take-append (suc n) [] ys h = absurd (omega arith)
take-append (suc n) (x ∷ xs) ys h = ap (λ r. x ∷ r) (take-append n xs ys (omega arith))

drop-append : (n : ℕ) (xs ys : List ℕ) → n ≤ length xs → drop n (xs ++ ys) ≡ drop n xs ++ ys
drop-append zero xs ys h = refl
drop-append (suc n) [] ys h = absurd (omega arith)
drop-append (suc n) (x ∷ xs) ys h = drop-append n xs ys (omega arith)

take_all : (n : ℕ) (xs : List ℕ) → length xs ≡ n → take n xs ≡ xs
take_all zero [] h = refl
take_all zero (x ∷ xs) h = absurd (omega arith)
take_all (suc n) [] h = refl
take_all (suc n) (x ∷ xs) h = ap (λ r. x ∷ r) (take_all n xs (omega arith))

take-fill_name :
    (us : List ℕ) (total : ℕ) → 13 ≤ length us → take 13 (fill_name us total) ≡ take 13 us
unfolding fill_name
take-fill_name us total h = elim (Bool-cases (ltb (length us) total)) [
  | inl l ↦ rw l (take-append 13 us _ h)
  | inr g ↦ rw g refl
]

drop-fill_name :
    (us : List ℕ) (n : ℕ)
    → 13 ≤ length us
    → drop 13 (fill_name us (suc n * 13)) ≡ fill_name (drop 13 us) (n * 13)
unfolding fill_name
drop-fill_name us n h = elim (dec_lt (length us) (suc n * 13)) [
  | yes l ↦
      let gap : suc n * 13 - length us - 1 ≡ n * 13 - length (drop 13 us) - 1 =
        omega (arith, length-drop 13 us) in
      rw
        (
          lt→ltb (length us) (suc n * 13) l,
          lt→ltb (length (drop 13 us)) (n * 13) (omega (arith, length-drop 13 us)),
          gap,
        )
        (drop-append 13 us _ h)
  | no g ↦
      rw
        (
          le→ltb (length us) (suc n * 13) (omega arith),
          le→ltb (length (drop 13 us)) (n * 13) (omega (arith, length-drop 13 us)),
        )
        refl
]

-- The name of the entry that holds a piece.
abbrev piece_name : ℕ → ℕ → List ℕ → List ℕ
piece_name o c p = name (new_form_name_slice o p c)

piece_name_lem : (o c : ℕ) (p : List ℕ) → piece_name o c p ≡ from_utf16_lossy (until_zero p)
unfolding name
piece_name_lem o c p = rw ((name_utf16-new_form_name_slice o c p []).0)

pieces :
    (o c n : ℕ) (us : List ℕ)
    → All IsPlain us
    → length us ≤ n * 13
    → n * 13 < length us + 13
    → flatten (map (piece_name o c) (chunks n (fill_name us (n * 13)))) ≡ us
unfolding chunks flatten
pieces o c zero [] plain h k = refl
pieces o c zero (u ∷ us) plain h k = absurd (omega arith)
pieces o c (suc n) us plain h k = elim (dec_lt (length us) 13) [
  | yes l ↦
      let one : n ≡ 0 = omega arith in
      rw
        (
          one,
          piece_name_lem o c (take 13 (fill_name us (1 * 13))),
          take_all 13 (fill_name us (1 * 13)) (length-fill_name us 13 (omega arith)),
          until_zero-fill_name us (1 * 13) (no_zero us plain),
          from_utf16_lossy-plain us plain,
        )
        (append-nil us)
  | no g ↦
      rw
        (
          piece_name_lem o c (take 13 (fill_name us (suc n * 13))),
          take-fill_name us (suc n * 13) (omega arith),
          drop-fill_name us n (omega arith),
          pieces o c n (drop 13 us) (All-drop 13 us plain) (omega (arith, length-drop 13 us))
              (omega (arith, length-drop 13 us)),
          until_zero_all (take 13 us) (no_zero (take 13 us) (All-take 13 us plain)),
          from_utf16_lossy-plain (take 13 us) (All-take 13 us plain),
        )
        (take-append-drop 13 us)
]

-- If every character of a long name is one UTF-16 unit and not 0, the names read from the entries
-- that `new_form_name_slice` makes of its pieces, with any order and checksum, are together the long
-- name.
pub flatten-map-long_name_split :
    (o c : ℕ) (long_name : List ℕ)
    → All IsPlain long_name
    → flatten (map (λ p. name (new_form_name_slice o p c)) (long_name_split long_name)) ≡ long_name
unfolding long_name_split
flatten-map-long_name_split o c long_name h =
    rw (encode_utf16-plain long_name h)
      (pieces o c ((length long_name + 13 - 1) / 13) long_name h (omega arith) (omega arith))
