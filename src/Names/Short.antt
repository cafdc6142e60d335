-- ===== src/Names/Short.antt =====
-- src/lib.rs: short names, and what becomes of a long name's extension.
use fat32_rs.Base.{
  ℕ, zero, suc, ◌≤◌, ◌<◌, ◌≡◌, ◌≢◌, ◌⊎◌, inl, inr, refl, arith, ltb, ◌==◌, sym, List, [], ◌∷◌, ◌++◌,
  length, replicate, ne→==, ◌∉◌, done, panic, >>=-eq-done, list_eq, Bool-cases, ==→ne,
  length-append,
}
use native.Mathlib.Decide.{dec_lt}
use fat32_rs.Text.{upper, as_bytes, utf8, before, behind}
use fat32_rs.Names.{split_name_ext, short_name_format, generate_short_name, first_upper, pad_upper}
use fat32_rs.Entry.{space}

-- If the part before the dot has fewer than six bytes, `generate_short_name` indexes past its end.
first_upper-panic : (n : ℕ) (bs : List ℕ) → length bs < n → first_upper n bs ≡ panic
unfolding first_upper
first_upper-panic zero bs h = absurd (omega arith)
first_upper-panic (suc n) [] h = refl
first_upper-panic (suc n) (c ∷ bs) h = rw (first_upper-panic n bs (omega arith))

first_upper-length : (n : ℕ) (bs r : List ℕ) → first_upper n bs ≡ done r → length r ≡ n
unfolding first_upper
first_upper-length zero bs r h = ground arith
first_upper-length (suc n) [] r h = cc
first_upper-length (suc n) (c ∷ bs) r h =
    let (r', a, b) = >>=-eq-done (first_upper n bs) (λ r. done (upper c ∷ r)) h in
    ground (arith, first_upper-length n bs r' a)

upper-ne_dot : (c : ℕ) → c ≢ b'.' → upper c ≢ b'.'
unfolding upper
upper-ne_dot c h = ground arith

first_upper-no_dot : (n : ℕ) (bs r : List ℕ) → first_upper n bs ≡ done r → b'.' ∉ bs → b'.' ∉ r
unfolding first_upper
first_upper-no_dot zero bs r h out = let e : [] ≡ r = cc in rw (sym e) tt
first_upper-no_dot (suc n) [] r h out = cc
first_upper-no_dot (suc n) (c ∷ bs) r h out =
    let (r', a, b) = >>=-eq-done (first_upper n bs) (λ r. done (upper c ∷ r)) h in
    let e : upper c ∷ r' ≡ r = cc in
    rw (sym e)
      ((λ p. upper-ne_dot c (λ q. out.0 (sym q)) (sym p)), first_upper-no_dot n bs r' a out.1)

pad_upper-no_dot : (n : ℕ) (bs : List ℕ) → b'.' ∉ bs → b'.' ∉ pad_upper n bs
unfolding pad_upper
pad_upper-no_dot zero bs out = tt
pad_upper-no_dot (suc n) [] out = (omega arith, pad_upper-no_dot n [] out)
pad_upper-no_dot (suc n) (c ∷ bs) out =
    ((λ p. upper-ne_dot c (λ q. out.0 (sym q)) (sym p)), pad_upper-no_dot n bs out.1)

before-no_dot : (c : ℕ) (s : List ℕ) → c ∉ before c s
unfolding before
before-no_dot c [] = tt
before-no_dot c (x ∷ s) = elim (Bool-cases (x == c)) [
  | inl e ↦ rw e tt
  | inr ne ↦ rw ne ((λ p. ==→ne x c ne (sym p)), before-no_dot c s)
]

∉-append : (a : ℕ) (xs ys : List ℕ) → a ∉ xs → a ∉ ys → a ∉ (xs ++ ys)
∉-append a [] ys h k = k
∉-append a (x ∷ xs) ys h k = (h.0, ∉-append a xs ys h.1 k)

utf8-no_dot : (c : ℕ) → b'.' ≢ c → b'.' ∉ utf8 c
unfolding utf8
utf8-no_dot c h = elim (Bool-cases (ltb c 0x80)) [
  | inl e ↦ rw e (h, tt)
  | inr n ↦ rw n (elim (Bool-cases (ltb c 0x800)) [
    | inl e ↦ rw e (omega arith, (omega arith, tt))
    | inr n ↦ rw n (elim (Bool-cases (ltb c 0x10000)) [
      | inl e ↦ rw e (omega arith, (omega arith, (omega arith, tt)))
      | inr n ↦ rw n (omega arith, (omega arith, (omega arith, (omega arith, tt))))
    ])
  ])
]

as_bytes-no_dot : (s : List ℕ) → b'.' ∉ s → b'.' ∉ as_bytes s
unfolding as_bytes
as_bytes-no_dot [] out = tt
as_bytes-no_dot (c ∷ s) out =
    ∉-append b'.' (utf8 c) (as_bytes s) (utf8-no_dot c out.0) (as_bytes-no_dot s out.1)

behind-no_dot : (c : ℕ) (s : List ℕ) → c ∉ s → behind c s ≡ []
unfolding behind
behind-no_dot c [] out = refl
behind-no_dot c (x ∷ s) out = rw (ne→== x c (λ p. out.0 (sym p))) (behind-no_dot c s out.1)

split_name_ext-no_dot : (s : List ℕ) → 3 ≤ length s → b'.' ∉ s → (split_name_ext s).1 ≡ []
unfolding split_name_ext before
split_name_ext-no_dot [] len out = absurd (omega arith)
split_name_ext-no_dot (a ∷ []) len out = absurd (omega arith)
split_name_ext-no_dot (a ∷ b ∷ []) len out = absurd (omega arith)
split_name_ext-no_dot (a ∷ b ∷ c ∷ s) len out =
    rw (ne→== a b'.' (λ p. out.0 (sym p))) (rw (behind-no_dot b'.' (b ∷ c ∷ s) out.1) refl)

-- The extension after `split_name_ext`: no dot in it.
ext-no_dot :
    (s : List ℕ)
    → (b'.' ∉ (split_name_ext s).1)
      × (b'.' ∉ (split_name_ext s).0 ⊎ length (as_bytes (split_name_ext s).0) ≤ 2)
unfolding split_name_ext as_bytes utf8
ext-no_dot s = elim (Bool-cases (list_eq s (b'.' ∷ []))) [
  | inl e ↦ rw e (tt, inr (omega arith))
  | inr n ↦ rw n (elim (Bool-cases (list_eq s (b'.' ∷ b'.' ∷ []))) [
    | inl e ↦ rw e (tt, inr (omega arith))
    | inr n ↦ rw n (before-no_dot b'.' (behind b'.' s), inl (before-no_dot b'.' s))
  ])
]

pad_upper-length : (n : ℕ) (bs : List ℕ) → length (pad_upper n bs) ≡ n
unfolding pad_upper
pad_upper-length zero bs = refl
pad_upper-length (suc n) [] = rw (pad_upper-length n []) refl
pad_upper-length (suc n) (c ∷ bs) = rw (pad_upper-length n bs) refl

-- What `generate_short_name` returns has 11 characters and no dot.
generated :
    (name_ ext_ front s : List ℕ)
    → b'.' ∉ ext_
    → (b'.' ∉ name_ ⊎ length (as_bytes name_) ≤ 2)
    → first_upper 6 (as_bytes name_) ≡ done front
    → front ++ (b'~' ∷ b'1' ∷ pad_upper 3 (as_bytes ext_)) ≡ s
    → (length s ≡ 11) × (b'.' ∉ s)
generated name_ ext_ front s dotless (inr short) run eq =
    let stop = first_upper-panic 6 (as_bytes name_) (omega arith) in cc
generated name_ ext_ front s dotless (inl clean) run eq = rw (sym eq) (
  rw (length-append front (b'~' ∷ b'1' ∷ pad_upper 3 (as_bytes ext_))) (
      rw (first_upper-length 6 (as_bytes name_) front run)
        (rw (pad_upper-length 3 (as_bytes ext_)) refl)),
  ∉-append b'.' front (b'~' ∷ b'1' ∷ pad_upper 3 (as_bytes ext_))
      (first_upper-no_dot 6 (as_bytes name_) front run (as_bytes-no_dot name_ clean))
      (
        omega arith,
        (omega arith, pad_upper-no_dot 3 (as_bytes ext_) (as_bytes-no_dot ext_ dotless)),
      ),
)

-- If the part of a name before its dot has fewer than six bytes, `generate_short_name` panics.
pub generate_short_name-panic :
    (long_name : List ℕ)
    → length (as_bytes (split_name_ext long_name).0) < 6
    → generate_short_name long_name ≡ panic
unfolding generate_short_name
generate_short_name-panic long_name h =
    rw (first_upper-panic 6 (as_bytes (split_name_ext long_name).0) h) refl

first_upper-done :
    (n : ℕ) (bs : List ℕ) → n ≤ length bs → (r : List ℕ) × (first_upper n bs ≡ done r)
unfolding first_upper
first_upper-done zero bs h = ([], refl)
first_upper-done (suc n) [] h = absurd (omega arith)
first_upper-done (suc n) (c ∷ bs) h =
    let (r, e) = first_upper-done n bs (omega arith) in (upper c ∷ r, rw e refl)

-- If the part of a name before its dot has at least six bytes, `generate_short_name` returns 11
-- characters, none of them a dot, so that `short_name_format`, which the directory code applies to them,
-- yields three spaces for the extension; if it has fewer, `generate_short_name` panics.
pub generate_short_name-short_name_format :
    (long_name : List ℕ)
    → ((6 ≤ length (as_bytes (split_name_ext long_name).0))
        × ((s : List ℕ) × (generate_short_name long_name ≡ done s)
            × (length s ≡ 11)
            × (b'.' ∉ s)
            × ((short_name_format s).1 ≡ replicate 3 space)))
      ⊎ ((length (as_bytes (split_name_ext long_name).0) < 6)
          × (generate_short_name long_name ≡ panic))
unfolding generate_short_name short_name_format pad_upper as_bytes
generate_short_name-short_name_format long_name =
    let (name_, ext_) = split_name_ext long_name in
    elim (dec_lt (length (as_bytes name_)) 6) [
      | yes few ↦ inr (few, generate_short_name-panic long_name few)
      | no enough ↦
          let (front, run) = first_upper-done 6 (as_bytes name_) (omega arith) in
          let s = front ++ (b'~' ∷ b'1' ∷ pad_upper 3 (as_bytes ext_)) in
          let (dotless, clean) = ext-no_dot long_name in
          let (len, out) = generated name_ ext_ front s dotless clean run refl in
          inl (
            omega arith,
            (s, rw run refl, len, out, rw (split_name_ext-no_dot s (omega arith) out) refl),
          )
    ]
