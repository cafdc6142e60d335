-- ===== src/Shell/Cut.antt =====
-- examples/fat32-fs-std/src/main.rs: where a text is cut.
use fat32_rs.Base.{
  ℕ, ◌≡◌, ◌≢◌, ◌⊎◌, inl, inr, arith, ap, refl, sym, eq→==, ne→==, Bool-cases, false, none, some,
  List, [], ◌∷◌, ◌++◌, ◌∉◌, All,
}
use native.Mathlib.Decide.{ℕ_discrete}
use fat32_rs.Shell.Words.{
  is_whitespace, push, goes_on, split_whitespace, before_first, before_last, cut_slash,
}

-- Up to the first of its kind.
pub before_first_lem : (x : ℕ) (s t : List ℕ) → x ∉ s → before_first x (s ++ x ∷ t) ≡ some s
unfolding before_first
before_first_lem x [] t h = rw (eq→== x x refl)
before_first_lem x (c ∷ s) t h = rw (ne→== c x (λ e. h.0 (sym e)), before_first_lem x s t h.1)

pub before_last-absent : (x : ℕ) (s : List ℕ) → x ∉ s → before_last x s ≡ none
unfolding before_last
before_last-absent x [] h = refl
before_last-absent x (c ∷ s) h = rw (before_last-absent x s h.1, ne→== c x (λ e. h.0 (sym e)))

-- Up to the last of its kind.
pub before_last_lem : (x : ℕ) (s t : List ℕ) → x ∉ t → before_last x (s ++ x ∷ t) ≡ some s
unfolding before_last
before_last_lem x [] t h = rw (before_last-absent x t h, eq→== x x refl)
before_last_lem x (c ∷ s) t h = rw (before_last_lem x s t h)

pub ∉-append : (a : ℕ) (xs ys : List ℕ) → a ∉ xs → a ∉ ys → a ∉ (xs ++ ys)
∉-append a [] ys h h' = h'
∉-append a (x ∷ xs) ys h h' = (h.0, ∉-append a xs ys h.1 h')

pub ∉-front : (a : ℕ) (xs ys : List ℕ) → a ∉ (xs ++ ys) → a ∉ xs
∉-front a [] ys h = tt
∉-front a (x ∷ xs) ys h = (h.0, ∉-front a xs ys h.1)

-- The last `/` of a text that has one.
pub last_slash :
    (s : List ℕ)
    → (b'/' ∉ s)
      ⊎ ((front : List ℕ) × (back : List ℕ) × (s ≡ front ++ (b'/' ∷ back)) × (b'/' ∉ back))
last_slash [] = inl tt
last_slash (c ∷ s) = elim (last_slash s) [
  | inr r ↦ inr (c ∷ r.0, r.1, ap (λ z. c ∷ z) r.2, r.3)
  | inl no_more ↦ elim (ℕ_discrete c b'/') [
    | yes e ↦ inr ([], s, ap (λ z. z ∷ s) e, no_more)
    | no ne ↦ inl ((λ e. ne (sym e)), no_more)
  ]
]

pub ∉-cut_slash : (a : ℕ) (s : List ℕ) → a ∉ s → a ∉ cut_slash s
unfolding cut_slash
∉-cut_slash a [] h = tt
∉-cut_slash a (c ∷ []) h = elim (ℕ_discrete c b'/') [
  | yes e ↦ rw (eq→== c b'/' e) tt
  | no ne ↦ rw (ne→== c b'/' ne) h
]
∉-cut_slash a (c ∷ d ∷ s) h = (h.0, ∉-cut_slash a (d ∷ s) h.1)

pub cut_slash_plain : (s : List ℕ) → b'/' ∉ s → cut_slash s ≡ s
unfolding cut_slash
cut_slash_plain [] h = refl
cut_slash_plain (c ∷ []) h = rw (ne→== c b'/' (λ e. h.0 (sym e)))
cut_slash_plain (c ∷ d ∷ s) h = rw (cut_slash_plain (d ∷ s) h.1)

-- No word of a line has a line break.
abbrev pub IsWords : List (List ℕ) → Type 0
IsWords words = All (λ w. 10 ∉ w) words

pub push-IsWords : (c : ℕ) (ws : List (List ℕ)) → 10 ≢ c → IsWords ws → IsWords (push c ws)
push-IsWords c [] ne h = ((ne, tt), tt)
push-IsWords c (w ∷ ws) ne h = ((ne, h.0), h.1)

pub not_break : (c : ℕ) → is_whitespace c ≡ false → 10 ≢ c
unfolding is_whitespace
not_break c e = ground arith

pub split_whitespace-IsWords : (s : List ℕ) → IsWords (split_whitespace s)
unfolding split_whitespace
split_whitespace-IsWords [] = tt
split_whitespace-IsWords (c ∷ s) = elim (Bool-cases (is_whitespace c)) [
  | inl e ↦ rw e (split_whitespace-IsWords s)
  | inr e ↦ elim (Bool-cases (goes_on s)) [
    | inl g ↦
        rw (e, g) (push-IsWords c (split_whitespace s) (not_break c e) (split_whitespace-IsWords s))
    | inr g ↦ rw (e, g) ((not_break c e, tt), split_whitespace-IsWords s)
  ]
]
