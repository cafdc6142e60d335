-- ===== src/Vfs/Io/Copy.antt =====
-- The bytes of a file in its clusters, as `read_at` and `write_at` of src/vfs.rs find them.
use fat32_rs.Base.{
  ℕ, zero, suc, ◌+◌, ◌-◌, ◌*◌, ◌/◌, ◌%◌, ◌≤◌, ◌<◌, ◌≡◌, arith, refl, ap, ◌∙◌, ltb, if◌then◌else◌,
  lt→ltb, le→ltb, List, [], ◌∷◌, ◌++◌, length, drop, All, sym,
}
use mathlib.Core.Path.{ap₂, subst}
use native.Mathlib.Decide.{dec_lt}
use fat32_rs.Bytes.{Bytes, slice}
use fat32_rs.Disk.{Disk}

pub slice_shift :
    (f c : Bytes) (q p m : ℕ)
    → ((i : ℕ) → i < m → c (p + i) ≡ f (q + i))
    → slice c p m ≡ slice f q m
unfolding slice
slice_shift f c q p zero h = refl
slice_shift f c q p (suc m) h =
    ap₂ ◌∷◌ (ap c (omega arith) ∙ h 0 (omega arith) ∙ ap f (omega arith)) (
      slice_shift f c (q + 1) (p + 1) m
        (λ i l. ap c (omega arith) ∙ h (suc i) (omega arith) ∙ ap f (omega arith)))

-- Slices that stand behind one another are one.
pub slice-append :
    (f c : Bytes) (o k p m : ℕ)
    → ((i : ℕ) → i < m → c (p + i) ≡ f (o + k + i))
    → slice f o k ++ slice c p m ≡ slice f o (k + m)
unfolding slice
slice-append f c o zero p m h =
    let e : zero + m ≡ m = omega arith in
    rw e (slice_shift f c o p m (λ i l. h i l ∙ ap f (omega arith)))
slice-append f c o (suc k) p m h =
    let e : suc k + m ≡ suc (k + m) = omega arith in
    rw e (ap (λ r. f o ∷ r) (slice-append f c (o + 1) k p m (λ i l. h i l ∙ ap f (omega arith))))

module _ (start : ℕ → ℕ) (spc : ℕ) (d : Disk) where
  -- The byte at a place of the file whose clusters are given; `start` is a cluster's first block.
  unfoldable pub content : List ℕ → Bytes
  content [] i = 0
  content (c ∷ cs) i =
      if ltb i (spc * 512) then d (start c + i / 512) (i % 512) else content cs (i - spc * 512)

  -- From `left` on a file has the bytes of its clusters.
  abbrev pub Holds : Bytes → ℕ → List ℕ → Type 0
  Holds f left [] = Unit
  Holds f left (c ∷ cs) =
      ((j : ℕ) → j < spc * 512 → f (left + j) ≡ d (start c + j / 512) (j % 512))
      × Holds f (left + spc * 512) cs

  Holds-of_content :
      (f : Bytes) (left : ℕ) (cs : List ℕ)
      → ((i : ℕ) → f (left + i) ≡ content cs i)
      → Holds f left cs
  unfolding content
  Holds-of_content f left [] h = tt
  Holds-of_content f left (c ∷ cs) h = (
    λ j l. h j ∙ rw (lt→ltb j (spc * 512) l) refl,
    Holds-of_content f (left + spc * 512) cs (λ i.
        let e : spc * 512 + i - spc * 512 ≡ i = omega arith in
        ap f (omega arith)
        ∙ h (spc * 512 + i)
        ∙ rw (le→ltb (spc * 512 + i) (spc * 512) (omega arith), e) refl),
  )

  pub content-Holds : (cs : List ℕ) → Holds (content cs) 0 cs
  content-Holds cs = Holds-of_content (content cs) 0 cs (λ i. ap (content cs) (omega arith))

  pub Holds-drop :
      (f : Bytes) (left n : ℕ) (cs : List ℕ)
      → Holds f left cs
      → Holds f (left + n * (spc * 512)) (drop n cs)
  Holds-drop f left zero cs h = let e : left + zero * (spc * 512) ≡ left = omega arith in rw e h
  Holds-drop f left (suc n) [] h = tt
  Holds-drop f left (suc n) (c ∷ cs) h =
      let e : left + suc n * (spc * 512) ≡ left + spc * 512 + n * (spc * 512) = omega arith in
      rw e (Holds-drop f (left + spc * 512) n cs h.1)

-- Where a file and its clusters change in the same places, the clusters hold the changed file.
pub Holds-change :
    (start : ℕ → ℕ) (spc : ℕ) (d d' : Disk) (f g : Bytes) (left : ℕ) (cs : List ℕ)
    → ((i : ℕ) → left ≤ i → g i ≡ f i)
    → All (λ c. (k : ℕ) → k < spc → d' (start c + k) ≡ d (start c + k)) cs
    → Holds start spc d f left cs
    → Holds start spc d' g left cs
Holds-change start spc d d' f g left [] same kept h = tt
Holds-change start spc d d' f g left (c ∷ cs) same kept h = (
  λ j l.
      same (left + j) (omega arith)
      ∙ h.0 j l
      ∙ ap (λ b. b (j % 512)) (sym (kept.0 (j / 512) (omega arith))),
  Holds-change start spc d d' f g (left + spc * 512) cs (λ i l. same i (omega arith)) kept.1 h.1,
)

-- The number of bytes in clusters of `size` bytes.
abbrev pub span : ℕ → List ℕ → ℕ
span size [] = 0
span size (c ∷ cs) = size + span size cs

pub span-eq : (size : ℕ) (cs : List ℕ) → span size cs ≡ length cs * size
span-eq size [] = omega arith
span-eq size (c ∷ cs) = grind (arith, span-eq size cs)

pub span-drop :
    (size n : ℕ) (cs : List ℕ) → n ≤ length cs → n * size + span size (drop n cs) ≡ span size cs
span-drop size zero cs h = omega arith
span-drop size (suc n) [] h = absurd (omega arith)
span-drop size (suc n) (c ∷ cs) h = grind (arith, span-drop size n cs)

-- A place of the file, its cluster and its place there.
pub quot_bounds : (a k : ℕ) → 0 < k → (a / k * k ≤ a) × (a < a / k * k + k)
quot_bounds a k h = (grind arith, grind arith)

pub quot_bound : (a k n : ℕ) → 0 < k → a < n * k → a / k < n
quot_bound a k n h l = grind arith

pub quot_least : (a k n : ℕ) → 0 < k → n * k ≤ a → n ≤ a / k
quot_least a k n h l = grind arith

-- What the clusters hold is one thing.
pub Holds-agree :
    (start : ℕ → ℕ) (spc : ℕ) (d : Disk) (f g : Bytes) (left : ℕ) (cs : List ℕ) (i : ℕ)
    → Holds start spc d f left cs
    → Holds start spc d g left cs
    → i < span (spc * 512) cs
    → f (left + i) ≡ g (left + i)
Holds-agree start spc d f g left [] i hf hg l = absurd (omega arith)
Holds-agree start spc d f g left (c ∷ cs) i hf hg l = elim (dec_lt i (spc * 512)) [
  | yes near ↦ hf.0 i near ∙ sym (hg.0 i near)
  | no far ↦
      ap f (omega arith)
      ∙ Holds-agree start spc d f g (left + spc * 512) cs (i - spc * 512) hf.1 hg.1 (omega arith)
      ∙ ap g (omega arith)
]

pub content-of_Holds :
    (start : ℕ → ℕ) (spc : ℕ) (d : Disk) (f : Bytes) (cs : List ℕ) (i : ℕ)
    → Holds start spc d f 0 cs
    → i < length cs * (spc * 512)
    → content start spc d cs i ≡ f i
content-of_Holds start spc d f cs i h l =
    let e : 0 + i ≡ i = omega arith in
    subst (λ z. content start spc d cs z ≡ f z) e
      (Holds-agree start spc d (content start spc d cs) f 0 cs i (content-Holds start spc d cs) h
        (omega (arith, span-eq (spc * 512) cs)))
