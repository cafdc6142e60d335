-- ===== src/Vfs/Grow/Lists.antt =====
-- Lists of clusters and of bytes, where a chain gets longer.
use fat32_rs.Base.{
  ℕ, ◌-◌, ◌*◌, ◌<◌, ◌≡◌, ◌≢◌, refl, arith, lt→ltb, le→ltb, ap, ◌∙◌, List, [], ◌∷◌, ◌++◌, length,
  last_or, All, ◌∉◌, Distinct,
}
use fat32_rs.Disk.{Disk}
use fat32_rs.Entry.Short as Short
use fat32_rs.Entry.Short.{ShortDirEntry, new_from_bytes}
use fat32_rs.Entry.Short.Fields.{IsEntry}
use fat32_rs.Fat.Walk.{IsChain}
use fat32_rs.Fs.Pool.{IsFresh}
use native.Mathlib.Decide.{dec_lt}
use fat32_rs.Vfs.Io.Copy.{content}

pub All-append : (P : ℕ → Type 0) (xs ys : List ℕ) → All P xs → All P ys → All P (xs ++ ys)
All-append P [] ys a b = b
All-append P (x ∷ xs) ys a b = (a.0, All-append P xs ys a.1 b)

pub All-to : (P Q : ℕ → Type 0) (xs : List ℕ) → ((x : ℕ) → P x → Q x) → All P xs → All Q xs
All-to P Q [] f a = tt
All-to P Q (x ∷ xs) f a = (f x a.0, All-to P Q xs f a.1)

pub All-both :
    (P Q R : ℕ → Type 0) (xs : List ℕ)
    → ((x : ℕ) → P x → Q x → R x)
    → All P xs
    → All Q xs
    → All R xs
All-both P Q R [] f a b = tt
All-both P Q R (x ∷ xs) f a b = (f x a.0 b.0, All-both P Q R xs f a.1 b.1)

∉-append : (a : ℕ) (xs ys : List ℕ) → a ∉ xs → a ∉ ys → a ∉ (xs ++ ys)
∉-append a [] ys h h' = h'
∉-append a (x ∷ xs) ys h h' = (h.0, ∉-append a xs ys h.1 h')

pub Distinct-append :
    (xs ys : List ℕ) → Distinct xs → Distinct ys → All (λ x. x ∉ ys) xs → Distinct (xs ++ ys)
Distinct-append [] ys a b apart = b
Distinct-append (x ∷ xs) ys a b apart =
    (∉-append x xs ys a.0 apart.0, Distinct-append xs ys a.1 b apart.1)

pub as_bytes-All : (e : ShortDirEntry) → IsEntry e → All (λ b. b < 256) (Short.as_bytes e)
unfolding Short.as_bytes
as_bytes-All e v =
    All-append (λ b. b < 256) e.name _ v.name_bytes
      (All-append (λ b. b < 256) e.extension _ v.extension_bytes
        (omega (arith, v.attr, v.nt_res, v.crt_time_tenth)))

-- The first clusters of a file hold its first bytes.
pub content-prefix :
    (start : ℕ → ℕ) (spc : ℕ) (d : Disk) (xs ys : List ℕ) (i : ℕ)
    → i < length xs * (spc * 512)
    → content start spc d (xs ++ ys) i ≡ content start spc d xs i
unfolding content
content-prefix start spc d [] ys i l = absurd (omega (arith, l))
content-prefix start spc d (x ∷ xs) ys i l = elim (dec_lt i (spc * 512)) [
  | yes h ↦ rw (lt→ltb i (spc * 512) h) refl
  | no g ↦
      rw (le→ltb i (spc * 512) (omega (arith, g)))
        (content-prefix start spc d xs ys (i - spc * 512) (omega (arith, g, l)))
]

-- A cluster of a chain is not free.
pub used-∉ : (cap x : ℕ) (e : ℕ → ℕ) (ys : List ℕ) → e x ≢ 0 → All (IsFresh cap e) ys → x ∉ ys
used-∉ cap x e [] h a = tt
used-∉ cap x e (y ∷ ys) h a = ((λ p. h (ap e p ∙ a.0.free)), used-∉ cap x e ys h a.1)

pub chain_used : (e : ℕ → ℕ) (xs : List ℕ) → IsChain e xs → All (λ x. e x ≢ 0) xs
chain_used e [] ch = tt
chain_used e (x ∷ []) ch = ((λ z. absurd (omega (arith, z, ch))), tt)
chain_used e (x ∷ y ∷ ys) ch =
    ((λ z. absurd (omega (arith, z, ch.0, ch.1))), chain_used e (y ∷ ys) ch.3)

pub last_or-All : (P : ℕ → Type 0) (c : ℕ) (cs : List ℕ) → All P (c ∷ cs) → P (last_or cs c)
last_or-All P c [] a = a.0
last_or-All P c (x ∷ xs) a = last_or-All P x xs a.1

-- A chain whose entries are kept.
pub IsChain-kept :
    (e f : ℕ → ℕ) (xs : List ℕ) → All (λ x. f x ≡ e x) xs → IsChain e xs → IsChain f xs
IsChain-kept e f [] a ch = tt
IsChain-kept e f (x ∷ []) a ch = rw a.0 ch
IsChain-kept e f (x ∷ y ∷ ys) a ch = (a.0 ∙ ch.0, ch.1, ch.2, IsChain-kept e f (y ∷ ys) a.1 ch.3)
