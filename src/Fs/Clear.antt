-- ===== src/Fs/Clear.antt =====
-- src/fs.rs: `clear_cluster`.
use fat32_rs.Base.{
  ℕ, zero, suc, ◌+◌, ◌^◌, ◌≤◌, ◌<◌, ◌≡◌, ◌≢◌, ◌⊎◌, inl, inr, refl, arith, done, ap, ◌∙◌, sym,
  replicate, length, length-replicate, get_or,
}
use native.Mathlib.Decide.{ℕ_discrete}
use fat32_rs.Bytes.{Bytes, patch, patch_inside}
use fat32_rs.Disk.{Disk, store, modify, modify-done, store_self, store_ne}
use fat32_rs.Bpb.Geometry.{IsVolume, cluster_start, first_sector_of_cluster-done}
use fat32_rs.Fs.{FileSystem, clear_blocks, clear_cluster, zero_block}

get_or-replicate : (n i d : ℕ) → get_or (replicate n d) i d ≡ d
get_or-replicate zero i d = refl
get_or-replicate (suc n) zero d = refl
get_or-replicate (suc n) (suc i) d = get_or-replicate n i d

length-zero_block : length zero_block ≡ 512
unfolding zero_block
length-zero_block = length-replicate {A = ℕ} 512 0

-- The blocks from `first` on, `n` of them, are zero, and the others are those of `d`.
pub record Cleared (d : Disk) (first n : ℕ) (d' : Disk) : Type 0 where
  pub zeroed : (b i : ℕ) → first ≤ b → b < first + n → i < 512 → d' b i ≡ 0
  pub same : (b : ℕ) → (b < first) ⊎ (first + n ≤ b) → d' b ≡ d b

-- The disk after one round.
abbrev cleared_block : Disk → ℕ → Disk
cleared_block d k = store d k (patch (d k) 0 zero_block)

modify-zero : (d : Disk) (k : ℕ) → modify d k 0 zero_block ≡ done (cleared_block d k)
modify-zero d k = modify-done d k 0 zero_block (omega (arith, length-zero_block))

patch-zero : (b : Bytes) (i : ℕ) → i < 512 → patch b 0 zero_block i ≡ 0
unfolding zero_block
patch-zero b i h =
    let e : 0 + i ≡ i = omega arith in
    let p : patch b 0 zero_block (0 + i) ≡ get_or zero_block i 0 =
      patch_inside b 0 zero_block i (omega (arith, length-zero_block)) in
    sym (ap (patch b 0 zero_block) e) ∙ p ∙ get_or-replicate 512 i 0

Cleared-cons :
    (d d' : Disk) (first n : ℕ)
    → Cleared (cleared_block d first) (first + 1) n d'
    → Cleared d first (suc n) d'
Cleared-cons d d' first n c = record {
  zeroed = λ b i h k l. elim (ℕ_discrete b first) [
    | yes e ↦
        ap (λ x. d' x i) e
        ∙ ap (λ f. f i) (c.same first (inl (omega arith)) ∙ store_self d first _)
        ∙ patch-zero (d first) i l
    | no ne ↦ c.zeroed b i (omega arith) (omega arith) l
  ];
  same = λ b h. c.same b (outside b h) ∙ store_ne d first _ b (apart b h);
}
  where
    outside : (b : ℕ) → (b < first) ⊎ (first + suc n ≤ b) → (b < first + 1) ⊎ (first + 1 + n ≤ b)
    outside b (inl h) = inl (omega arith)
    outside b (inr h) = inr (omega arith)

    apart : (b : ℕ) → (b < first) ⊎ (first + suc n ≤ b) → b ≢ first
    apart b (inl h) = omega arith
    apart b (inr h) = omega arith

pub clear_blocks-Cleared :
    (d : Disk) (first n : ℕ)
    → (d' : Disk) × (clear_blocks d first n ≡ done d') × Cleared d first n d'
unfolding clear_blocks
clear_blocks-Cleared d first zero =
    (d, refl, record { zeroed = λ b i h k l. absurd (omega arith); same = λ b h. refl })
clear_blocks-Cleared d first (suc n) =
    let (d', ran, c) = clear_blocks-Cleared (cleared_block d first) (first + 1) n in
    (d', rw (modify-zero d first) ran, Cleared-cons d d' first n c)

-- `clear_cluster` returns, fills the sectors of the cluster with zeros, and changes no other block and
-- nothing else of the file system.
pub clear_cluster-Cleared :
    (fs : FileSystem) (c : ℕ)
    → IsVolume fs.bpb
    → 2 ≤ c
    → c < 2 ^ 33
    → (d' : Disk) × (clear_cluster fs c ≡ done (record fs { disk = d' }))
      × Cleared fs.disk (cluster_start fs.bpb c) fs.bpb.basic_bpb.sec_per_clus d'
unfolding clear_cluster
clear_cluster-Cleared fs c v h k =
    let (d', ran, done_) =
      clear_blocks-Cleared fs.disk (cluster_start fs.bpb c) fs.bpb.basic_bpb.sec_per_clus in
    (d', rw (first_sector_of_cluster-done v c h k, ran), done_)
