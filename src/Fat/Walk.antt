-- ===== src/Fat/Walk.antt =====
-- src/fat.rs: chains, and the functions that walk one.
use fat32_rs.Base.{
  ℕ, zero, suc, ◌+◌, ◌%◌, ◌^◌, ◌≤◌, ◌<◌, ◌≡◌, arith, le→leb, lt→leb, ap, ◌∙◌, none, some, done,
  List, [], ◌∷◌, ◌++◌, length, get_elem?, last_or,
}
use mathlib.Core.List.{append_assoc}
use fat32_rs.Disk.{Disk}
use fat32_rs.Fat.{
  FatManager, end_of_cluster, mask, get_next_cluster, get_cluster_at, tail_loop, cluster_chain_tail,
  all_loop, get_all_cluster_id, len_loop, cluster_chain_len,
}
use fat32_rs.Fat.Entries.{IsAligned, entry, get_next_cluster_lem}

-- The clusters of a list follow one another in a table, and the last one's entry ends the chain.
abbrev pub IsChain : (ℕ → ℕ) → List ℕ → Type 0
IsChain e [] = Unit
IsChain e (x ∷ []) = end_of_cluster ≤ e x
IsChain e (x ∷ y ∷ ys) = (e x ≡ y) × (2 ≤ y) × (y < end_of_cluster) × IsChain e (y ∷ ys)

module _ (fat : FatManager) (al : IsAligned fat.fat1_offset) (d : Disk) where
  next-end :
      (c : ℕ) → end_of_cluster ≤ entry fat.fat1_offset d c → get_next_cluster fat d c ≡ done none
  next-end c h = rw (
    get_next_cluster_lem fat al d c,
    le→leb 2 (entry fat.fat1_offset d c) (omega arith),
    le→leb end_of_cluster (entry fat.fat1_offset d c) h,
  )

  next-link :
      (c y : ℕ)
      → entry fat.fat1_offset d c ≡ y
      → 2 ≤ y
      → y < end_of_cluster
      → get_next_cluster fat d c ≡ done (some y)
  next-link c y e h k =
      rw (get_next_cluster_lem fat al d c, e, le→leb 2 y h, lt→leb end_of_cluster y k)

  mask-eq : (c : ℕ) → c < end_of_cluster → mask c ≡ c
  mask-eq c h = omega arith

  get_cluster_at-chain :
      (c : ℕ) (cs : List ℕ) (i : ℕ)
      → c < end_of_cluster
      → IsChain (entry fat.fat1_offset d) (c ∷ cs)
      → get_cluster_at fat d c i ≡ done (get_elem? (c ∷ cs) i)
  unfolding get_cluster_at
  get_cluster_at-chain c cs zero h ch = ap (λ k. done (some k)) (mask-eq c h)
  get_cluster_at-chain c [] (suc i) h ch = rw (next-end c ch)
  get_cluster_at-chain c (y ∷ ys) (suc i) h ch =
      rw (next-link c y ch.0 ch.1 ch.2) (get_cluster_at-chain y ys i ch.2 ch.3)

  tail_loop-chain :
      (fuel c : ℕ) (cs : List ℕ)
      → length cs < fuel
      → c < end_of_cluster
      → IsChain (entry fat.fat1_offset d) (c ∷ cs)
      → tail_loop fat d fuel c ≡ done (last_or cs c)
  unfolding tail_loop
  tail_loop-chain zero c cs f h ch = absurd (omega arith)
  tail_loop-chain (suc fuel) c [] f h ch = rw (next-end c ch) (ap done (mask-eq c h))
  tail_loop-chain (suc fuel) c (y ∷ ys) f h ch =
      rw (next-link c y ch.0 ch.1 ch.2) (tail_loop-chain fuel y ys (omega arith) ch.2 ch.3)

  all_loop-chain :
      (fuel c : ℕ) (cs vec : List ℕ)
      → length cs < fuel
      → c < end_of_cluster
      → IsChain (entry fat.fat1_offset d) (c ∷ cs)
      → all_loop fat d fuel c vec ≡ done (vec ++ (c ∷ cs))
  unfolding all_loop
  all_loop-chain zero c cs vec f h ch = absurd (omega arith)
  all_loop-chain (suc fuel) c [] vec f h ch = rw (next-end c ch, mask-eq c h)
  all_loop-chain (suc fuel) c (y ∷ ys) vec f h ch =
      rw (next-link c y ch.0 ch.1 ch.2, mask-eq c h)
        (all_loop-chain fuel y ys (vec ++ (c ∷ [])) (omega arith) ch.2 ch.3
          ∙ ap done (append_assoc vec (c ∷ []) (y ∷ ys)))

  len_loop-chain :
      (fuel c : ℕ) (cs : List ℕ) (len : ℕ)
      → length cs < fuel
      → len + length cs + 1 < 2 ^ 32
      → c < end_of_cluster
      → IsChain (entry fat.fat1_offset d) (c ∷ cs)
      → len_loop fat d fuel c len ≡ done (len + length (c ∷ cs))
  unfolding len_loop
  len_loop-chain zero c cs len f b h ch = absurd (omega arith)
  len_loop-chain (suc fuel) c [] len f b h ch = rw (next-end c ch) (ap done (omega arith))
  len_loop-chain (suc fuel) c (y ∷ ys) len f b h ch =
      let e : (len + 1) % 2 ^ 32 ≡ len + 1 = omega arith in
      rw (next-link c y ch.0 ch.1 ch.2, e)
        (len_loop-chain fuel y ys (len + 1) (omega arith) (omega arith) ch.2 ch.3
          ∙ ap done (omega arith))

  -- On a chain from a data cluster, with more fuel than it has clusters, all four walks return and
  -- agree: `get_all_cluster_id` gives its clusters in order, `cluster_chain_len` their number,
  -- `cluster_chain_tail` the last of them, and `get_cluster_at` the one at any index, `None` past
  -- the end.
  pub walks-chain :
      (fuel c : ℕ) (cs : List ℕ)
      → length cs < fuel
      → length cs + 1 < 2 ^ 32
      → 2 ≤ c
      → c < end_of_cluster
      → IsChain (entry fat.fat1_offset d) (c ∷ cs)
      → (get_all_cluster_id fat d fuel c ≡ done (c ∷ cs))
        × (cluster_chain_len fat d fuel c ≡ done (length (c ∷ cs)))
        × (cluster_chain_tail fat d fuel c ≡ done (last_or cs c))
        × ((i : ℕ) → get_cluster_at fat d c i ≡ done (get_elem? (c ∷ cs) i))
  unfolding get_all_cluster_id cluster_chain_len cluster_chain_tail
  walks-chain fuel c cs f b l h ch = (
    all_loop-chain fuel c cs [] f h ch,
    len_loop-chain fuel c cs 0 f (omega arith) h ch ∙ ap done (omega arith),
    rw (le→leb 2 c l) (tail_loop-chain fuel c cs f h ch),
    λ i. get_cluster_at-chain c cs i h ch,
  )
