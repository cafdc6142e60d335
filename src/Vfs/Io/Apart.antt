-- ===== src/Vfs/Io/Apart.antt =====
-- The clusters of a file do not overlap, and the table stands before them.
use fat32_rs.Base.{ℕ, ◌+◌, ◌≤◌, ◌<◌, ◌≡◌, inl, arith, sym, ◌∙◌, List, [], ◌∷◌, All, ◌∉◌}
use fat32_rs.Disk.{Disk}
use fat32_rs.Bpb.{BiosParameterBlock}
use fat32_rs.Bpb.Geometry.{data_start, cluster_start}
use fat32_rs.Fat.Entries.{entry, entry_block, entry_same}
use fat32_rs.Fat.Walk.{IsChain}
use fat32_rs.Fs.Shape.{IsMounted, capacity, mounted-IsAligned, entry_block_bounds}
use fat32_rs.Fs.Alloc.Step.{Outside, Inside, Inside-Outside}

module _ (bpb : BiosParameterBlock) where
  -- The clusters have entries in the table.
  abbrev pub AllData : List ℕ → Type 0
  AllData cs = All (λ x. (2 ≤ x) × (x < capacity bpb)) cs

  pub Outside-others :
      (b c : ℕ) (cs : List ℕ)
      → 2 ≤ c
      → AllData cs
      → c ∉ cs
      → Inside bpb b c
      → All (Outside bpb b) cs
  Outside-others b c [] h a out i = tt
  Outside-others b c (x ∷ cs) h a out i =
      (Inside-Outside bpb b c x h a.0.0 out.0 i, Outside-others b c cs h a.1 out.1 i)

  -- A change inside one cluster leaves the others.
  pub others_kept :
      (d d' : Disk) (c : ℕ) (cs : List ℕ)
      → 2 ≤ c
      → AllData cs
      → c ∉ cs
      → ((b : ℕ) → Outside bpb b c → d' b ≡ d b)
      → All
          (λ x.
            (k : ℕ)
            → k < bpb.basic_bpb.sec_per_clus
            → d' (cluster_start bpb x + k) ≡ d (cluster_start bpb x + k))
          cs
  others_kept d d' c [] h a out same = tt
  others_kept d d' c (x ∷ cs) h a out same = (
    λ k l. same (cluster_start bpb x + k) (
        Inside-Outside bpb (cluster_start bpb x + k) x c a.0.0 h (λ e. out.0 (sym e))
          (omega arith, omega arith)),
    others_kept d d' c cs h a.1 out.1 same,
  )

  pub Outside-All : (b : ℕ) (cs : List ℕ) → b < data_start bpb → All (Outside bpb b) cs
  Outside-All b [] h = tt
  Outside-All b (c ∷ cs) h = (inl (omega arith), Outside-All b cs h)

  module _ (off : ℕ) (m : IsMounted bpb off) (d d' : Disk)
      (same : (b : ℕ) → b < data_start bpb → d' b ≡ d b) where
    -- A change of data leaves the table.
    pub entries_kept : (x : ℕ) → x < capacity bpb → entry off d' x ≡ entry off d x
    entries_kept x l =
        entry_same off (mounted-IsAligned m) d d' x
          (same (entry_block off x) (entry_block_bounds m x l).1)

    pub chain_kept :
        (xs : List ℕ) → AllData xs → IsChain (entry off d) xs → IsChain (entry off d') xs
    chain_kept [] a ch = tt
    chain_kept (x ∷ []) a ch = rw (entries_kept x a.0.1) ch
    chain_kept (x ∷ y ∷ ys) a ch =
        (entries_kept x a.0.1 ∙ ch.0, ch.1, ch.2, chain_kept (y ∷ ys) a.1 ch.3)
