-- ===== src/Fs/Dealloc.antt =====
-- src/fs.rs: `dealloc_cluster`, and that it undoes `alloc_cluster`.
use fat32_rs.Base.{
  ℕ, suc, ◌+◌, ◌-◌, ◌^◌, ◌≤◌, ◌<◌, ◌≡◌, ◌⊎◌, inl, inr, refl, arith, done, ap, ◌∙◌, sym, List, [],
  ◌∷◌, ◌++◌, drop, All, ◌∉◌, length, some, ne→==,
}
use native.Mathlib.Decide.{ℕ_discrete}
use mathlib.Core.List.{append_assoc, append-nil}
use fat32_rs.Bytes.{read_le_u32, read_le_u32-patch}
use fat32_rs.Disk.{Disk, store_self}
use fat32_rs.Bpb.{BiosParameterBlock}
use fat32_rs.Bpb.Geometry.{data_start}
use fat32_rs.Entry.Short.{ShortDirEntry}
use fat32_rs.Fat.{free_cluster, recycle}
use fat32_rs.Fat.Entries.{entry, set_entry, entry-set_self, entry-set_ne, set_entry_ne}
use fat32_rs.Fs.{FileSystem, alloc_cluster, dealloc_loop, dealloc_cluster}
use fat32_rs.Fs.Shape.{IsMounted, capacity, mounted-IsAligned, entry_block_bounds}
use fat32_rs.Fs.Pool.{Pool, IsFresh}
use fat32_rs.Fs.Alloc.{
  counted, entry-counted, counted_data, set_free_clusters_lem, alloc_cluster-Allocated,
}
use fat32_rs.Fs.Alloc.Step.{state, set_next_lem}

module _ (bpb : BiosParameterBlock) (off : ℕ) where
  -- The entries of the clusters are free, and all others and the data are as they were.
  pub record Freed (d : Disk) (cs : List ℕ) (d' : Disk) : Type 0 where
    pub freed : All (λ x. entry off d' x ≡ 0) cs
    pub same : (x : ℕ) → x ∉ cs → entry off d' x ≡ entry off d x
    pub data_same : (b : ℕ) → data_start bpb ≤ b → d' b ≡ d b

  -- A cluster is none of a list, or is free in both tables in which all of the list are.
  member_cases :
      (e f : ℕ → ℕ) (x : ℕ) (cs : List ℕ)
      → All (λ c. e c ≡ 0) cs
      → All (λ c. f c ≡ 0) cs
      → (x ∉ cs) ⊎ ((e x ≡ 0) × (f x ≡ 0))
  member_cases e f x [] a b = inl tt
  member_cases e f x (c ∷ cs) a b = elim (ℕ_discrete x c) [
    | yes p ↦ inr (ap e p ∙ a.0, ap f p ∙ b.0)
    | no ne ↦ elim (member_cases e f x cs a.1 b.1) [ inl out ↦ inl (ne, out) | inr z ↦ inr z ]
  ]

  module _ (m : IsMounted bpb off) where
    Freed-cons :
        (d d' : Disk) (c : ℕ) (cs : List ℕ)
        → c < capacity bpb
        → Freed (set_entry off d c free_cluster) cs d'
        → Freed d (c ∷ cs) d'
    Freed-cons d d' c cs h f = record {
      freed = (head, f.freed);
      same =
          λ x out. f.same x out.1 ∙ entry-set_ne off (mounted-IsAligned m) d c x free_cluster out.0;
      data_same = λ b k.
          let (l, u) = entry_block_bounds m c h in
          f.data_same b k ∙ set_entry_ne off (mounted-IsAligned m) d c free_cluster b (omega arith);
    }
      where
        head : entry off d' c ≡ 0
        head = elim (member_cases (entry off d') (entry off d') c cs f.freed f.freed) [
          | inl out ↦
              f.same c out ∙ entry-set_self off (mounted-IsAligned m) d c free_cluster (omega arith)
          | inr z ↦ z.0
        ]

    dealloc_loop-Freed :
        (free : ℕ) (root : ShortDirEntry) (d : Disk) (q cs : List ℕ)
        → All (λ c. c < capacity bpb) cs
        → (d' : Disk) × (dealloc_loop (state bpb off free root d q) cs
            ≡ done (state bpb off free root d' (q ++ cs)))
          × Freed d cs d'
    unfolding dealloc_loop recycle
    dealloc_loop-Freed free root d q [] a = (
      d,
      ap (λ z. done (state bpb off free root d z)) (sym (append-nil q)),
      record { freed = tt; same = λ x out. refl; data_same = λ b k. refl },
    )
    dealloc_loop-Freed free root d q (c ∷ cs) a =
        let (d', ran, f) =
          dealloc_loop-Freed free root (set_entry off d c free_cluster) (q ++ (c ∷ [])) cs a.1 in
        (
          d',
          rw (set_next_lem bpb off free root m d q c free_cluster) ran
              ∙ ap (λ z. done (state bpb off free root d' z)) (append_assoc q (c ∷ []) cs),
          Freed-cons d d' c cs a.0 f,
        )

    dealloc_cluster_run :
        (free : ℕ) (root : ShortDirEntry) (d d' : Disk) (q q' : List ℕ) (c : ℕ) (cs : List ℕ)
        → dealloc_loop (state bpb off free root d q) (c ∷ cs) ≡ done (state bpb off free root d' q')
        → dealloc_cluster (state bpb off free root d q) (c ∷ cs)
          ≡ done (
              state bpb off
                (free + length (c ∷ cs))
                root
                (counted bpb off d' (free + length (c ∷ cs)))
                q')
    unfolding dealloc_cluster
    dealloc_cluster_run free root d d' q q' c cs ran = rw (
      ne→== (length (c ∷ cs)) 0 (omega arith),
      ran,
      set_free_clusters_lem bpb off m free root d' q' (free + length (c ∷ cs)),
    )

    Freed-counted :
        (d d' : Disk) (cs : List ℕ) (n : ℕ) → Freed d cs d' → Freed d cs (counted bpb off d' n)
    Freed-counted d d' cs n f = record {
      freed = freed_all cs f.freed;
      same = λ x out. entry-counted bpb off m d' n x ∙ f.same x out;
      data_same = λ b k. counted_data bpb off m d' n b k ∙ f.data_same b k;
    }
      where
        freed_all :
            (xs : List ℕ)
            → All (λ x. entry off d' x ≡ 0) xs
            → All (λ x. entry off (counted bpb off d' n) x ≡ 0) xs
        freed_all [] a = tt
        freed_all (x ∷ xs) a = (entry-counted bpb off m d' n x ∙ a.0, freed_all xs a.1)

    -- `dealloc_cluster` of clusters of the table returns: it frees their entries, keeps every other
    -- entry and all data, puts the clusters at the end of the queue in their order, and counts them
    -- free, in memory and, if the count has 32 bits, on disk.
    pub dealloc_cluster-Freed :
        (free : ℕ) (root : ShortDirEntry) (d : Disk) (q : List ℕ) (c : ℕ) (cs : List ℕ)
        → All (λ x. x < capacity bpb) (c ∷ cs)
        → (d' : Disk) × (dealloc_cluster (state bpb off free root d q) (c ∷ cs)
            ≡ done (state bpb off (free + length (c ∷ cs)) root d' (q ++ c ∷ cs)))
          × Freed d (c ∷ cs) d'
          × (free + length (c ∷ cs) < 2 ^ 32
              → read_le_u32 (d' bpb.bpb32.fs_info) 488 ≡ free + length (c ∷ cs))
    dealloc_cluster-Freed free root d q c cs a =
        let (d', ran, f) = dealloc_loop-Freed free root d q (c ∷ cs) a in
        (
          counted bpb off d' (free + length (c ∷ cs)),
          dealloc_cluster_run free root d d' q (q ++ c ∷ cs) c cs ran,
          Freed-counted d d' (c ∷ cs) (free + length (c ∷ cs)) f,
          λ l.
              ap (λ g. read_le_u32 g 488) (store_self d' bpb.bpb32.fs_info _)
              ∙ read_le_u32-patch (d' bpb.bpb32.fs_info) 488 _ l,
        )

    fresh_in_table :
        (e : ℕ → ℕ) (cs : List ℕ)
        → All (IsFresh (capacity bpb) e) cs
        → All (λ x. x < capacity bpb) cs × All (λ x. e x ≡ 0) cs
    fresh_in_table e [] a = (tt, tt)
    fresh_in_table e (c ∷ cs) a =
        let (t, f) = fresh_in_table e cs a.1 in ((a.0.in_table, t), (a.0.free, f))

    -- Freeing the chain that `alloc_cluster` made restores every entry of the table and the count of
    -- free clusters; the clusters wait at the end of the queue.
    pub dealloc_cluster-alloc_cluster :
        (free : ℕ) (root : ShortDirEntry) (fuel n : ℕ) (d : Disk) (q : List ℕ) (start w k : ℕ)
        → Pool (capacity bpb) (entry off d) q start w k (suc n)
        → suc n ≤ free
        → capacity bpb ≤ fuel
        → (first : ℕ) × (cs : List ℕ) × (fs1 : FileSystem) × (d2 : Disk) × (alloc_cluster fuel
              (state bpb off free root d q)
              (suc n)
              start
            ≡ done (some first, fs1))
          × (dealloc_cluster fs1 (first ∷ cs)
              ≡ done (state bpb off free root d2 (drop (suc n) q ++ first ∷ cs)))
          × ((x : ℕ) → x < capacity bpb → entry off d2 x ≡ entry off d x)
    dealloc_cluster-alloc_cluster free root fuel n d q start w k p h l =
        let (first, cs, d1, ran, al) =
          alloc_cluster-Allocated bpb off m free root fuel n d q start w k p h l in
        let (t, z) = fresh_in_table (entry off d) (first ∷ cs) al.fresh in
        let (d2, ran2, f, r) =
          dealloc_cluster-Freed (free - suc n) root d1 (drop (suc n) q) first cs t in
        let back : free - suc n + length (first ∷ cs) ≡ free = omega (arith, al.count) in
        (
          first,
          cs,
          state bpb off (free - suc n) root d1 (drop (suc n) q),
          d2,
          ran,
          ran2 ∙ ap (λ k. done (state bpb off k root d2 (drop (suc n) q ++ first ∷ cs))) back,
          λ x h. elim (member_cases (entry off d) (entry off d2) x (first ∷ cs) z f.freed) [
            | inl out ↦ f.same x out ∙ al.same x h out
            | inr both ↦ both.1 ∙ sym both.0
          ],
        )
