-- ===== src/Fs/Alloc.antt =====
-- src/fs.rs: `alloc_cluster` builds a chain of blank clusters.
pub mod Step
pub mod Loop
use fat32_rs.Base.{
  ℕ, zero, suc, ◌+◌, ◌-◌, ◌*◌, ◌/◌, ◌%◌, ◌^◌, ◌≤◌, ◌<◌, ◌≡◌, ◌≢◌, ◌⊎◌, inl, inr, refl, arith,
  Outcome, done, ap, ◌∙◌, sym, ◌==◌, if◌then◌else◌, List, [], ◌∷◌, drop, All, ◌∉◌, Distinct, length,
  Option, some, none, ltb, le→ltb, lt→ltb,
}
use fat32_rs.Bytes.{read_le_u32, le_u32, patch, read_le_u32-patch}
use fat32_rs.Disk.{Disk, store, modify-done, store_self, store_ne}
use fat32_rs.Bpb.{BiosParameterBlock}
use fat32_rs.Bpb.Geometry.{data_start, cluster_start}
use fat32_rs.Entry.Short.{ShortDirEntry}
use fat32_rs.Fat.{end_of_cluster}
use fat32_rs.Fat.Entries.{entry, set_entry, entry_block, entry_same}
use fat32_rs.Fat.Walk.{IsChain}
use fat32_rs.Fs.{FileSystem, fresh_cluster, alloc_loop, set_next, alloc_cluster, set_free_clusters}
use fat32_rs.Fs.Shape.{IsMounted, capacity, mounted-IsAligned}
use fat32_rs.Fs.Pool.{Pool, IsFresh}
use fat32_rs.Fs.Clear.{Cleared}
use fat32_rs.Fs.Alloc.Step.{
  Outside, Inside, Inside-Outside, state, Pool-ext, fresh_cluster-Drawn, table_kept,
}
use fat32_rs.Fs.Alloc.Loop.{Chained, alloc_loop-Chained, drop-suc, All-Outside, IsFresh-ext}

module _ (bpb : BiosParameterBlock) (off : ℕ) where
  -- What a successful allocation of `num` clusters has done to the disk.
  pub record Allocated (d : Disk) (num free' first : ℕ) (cs : List ℕ) (d' : Disk) : Type 0 where
    pub count : length (first ∷ cs) ≡ num
    pub chain : IsChain (entry off d') (first ∷ cs)
    pub fresh : All (IsFresh (capacity bpb) (entry off d)) (first ∷ cs)
    pub distinct : Distinct (first ∷ cs)
    pub same : (x : ℕ) → x < capacity bpb → x ∉ (first ∷ cs) → entry off d' x ≡ entry off d x
    pub data_same : (b : ℕ) → data_start bpb ≤ b → All (Outside bpb b) (first ∷ cs) → d' b ≡ d b
    pub zeroed : All (λ c. (b i : ℕ) → Inside bpb b c → i < 512 → d' b i ≡ 0) (first ∷ cs)
    pub recorded : free' < 2 ^ 32 → read_le_u32 (d' bpb.bpb32.fs_info) 488 ≡ free'

  -- FSInfo with a new count.
  abbrev pub counted : Disk → ℕ → Disk
  counted d n = store d bpb.bpb32.fs_info (patch (d bpb.bpb32.fs_info) 488 (le_u32 n))

  module _ (m : IsMounted bpb off) where
    pub set_free_clusters_lem :
        (free : ℕ) (root : ShortDirEntry) (d : Disk) (q : List ℕ) (n : ℕ)
        → set_free_clusters (state bpb off free root d q) n
          ≡ done (state bpb off n root (counted d n) q)
    unfolding set_free_clusters
    set_free_clusters_lem free root d q n =
        rw (modify-done d bpb.bpb32.fs_info 488 (le_u32 n) (omega arith))

    -- FSInfo lies before the table and the data.
    pub entry-counted : (d : Disk) (n x : ℕ) → entry off (counted d n) x ≡ entry off d x
    entry-counted d n x =
        entry_same off (mounted-IsAligned m) d (counted d n) x
          (store_ne d bpb.bpb32.fs_info _ (entry_block off x) (omega (arith, m.info, m.table)))

    pub counted_data : (d : Disk) (n b : ℕ) → data_start bpb ≤ b → counted d n b ≡ d b
    counted_data d n b h = store_ne d bpb.bpb32.fs_info _ b (omega (arith, m.info))

    IsChain-ext : (e f : ℕ → ℕ) (cs : List ℕ) → ((x : ℕ) → f x ≡ e x) → IsChain e cs → IsChain f cs
    IsChain-ext e f [] same ch = tt
    IsChain-ext e f (x ∷ []) same ch = rw (same x) ch
    IsChain-ext e f (x ∷ y ∷ ys) same ch =
        (same x ∙ ch.0, ch.1, ch.2, IsChain-ext e f (y ∷ ys) same ch.3)

    -- The pool that the first cluster leaves, after its sectors were cleared.
    first-Pool :
        (d d1 : Disk) (q : List ℕ) (c w k n : ℕ)
        → Pool (capacity bpb) (entry off d) q c w k n
        → 2 ≤ c
        → Cleared d (cluster_start bpb c) bpb.basic_bpb.sec_per_clus d1
        → Pool (capacity bpb) (entry off d1) q c w k n
    first-Pool d d1 q c w k n p h cl =
        Pool-ext (capacity bpb) (entry off d) (entry off d1) c q c w k n
          (λ x l ne. table_kept m d d1 c x cl l) h p.below p.apart p

    alloc_cluster_run :
        (free : ℕ) (root : ShortDirEntry) (fuel num start first last : ℕ) (d d1 d2 d3 : Disk)
        (q q1 q2 : List ℕ)
        → num ≤ free
        → fresh_cluster fuel (state bpb off free root d q) start
          ≡ done (first, state bpb off free root d1 q1)
        → alloc_loop fuel (state bpb off free root d1 q1) first (num - 1)
          ≡ done (last, state bpb off free root d2 q2)
        → set_next (state bpb off free root d2 q2) last end_of_cluster
          ≡ done (state bpb off free root d3 q2)
        → alloc_cluster fuel (state bpb off free root d q) num start
          ≡ done (some first, state bpb off (free - num) root (counted d3 (free - num)) q2)
    unfolding alloc_cluster
    alloc_cluster_run free root fuel num start first last d d1 d2 d3 q q1 q2 h a b c =
        rw (le→ltb free num h, a, b, c, set_free_clusters_lem free root d3 q2 (free - num))

    Allocated-of_Chained :
        (d d1 d3 : Disk) (q : List ℕ) (num free' first : ℕ) (cs : List ℕ)
        → IsFresh (capacity bpb) (entry off d) first
        → Cleared d (cluster_start bpb first) bpb.basic_bpb.sec_per_clus d1
        → Chained bpb off d1 first num cs d3
        → Allocated d (suc num) free' first cs (counted d3 free')
    Allocated-of_Chained d d1 d3 q num free' first cs f cl r = record {
      count = ap suc r.count;
      chain =
          IsChain-ext (entry off d3) (entry off (counted d3 free')) (first ∷ cs)
            (entry-counted d3 free') r.chain;
      fresh = (
        f,
        IsFresh-ext bpb off (entry off d) (entry off d1) first cs
            (λ x l ne. table_kept m d d1 first x cl l) r.distinct.0 r.fresh,
      );
      distinct = r.distinct;
      same = λ x l o. entry-counted d3 free' x ∙ r.same x l o ∙ table_kept m d d1 first x cl l;
      data_same = λ b l a. counted_data d3 free' b l ∙ r.data_same b l a.1 ∙ cl.same b a.0;
      zeroed = (
        λ b i ins l.
            ap (λ g. g i)
              (counted_data d3 free' b (omega (arith, ins.0))
                ∙ r.data_same b (omega (arith, ins.0))
                    (All-Outside bpb off (entry off d1) b first cs f.two ins r.distinct.0 r.fresh))
            ∙ cl.zeroed b i ins.0 ins.1 l,
        zeroed_rest cs r.zeroed,
      );
      recorded = λ l.
          ap (λ g. read_le_u32 g 488) (store_self d3 bpb.bpb32.fs_info _)
          ∙ read_le_u32-patch (d3 bpb.bpb32.fs_info) 488 free' l;
    }
      where
        zeroed_rest :
            (xs : List ℕ)
            → All (λ c. (b i : ℕ) → Inside bpb b c → i < 512 → d3 b i ≡ 0) xs
            → All (λ c. (b i : ℕ) → Inside bpb b c → i < 512 → counted d3 free' b i ≡ 0) xs
        zeroed_rest [] a = tt
        zeroed_rest (x ∷ xs) a = (
          λ b i ins l.
              ap (λ g. g i) (counted_data d3 free' b (omega (arith, ins.0))) ∙ a.0 b i ins l,
          zeroed_rest xs a.1,
        )

    -- With `n + 1` clusters counted free, a pool that has that many, and fuel for the table,
    -- `alloc_cluster` returns the first of a chain of that many different clusters. All of them were
    -- free and are now zeroed, and linked up to an end mark; every other entry of the table and every
    -- block of another cluster is as before; the recycled ones are taken in order; and the count of
    -- free clusters falls by that number, in memory and, if it has 32 bits, on disk.
    pub alloc_cluster-Allocated :
        (free : ℕ) (root : ShortDirEntry) (fuel n : ℕ) (d : Disk) (q : List ℕ) (start w k : ℕ)
        → Pool (capacity bpb) (entry off d) q start w k (suc n)
        → suc n ≤ free
        → capacity bpb ≤ fuel
        → (first : ℕ) × (cs : List ℕ) × (d' : Disk) × (alloc_cluster fuel
              (state bpb off free root d q)
              (suc n)
              start
            ≡ done (some first, state bpb off (free - suc n) root d' (drop (suc n) q)))
          × Allocated d (suc n) (free - suc n) first cs d'
    alloc_cluster-Allocated free root fuel n d q start w k p h l =
        let (first, d1, ran, dr, cl) =
          fresh_cluster-Drawn bpb off free root m fuel d q start w k n p (omega (arith, p.top)) in
        let p1 = first-Pool d d1 (drop 1 q) first dr.w' dr.k' n dr.pool dr.fresh.two cl in
        let (cs, last, d2, d3, ran1, ran2, r) =
          alloc_loop-Chained bpb off m free root fuel n d1 (drop 1 q) first dr.w' dr.k' p1
            dr.fresh.two dr.fresh.in_table l in
        let rounds : suc n - 1 ≡ n = omega arith in
        (
          first,
          cs,
          counted d3 (free - suc n),
          alloc_cluster_run free root fuel (suc n) start first last d d1 d2 d3 q (drop 1 q)
                (drop n (drop 1 q)) h ran
                (ap (alloc_loop fuel (state bpb off free root d1 (drop 1 q)) first) rounds ∙ ran1)
                ran2
              ∙ ap
                  (λ z.
                    done
                      (some first, state bpb off (free - suc n) root (counted d3 (free - suc n)) z))
                  (drop-suc n q),
          Allocated-of_Chained d d1 d3 q n (free - suc n) first cs dr.fresh cl r,
        )

-- With fewer clusters counted free than asked for, `alloc_cluster` gives none and changes nothing.
pub alloc_cluster-none :
    (fuel : ℕ) (fs : FileSystem) (num start : ℕ)
    → fs.free_cluster_cnt < num
    → alloc_cluster fuel fs num start ≡ done (none, fs)
unfolding alloc_cluster
alloc_cluster-none fuel fs num start h = rw (lt→ltb fs.free_cluster_cnt num h)
