-- ===== src/Fs/Alloc/Step.antt =====
-- src/fs.rs: one cluster of `alloc_cluster`: `fresh_cluster`, then `set_next`.
use fat32_rs.Base.{
  ℕ, suc, ◌+◌, ◌-◌, ◌≤◌, ◌<◌, ◌≡◌, ◌≢◌, ◌⊎◌, inl, inr, arith, done, ap, ◌∙◌, sym, List, [], ◌∷◌,
  drop, All, ◌∉◌, le→leb, ◌>>=◌,
}
use native.Mathlib.Decide.{dec_lt}
use fat32_rs.Disk.{Disk}
use fat32_rs.Bpb.{BiosParameterBlock}
use fat32_rs.Bpb.Geometry.{data_start, cluster_start, mul_le}
use fat32_rs.Entry.Short.{ShortDirEntry}
use fat32_rs.Fat.Entries.{
  entry, set_entry, entry_block, entry_same, entry-set_self, entry-set_ne, set_entry_ne,
  set_next_cluster_lem,
}
use fat32_rs.Fs.{FileSystem, fresh_cluster, set_next}
use fat32_rs.Fs.Shape.{IsMounted, capacity, mounted-IsAligned, entry_block_bounds}
use fat32_rs.Fs.Clear.{Cleared, clear_cluster-Cleared}
use fat32_rs.Fs.Pool.{Pool, IsFresh, Drawn, blank_cluster-Drawn, free_count_ext}

-- A block lies outside a cluster.
abbrev pub Outside : BiosParameterBlock → ℕ → ℕ → Type 0
Outside bpb b c = (b < cluster_start bpb c) ⊎ (cluster_start bpb c + bpb.basic_bpb.sec_per_clus ≤ b)

-- A block lies in one.
abbrev pub Inside : BiosParameterBlock → ℕ → ℕ → Type 0
Inside bpb b c = (cluster_start bpb c ≤ b) × (b < cluster_start bpb c + bpb.basic_bpb.sec_per_clus)

-- Clusters do not overlap.
pub Inside-Outside :
    (bpb : BiosParameterBlock) (b c x : ℕ)
    → 2 ≤ c
    → 2 ≤ x
    → c ≢ x
    → Inside bpb b c
    → Outside bpb b x
Inside-Outside bpb b c x h k ne i = elim (dec_lt c x) [
  | yes l ↦ inl (
      omega (
        arith,
        mul_le (c - 2 + 1) bpb.basic_bpb.sec_per_clus (x - 2) bpb.basic_bpb.sec_per_clus
            (omega arith) (omega arith),
      ))
  | no g ↦ inr (
      omega (
        arith,
        mul_le (x - 2 + 1) bpb.basic_bpb.sec_per_clus (c - 2) bpb.basic_bpb.sec_per_clus
            (omega arith) (omega arith),
      ))
]

queue_ext :
    (cap : ℕ) (e f : ℕ → ℕ) (s w : ℕ) (q : List ℕ)
    → ((x : ℕ) → x < cap → x ≢ s → f x ≡ e x)
    → w ≤ cap
    → s ∉ q
    → All (λ x. (e x ≡ 0) × (x < w)) q
    → All (λ x. (f x ≡ 0) × (x < w)) q
queue_ext cap e f s w [] same h out a = tt
queue_ext cap e f s w (x ∷ q) same h out a = (
  (same x (omega (arith, a.0.1)) (λ p. out.0 (sym p)) ∙ a.0.0, a.0.1),
  queue_ext cap e f s w q same h out.1 a.1,
)

-- A pool stays one when a used cluster that is in none of its parts changes.
pub Pool-ext :
    (cap : ℕ) (e f : ℕ → ℕ) (s : ℕ) (q : List ℕ) (curr w k n : ℕ)
    → ((x : ℕ) → x < cap → x ≢ s → f x ≡ e x)
    → 2 ≤ s
    → s < w
    → s ∉ q
    → Pool cap e q curr w k n
    → Pool cap f q curr w k n
Pool-ext cap e f s q curr w k n same two h out p = record {
  zero_reserved = λ z. p.zero_reserved (sym (same 0 (omega (arith, p.top)) (omega arith)) ∙ z);
  one_reserved = λ z. p.one_reserved (sym (same 1 (omega (arith, p.top)) (omega arith)) ∙ z);
  queue = queue_ext cap e f s w q same (omega (arith, p.top)) out p.queue;
  distinct = p.distinct;
  apart = p.apart;
  below = p.below;
  top = p.top;
  small = p.small;
  enough = omega (
    arith,
    p.enough,
    free_count_ext e f w k (λ m a b. same m (omega (arith, p.top)) (omega arith)),
  );
}

not-mem-drop : (s : ℕ) (q : List ℕ) → s ∉ q → s ∉ drop 1 q
not-mem-drop s [] h = tt
not-mem-drop s (x ∷ q) h = h.1

module _ {bpb : BiosParameterBlock} {off : ℕ} (m : IsMounted bpb off) where
  -- Clearing a cluster leaves the table.
  pub table_kept :
      (d d1 : Disk) (c x : ℕ)
      → Cleared d (cluster_start bpb c) bpb.basic_bpb.sec_per_clus d1
      → x < capacity bpb
      → entry off d1 x ≡ entry off d x
  table_kept d d1 c x cl h =
      let (a, b) = entry_block_bounds m x h in
      entry_same off (mounted-IsAligned m) d d1 x (cl.same (entry_block off x) (inl (omega arith)))

module _ (bpb : BiosParameterBlock) (off : ℕ) (free : ℕ) (root : ShortDirEntry) where
  -- A state of the file system in which only the disk and the queue differ.
  abbrev pub state : Disk → List ℕ → FileSystem
  state d q = record {
    disk = d;
    free_cluster_cnt = free;
    bpb = bpb;
    fat = record { recycled_cluster = q; fat1_offset = off };
    root_dir_entry = root;
  }

  -- What one step does: from the pool at `d` it takes `c`, clears it and links `curr` to it.
  pub record Stepped (d : Disk) (q : List ℕ) (curr w n c : ℕ) (d2 : Disk) : Type 0 where
    pub fresh : IsFresh (capacity bpb) (entry off d) c
    pub ne : c ≢ curr
    pub linked : entry off d2 curr ≡ c
    pub same : (x : ℕ) → x < capacity bpb → x ≢ curr → entry off d2 x ≡ entry off d x
    pub data_same : (b : ℕ) → data_start bpb ≤ b → Outside bpb b c → d2 b ≡ d b
    pub zeroed : (b i : ℕ) → Inside bpb b c → i < 512 → d2 b i ≡ 0
    pub w' : ℕ
    pub k' : ℕ
    pub pool : Pool (capacity bpb) (entry off d2) (drop 1 q) c w' k' n

  module _ (m : IsMounted bpb off) where
    pub set_next_lem :
        (d : Disk) (q : List ℕ) (c v : ℕ)
        → set_next (state d q) c v ≡ done (state (set_entry off d c v) q)
    unfolding set_next
    set_next_lem d q c v =
        ap (λ r. r >>= λ d'. done (state d' q))
          (set_next_cluster_lem (record { recycled_cluster = q; fat1_offset = off })
            (mounted-IsAligned m) d c v)

    pub fresh_cluster-Drawn :
        (fuel : ℕ) (d : Disk) (q : List ℕ) (curr w k n : ℕ)
        → Pool (capacity bpb) (entry off d) q curr w k (suc n)
        → w + k ≤ fuel
        → (c : ℕ) × (d1 : Disk) × (fresh_cluster fuel (state d q) curr
            ≡ done (c, state d1 (drop 1 q)))
          × Drawn (capacity bpb) (entry off d) q curr w n c
          × Cleared d (cluster_start bpb c) bpb.basic_bpb.sec_per_clus d1
    unfolding fresh_cluster
    fresh_cluster-Drawn fuel d q curr w k n p h =
        let (c, ran, dr) =
          blank_cluster-Drawn (capacity bpb) d off (mounted-IsAligned m) fuel q curr w k n p h in
        let (d1, ran1, cl) =
          clear_cluster-Cleared (state d (drop 1 q)) c m.volume dr.fresh.two
            (omega (arith, dr.fresh.small)) in
        (c, d1, rw (ran, le→leb 2 c dr.fresh.two, ran1), dr, cl)

    pub Stepped-of_Drawn :
        (d d1 : Disk) (q : List ℕ) (curr w n c : ℕ)
        → 2 ≤ curr
        → curr < capacity bpb
        → curr < w
        → curr ∉ q
        → Drawn (capacity bpb) (entry off d) q curr w n c
        → Cleared d (cluster_start bpb c) bpb.basic_bpb.sec_per_clus d1
        → Stepped d q curr w n c (set_entry off d1 curr c)
    Stepped-of_Drawn d d1 q curr w n c two h below out dr cl = record {
      fresh = dr.fresh;
      ne = dr.ne;
      linked = entry-set_self off (mounted-IsAligned m) d1 curr c (omega (arith, dr.fresh.small));
      same = same;
      data_same = λ b k o. kept b k ∙ cl.same b o;
      zeroed =
          λ b i ins k. ap (λ f. f i) (kept b (omega (arith, ins.0))) ∙ cl.zeroed b i ins.0 ins.1 k;
      w' = dr.w';
      k' = dr.k';
      pool =
          Pool-ext (capacity bpb) (entry off d) _ curr (drop 1 q) c dr.w' dr.k' n same two
            (omega (arith, dr.grows)) (not-mem-drop curr q out) dr.pool;
    }
      where
        same :
            (x : ℕ)
            → x < capacity bpb
            → x ≢ curr
            → entry off (set_entry off d1 curr c) x ≡ entry off d x
        same x k ne =
            entry-set_ne off (mounted-IsAligned m) d1 curr x c ne ∙ table_kept m d d1 c x cl k

        kept : (b : ℕ) → data_start bpb ≤ b → set_entry off d1 curr c b ≡ d1 b
        kept b k =
            let (a, l) = entry_block_bounds m curr h in
            set_entry_ne off (mounted-IsAligned m) d1 curr c b (omega arith)
