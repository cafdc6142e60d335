-- ===== src/Fs/Alloc/Loop.antt =====
-- src/fs.rs: the loop of `alloc_cluster` and the write of the end mark behind it.
use fat32_rs.Base.{
  ℕ, zero, suc, ◌≤◌, ◌<◌, ◌≡◌, ◌≢◌, refl, arith, done, ap, ◌∙◌, sym, List, [], ◌∷◌, drop, All, ◌∉◌,
  Distinct, length,
}
use mathlib.Core.Path.{subst}
use fat32_rs.Disk.{Disk}
use fat32_rs.Bpb.{BiosParameterBlock}
use fat32_rs.Bpb.Geometry.{data_start}
use fat32_rs.Entry.Short.{ShortDirEntry}
use fat32_rs.Fat.{end_of_cluster}
use fat32_rs.Fat.Entries.{entry, set_entry, entry-set_self, entry-set_ne, set_entry_ne}
use fat32_rs.Fat.Walk.{IsChain}
use fat32_rs.Fs.{FileSystem, alloc_loop, set_next, fresh_cluster}
use fat32_rs.Fs.Shape.{IsMounted, capacity, mounted-IsAligned, entry_block_bounds}
use fat32_rs.Fs.Pool.{Pool, IsFresh}
use fat32_rs.Fs.Alloc.Step.{
  Outside, Inside, Inside-Outside, state, Stepped, Stepped-of_Drawn, set_next_lem,
  fresh_cluster-Drawn,
}

pub drop-suc {ℓ} : {A : Type ℓ} (n : ℕ) (xs : List A) → drop n (drop 1 xs) ≡ drop (suc n) xs
drop-suc zero [] = refl
drop-suc (suc n) [] = refl
drop-suc n (x ∷ xs) = refl

module _ (bpb : BiosParameterBlock) (off : ℕ) where
  -- A chain that goes on from the free cluster `curr`: its `n` further clusters were blank, are
  -- linked in order, end the chain and are zeroed; all else is as it was.
  pub record Chained (d : Disk) (curr n : ℕ) (cs : List ℕ) (d' : Disk) : Type 0 where
    pub count : length cs ≡ n
    pub chain : IsChain (entry off d') (curr ∷ cs)
    pub fresh : All (IsFresh (capacity bpb) (entry off d)) cs
    pub distinct : Distinct (curr ∷ cs)
    pub same : (x : ℕ) → x < capacity bpb → x ∉ (curr ∷ cs) → entry off d' x ≡ entry off d x
    pub data_same : (b : ℕ) → data_start bpb ≤ b → All (Outside bpb b) cs → d' b ≡ d b
    pub zeroed : All (λ c. (b i : ℕ) → Inside bpb b c → i < 512 → d' b i ≡ 0) cs

  fresh-ne_used :
      (e : ℕ → ℕ) (s : ℕ) (cs : List ℕ) → e s ≢ 0 → All (IsFresh (capacity bpb) e) cs → s ∉ cs
  fresh-ne_used e s [] h a = tt
  fresh-ne_used e s (c ∷ cs) h a = ((λ p. h (ap e p ∙ a.0.free)), fresh-ne_used e s cs h a.1)

  pub IsFresh-ext :
      (e f : ℕ → ℕ) (s : ℕ) (cs : List ℕ)
      → ((x : ℕ) → x < capacity bpb → x ≢ s → f x ≡ e x)
      → s ∉ cs
      → All (IsFresh (capacity bpb) f) cs
      → All (IsFresh (capacity bpb) e) cs
  IsFresh-ext e f s [] same out a = tt
  IsFresh-ext e f s (c ∷ cs) same out a = (
    record {
      free = sym (same c a.0.in_table (λ p. out.0 (sym p))) ∙ a.0.free;
      two = a.0.two;
      in_table = a.0.in_table;
      small = a.0.small;
    },
    IsFresh-ext e f s cs same out.1 a.1,
  )

  pub All-Outside :
      (e : ℕ → ℕ) (b c : ℕ) (cs : List ℕ)
      → 2 ≤ c
      → Inside bpb b c
      → c ∉ cs
      → All (IsFresh (capacity bpb) e) cs
      → All (Outside bpb b) cs
  All-Outside e b c [] h ins out a = tt
  All-Outside e b c (x ∷ cs) h ins out a =
      (Inside-Outside bpb b c x h a.0.two out.0 ins, All-Outside e b c cs h ins out.1 a.1)

  module _ (m : IsMounted bpb off) where
    Chained-end :
        (d : Disk) (curr : ℕ)
        → curr < capacity bpb
        → Chained d curr 0 [] (set_entry off d curr end_of_cluster)
    Chained-end d curr h = record {
      count = refl;
      chain =
          omega
            (arith, entry-set_self off (mounted-IsAligned m) d curr end_of_cluster (omega arith));
      fresh = tt;
      distinct = (tt, tt);
      same = λ x k out. entry-set_ne off (mounted-IsAligned m) d curr x end_of_cluster out.0;
      data_same = λ b k a.
          let (l, u) = entry_block_bounds m curr h in
          set_entry_ne off (mounted-IsAligned m) d curr end_of_cluster b (omega arith);
      zeroed = tt;
    }

    Chained-cons :
        (d d2 d3 : Disk) (q : List ℕ) (curr w n c : ℕ) (cs : List ℕ) (free : ℕ)
        (root : ShortDirEntry)
        → curr < capacity bpb
        → Stepped bpb off free root d q curr w n c d2
        → Chained d2 c n cs d3
        → Chained d curr (suc n) (c ∷ cs) d3
    Chained-cons d d2 d3 q curr w n c cs free root h s r = record {
      count = ap suc r.count;
      chain = (
        r.same curr h ((λ p. s.ne (sym p)), out) ∙ s.linked,
        s.fresh.two,
        s.fresh.small,
        r.chain,
      );
      fresh = (s.fresh, IsFresh-ext (entry off d) (entry off d2) curr cs s.same out r.fresh);
      distinct = (((λ p. s.ne (sym p)), out), r.distinct);
      same = λ x k o. r.same x k o.1 ∙ s.same x k o.0;
      data_same = λ b k a. r.data_same b k a.1 ∙ s.data_same b k a.0;
      zeroed = (
        λ b i ins k.
            ap (λ f. f i)
              (r.data_same b (omega (arith, ins.0))
                (All-Outside (entry off d2) b c cs s.fresh.two ins r.distinct.0 r.fresh))
            ∙ s.zeroed b i ins k,
        r.zeroed,
      );
    }
      where
        used : entry off d2 curr ≢ 0
        used = omega (arith, s.linked, s.fresh.two)

        out : curr ∉ cs
        out = fresh-ne_used (entry off d2) curr cs used r.fresh

    alloc_loop_zero :
        (free : ℕ) (root : ShortDirEntry) (fuel : ℕ) (d : Disk) (q : List ℕ) (curr : ℕ)
        → alloc_loop fuel (state bpb off free root d q) curr 0
          ≡ done (curr, state bpb off free root d q)
    unfolding alloc_loop
    alloc_loop_zero free root fuel d q curr = refl

    alloc_loop_step :
        (free : ℕ) (root : ShortDirEntry) (fuel n : ℕ) (d d1 : Disk) (q q1 : List ℕ) (curr c : ℕ)
        (r : ℕ × FileSystem)
        → fresh_cluster fuel (state bpb off free root d q) curr
          ≡ done (c, state bpb off free root d1 q1)
        → alloc_loop fuel (state bpb off free root (set_entry off d1 curr c) q1) c n ≡ done r
        → alloc_loop fuel (state bpb off free root d q) curr (suc n) ≡ done r
    unfolding alloc_loop
    alloc_loop_step free root fuel n d d1 q q1 curr c r ran rest =
        rw (ran, set_next_lem bpb off free root m d1 q1 curr c) rest

    -- The loop and the write of the end mark return, and extend the chain by `n` clusters.
    pub alloc_loop-Chained :
        (free : ℕ) (root : ShortDirEntry) (fuel n : ℕ) (d : Disk) (q : List ℕ) (curr w k : ℕ)
        → Pool (capacity bpb) (entry off d) q curr w k n
        → 2 ≤ curr
        → curr < capacity bpb
        → capacity bpb ≤ fuel
        → (cs : List ℕ) × (last : ℕ) × (d' : Disk) × (d3 : Disk) × (alloc_loop fuel
              (state bpb off free root d q)
              curr
              n
            ≡ done (last, state bpb off free root d' (drop n q)))
          × (set_next (state bpb off free root d' (drop n q)) last end_of_cluster
              ≡ done (state bpb off free root d3 (drop n q)))
          × Chained d curr n cs d3
    alloc_loop-Chained free root fuel zero d q curr w k p two h l = (
      [],
      curr,
      d,
      set_entry off d curr end_of_cluster,
      alloc_loop_zero free root fuel d q curr,
      set_next_lem bpb off free root m d q curr end_of_cluster,
      Chained-end d curr h,
    )
    alloc_loop-Chained free root fuel (suc n) d q curr w k p two h l =
        let (c, d1, ran, dr, cl) =
          fresh_cluster-Drawn bpb off free root m fuel d q curr w k n p (omega (arith, p.top)) in
        let s =
          Stepped-of_Drawn bpb off free root m d d1 q curr w n c two h p.below p.apart dr cl in
        let (cs, last, d', d3, ran1, ran2, r) =
          alloc_loop-Chained free root fuel n (set_entry off d1 curr c) (drop 1 q) c s.w' s.k'
            s.pool s.fresh.two s.fresh.in_table l in
        let same : drop n (drop 1 q) ≡ drop (suc n) q = drop-suc n q in
        (
          c ∷ cs,
          last,
          d',
          d3,
          alloc_loop_step free root fuel n d d1 q (drop 1 q) curr c
              (last, state bpb off free root d' (drop (suc n) q)) ran
              (ran1 ∙ ap (λ z. done (last, state bpb off free root d' z)) same),
          subst
              (λ z.
                set_next (state bpb off free root d' z) last end_of_cluster
                ≡ done (state bpb off free root d3 z))
              same ran2,
          Chained-cons d (set_entry off d1 curr c) d3 q curr w n c cs free root h s r,
        )
