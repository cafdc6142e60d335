-- ===== src/Vfs/Grow.antt =====
-- src/vfs.rs: `incerase_size` gives a file more clusters.
pub mod Lists
pub mod Run
pub mod Linked
pub mod First
pub mod Start
pub mod Room
use fat32_rs.Base.{
  ℕ, suc, ◌+◌, ◌-◌, ◌*◌, ◌^◌, ◌%◌, ◌≤◌, ◌<◌, ◌≡◌, inl, refl, arith, ap, sym, ◌∙◌, List, ◌∷◌, ◌++◌,
  length, length-append, drop, All, ◌∉◌, done,
}
use mathlib.Core.Path.{subst}
use fat32_rs.Disk.{Disk}
use fat32_rs.Bpb.{BiosParameterBlock}
use fat32_rs.Bpb.Geometry.{data_start}
use fat32_rs.Entry.{file}
use fat32_rs.Entry.Short.{ShortDirEntry}
use fat32_rs.Fat.{end_of_cluster}
use fat32_rs.Fat.Entries.{entry}
use fat32_rs.Fs.{FileSystem, count_needed_clusters, cluster_size}
use fat32_rs.Fs.Shape.{capacity, mounted-IsAligned}
use fat32_rs.Fs.Pool.{Pool, IsFresh}
use fat32_rs.Fs.Alloc.{alloc_cluster-Allocated}
use fat32_rs.Fs.Alloc.Step.{Outside, state}
use fat32_rs.Vfs.{VirtFile, file_size}
use fat32_rs.Vfs.Chain.{incerase_size}
use fat32_rs.Vfs.Extend.{extend_chain-IsChain}
use fat32_rs.Vfs.Io.ReadAt.{bytes_of, read_at-content}
use fat32_rs.Vfs.Io.Stored.{IsStored, capacity_of, read_at-write_at}
use fat32_rs.File.Write.{sized, set_file_size-sized, file_size-sized, bytes-sized}
use fat32_rs.Vfs.Grow.Lists.{All-to, last_or-All}
use fat32_rs.Vfs.Grow.Linked.{old_apart, old_chain, linked_IsStored, old_bytes}
use fat32_rs.Fs.Needed.{count_needed_clusters-IsNeeded}
use fat32_rs.Vfs.Io.{read_at, write_at}
use fat32_rs.Bytes.{slice_ext}
use fat32_rs.Vfs.Grow.Run.{incerase_size_run, resize-file, done-inj, capacity_more, sized_IsStored}

module _ (bpb : BiosParameterBlock) (off free : ℕ) (root : ShortDirEntry) (d : Disk) (q : List ℕ)
    (self : VirtFile) (c : ℕ) (cs : List ℕ) (block pos : ℕ)
    (s : IsStored (state bpb off free root d q) self c cs block pos) (low : data_start bpb ≤ block)
    (away : (x : ℕ) → entry off d x ≡ 0 → 2 ≤ x → Outside bpb block x) where
  abbrev fs : FileSystem
  fs = state bpb off free root d q

  -- What is needed for `n + 1` more clusters and a new size.
  pub record IsReady (fuel new_size size n w k : ℕ) : Type 0 where
    pub is_file : self.attr ≡ file
    pub known : file_size fs self ≡ done size
    pub larger : size < new_size
    pub small : new_size < 2 ^ 32
    pub needed : count_needed_clusters fuel fs new_size c ≡ done (suc n)
    pub pool : Pool (capacity bpb) (entry off d) q c w k (suc n)
    pub counted : suc n ≤ free
    pub fuel_table : capacity bpb ≤ fuel
    pub fuel_chain : length cs < fuel
    pub short : length cs + 1 < 2 ^ 32
    pub number : c < end_of_cluster

  -- A file with `n + 1` new clusters behind its own and a new size.
  pub record IsGrown (fuel new_size n : ℕ) (ds : List ℕ) (fs' : FileSystem) : Type 0 where
    pub ran : incerase_size fs self fuel new_size ≡ done (fs', self)
    pub stored : IsStored fs' self c (cs ++ ds) block pos
    pub count : length ds ≡ suc n
    pub were_free : All (λ x. entry off d x ≡ 0) ds
    pub size : file_size fs' self ≡ done new_size
    pub same_size : cluster_size fs ≡ cluster_size fs'
    pub shape : bpb ≡ fs'.bpb
    pub room : new_size ≤ capacity_of fs' (c ∷ (cs ++ ds))
    pub bytes :
        (i : ℕ)
        → i < capacity_of fs (c ∷ cs)
        → bytes_of fs' (c ∷ (cs ++ ds)) i ≡ bytes_of fs (c ∷ cs) i

  -- The clusters that are counted hold the new size.
  room_for :
      (fuel new_size size n w k : ℕ)
      → IsReady fuel new_size size n w k
      → new_size ≤ (length (c ∷ cs) + suc n) * (bpb.basic_bpb.sec_per_clus * 512)
  unfolding cluster_size
  room_for fuel new_size size n w k r =
      let m = s.opened.mounted in
      let bytes_per : bpb.basic_bpb.byts_per_sec * bpb.basic_bpb.sec_per_clus
          ≡ bpb.basic_bpb.sec_per_clus * 512 =
        rw m.block (omega arith) in
      let (k0, m0, e0, h0, e1, h1) =
        count_needed_clusters-IsNeeded fs fuel new_size c cs (mounted-IsAligned m)
          (rw bytes_per (omega (arith, m.volume.cluster_pos)))
          (rw bytes_per (omega (arith, m.volume.cluster, r.small))) r.fuel_chain r.short
          s.opened.low r.number s.opened.chain in
      let same : m0 ≡ suc n = done-inj (sym e1 ∙ r.needed) in
      subst (λ z. new_size ≤ (length (c ∷ cs) + suc n) * z) bytes_per
        (subst
          (λ z.
            new_size
            ≤ (length (c ∷ cs) + z) * (bpb.basic_bpb.byts_per_sec * bpb.basic_bpb.sec_per_clus))
          same h1.enough)

  -- For a file that is stored in its own clusters, with its entry among the data and in no free cluster,
  -- and where `n + 1` more clusters are needed for a new size below 2 ^ 32, a pool has them, they are counted
  -- free, and the fuel is enough for the table and the chain, `incerase_size` returns. The file then is
  -- stored in its old clusters, in order, followed by `n + 1` other ones, which were free; they hold the new
  -- size, which is the file's, and the old ones hold the bytes that they held.
  pub incerase_size-IsGrown :
      (fuel new_size size n w k : ℕ)
      → IsReady fuel new_size size n w k
      → (ds : List ℕ) × (fs' : FileSystem) × IsGrown fuel new_size n ds fs'
  unfolding cluster_size
  incerase_size-IsGrown fuel new_size size n w k r =
      let m = s.opened.mounted in
      let (start, ds, d1, ran, a) =
        alloc_cluster-Allocated bpb off m free root fuel n d q c w k r.pool r.counted
          r.fuel_table in
      let q' = drop (suc n) q in
      let fs1 = state bpb off (free - suc n) root d1 q' in
      let out =
        last_or-All (λ x. x ∉ (start ∷ ds)) c cs
          (old_apart bpb off free root d q self c cs block pos s low away n start ds d1 q' a) in
      let (d2, linked_run, linked, same, kept) =
        extend_chain-IsChain fs1 self fuel c cs start ds (mounted-IsAligned m) r.fuel_chain r.short
          s.opened.low r.number
          (old_chain bpb off free root d q self c cs block pos s low away n start ds d1 q' a)
          s.distinct a.fresh.0.two a.fresh.0.small a.chain out in
      let fs2 = state bpb off (free - suc n) root d2 q' in
      let stored =
        linked_IsStored bpb off free root d q self c cs block pos s low away n start ds d1 q' a d2
          linked kept in
      let all = cs ++ (start ∷ ds) in
      let fs3 = sized fs2 self c all block pos stored low new_size in
      let whole : new_size % 2 ^ 32 ≡ new_size = omega (arith, r.small) in
      let length_all : length (c ∷ all) ≡ length (c ∷ cs) + suc n =
        length-append (c ∷ cs) (start ∷ ds) ∙ ap (λ z. length (c ∷ cs) + z) a.count in
      let room = room_for fuel new_size size n w k r in
      (
        start ∷ ds,
        fs3,
        record {
          ran =
              incerase_size_run fs fs1 fs2 fs3 self fuel new_size c size n start s.opened.first
                r.known r.larger r.needed ran (λ e. absurd (omega (arith, s.opened.low, e)))
                linked_run
                (resize-file fs2 self new_size r.is_file
                  ∙ set_file_size-sized fs2 self c all block pos stored low new_size);
          stored = sized_IsStored fs2 self c all block pos stored low new_size;
          count = a.count;
          were_free =
              All-to (IsFresh (capacity bpb) (entry off d)) (λ x. entry off d x ≡ 0) (start ∷ ds)
                (λ x f. f.free) a.fresh;
          size = file_size-sized fs2 self c all block pos stored low new_size ∙ ap done whole;
          same_size = refl;
          shape = refl;
          room = rw length_all room;
          bytes = λ i l.
              bytes-sized fs2 self c all block pos stored low new_size i (
                omega (
                  arith,
                  l,
                  capacity_more (length (c ∷ cs)) (suc n) (length (c ∷ all))
                      (bpb.basic_bpb.sec_per_clus * 512) length_all,
                ))
              ∙ old_bytes bpb off free root d q self c cs block pos s low away n start ds d1 q' a d2
                  linked kept i l;
        },
      )

  -- The same of a write that needs `n + 1` more clusters, with fuel for all clusters of the file then:
  -- `write_at` returns the length of the buffer, `read_at` at its place gives the buffer, and a range of
  -- the old clusters that ends before it is read as before.
  pub read_at-write_at-IsGrown :
      (fuel place size n w k : ℕ) (buf : List ℕ)
      → 0 < length buf
      → IsReady fuel (place + length buf) size n w k
      → length (c ∷ cs) + suc n ≤ fuel
      → (fs' : FileSystem) × (write_at fuel fs self place buf ≡ done (length buf, fs', self))
        × (read_at fuel fs' self place (length buf) ≡ done buf)
        × ((p t : ℕ)
            → p + t ≤ capacity_of fs (c ∷ cs)
            → p + t ≤ place
            → read_at fuel fs' self p t ≡ read_at fuel fs self p t)
  read_at-write_at-IsGrown fuel place size n w k buf h r f =
      let (ds, fs1, g) = incerase_size-IsGrown fuel (place + length buf) size n w k r in
      let all = cs ++ ds in
      let enough : length (c ∷ all) ≤ fuel = omega (arith, length-append (c ∷ cs) ds, g.count, f) in
      let (fs2, ran, back, beside) =
        read_at-write_at fs fs1 self self c all block pos g.stored fuel place buf h g.ran
          g.same_size enough g.room in
      (
        fs2,
        ran,
        back,
        λ p t l l'.
            beside p t (omega (arith, g.room, l')) (inl l')
            ∙ read_at-content fs1 self c all fuel p t g.stored.opened enough
                (omega (arith, g.room, l'))
            ∙ ap done (slice_ext _ _ p t (λ i a b. g.bytes i (omega (arith, b, l))))
            ∙ sym (read_at-content fs self c cs fuel p t s.opened (omega (arith, f)) l),
      )
