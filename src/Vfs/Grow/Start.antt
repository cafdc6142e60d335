-- ===== src/Vfs/Grow/Start.antt =====
-- src/vfs.rs: the first write to a file without clusters.
use fat32_rs.Base.{
  ℕ, suc, ◌+◌, ◌-◌, ◌*◌, ◌^◌, ◌%◌, ◌≤◌, ◌<◌, ◌≡◌, inl, refl, arith, ne→==, lt→leb, ap, sym, ◌∙◌,
  List, ◌∷◌, length, drop, All, some, done,
}
use mathlib.Core.Path.{subst}
use fat32_rs.Bytes.{slice, slice_ext}
use fat32_rs.Disk.{Disk}
use fat32_rs.Bpb.{BiosParameterBlock}
use fat32_rs.Bpb.Geometry.{data_start}
use fat32_rs.Entry.{file}
use fat32_rs.Entry.Short.{ShortDirEntry}
use fat32_rs.Fat.Entries.{entry}
use fat32_rs.Fs.{FileSystem, alloc_cluster, count_needed_clusters, cluster_size}
use fat32_rs.Fs.Needed.{IsNeeded, count_needed_clusters-none}
use fat32_rs.Fs.Shape.{IsMounted, capacity}
use fat32_rs.Fs.Pool.{Pool, IsFresh}
use fat32_rs.Fs.Alloc.{alloc_cluster-Allocated}
use fat32_rs.Fs.Alloc.Step.{Outside, state}
use fat32_rs.Vfs.{VirtFile, first_cluster, file_size}
use fat32_rs.Vfs.Chain.{incerase_size, grow, attach, start_chain, resize}
use fat32_rs.Vfs.Fields.{IsPlaced}
use fat32_rs.Vfs.Io.{read_at, write_at}
use fat32_rs.Vfs.Io.ReadAt.{bytes_of, read_at-content}
use fat32_rs.Vfs.Io.Stored.{IsStored, capacity_of, read_at-write_at}
use fat32_rs.File.Write.{sized, set_file_size-sized, file_size-sized, bytes-sized}
use fat32_rs.Vfs.Grow.Run.{sized_IsStored, resize-file, done-inj}
use fat32_rs.Vfs.Grow.Lists.{All-to}
use fat32_rs.Vfs.Grow.First.{started, start_chain_run, started_IsStored, zero_bytes}
use fat32_rs.Vfs.Grow.First as First

incerase_size-start :
    (fs fs1 fs2 fs3 : FileSystem) (self self' : VirtFile) (fuel new_size size n start : ℕ)
    → first_cluster fs self ≡ done 0
    → file_size fs self ≡ done size
    → size < new_size
    → count_needed_clusters fuel fs new_size 0 ≡ done (suc n)
    → alloc_cluster fuel fs (suc n) 0 ≡ done (some start, fs1)
    → start_chain fs1 self start ≡ done (fs2, self')
    → resize fs2 self' new_size ≡ done fs3
    → incerase_size fs self fuel new_size ≡ done (fs3, self')
unfolding incerase_size grow attach
incerase_size-start fs fs1 fs2 fs3 self self' fuel new_size size n start e e' l e'' a x r =
    rw
      (
        e,
        e',
        lt→leb new_size size l,
        e'',
        ne→== (suc n) 0 (λ z. absurd (omega (arith, z))),
        a,
        x,
        r,
      )
      refl

module _ (bpb : BiosParameterBlock) (off free : ℕ) (root : ShortDirEntry) (d : Disk) (q : List ℕ)
    (m : IsMounted bpb off) (self : VirtFile) (block pos : ℕ)
    (at : IsPlaced (state bpb off free root d q) self block pos)
    (table : self.cluster_chain.fat1_offset ≡ off) (low : data_start bpb ≤ block)
    (away : (x : ℕ) → entry off d x ≡ 0 → 2 ≤ x → Outside bpb block x) where
  abbrev fs : FileSystem
  fs = state bpb off free root d q

  -- What is needed for `n + 1` first clusters and a size.
  pub record IsStartable (fuel new_size size n w k : ℕ) : Type 0 where
    pub is_file : self.attr ≡ file
    pub empty : first_cluster fs self ≡ done 0
    pub known : file_size fs self ≡ done size
    pub larger : size < new_size
    pub small : new_size < 2 ^ 32
    pub needed : count_needed_clusters fuel fs new_size 0 ≡ done (suc n)
    pub pool : Pool (capacity bpb) (entry off d) q 0 w k (suc n)
    pub counted : suc n ≤ free
    pub fuel_table : capacity bpb ≤ fuel

  -- A file with `n + 1` clusters of zeros and a size.
  pub record IsStarted (fuel new_size n start : ℕ) (ds : List ℕ) (fs' : FileSystem) : Type 0 where
    pub ran : incerase_size fs self fuel new_size ≡ done (fs', started self start)
    pub stored : IsStored fs' (started self start) start ds block pos
    pub count : length (start ∷ ds) ≡ suc n
    pub were_free : All (λ x. entry off d x ≡ 0) (start ∷ ds)
    pub size : file_size fs' (started self start) ≡ done new_size
    pub same_size : cluster_size fs ≡ cluster_size fs'
    pub room : new_size ≤ capacity_of fs' (start ∷ ds)
    pub least : n * (bpb.basic_bpb.sec_per_clus * 512) < new_size
    pub shape : bpb ≡ fs'.bpb
    pub zeros : (i : ℕ) → i < capacity_of fs' (start ∷ ds) → bytes_of fs' (start ∷ ds) i ≡ 0

  room_for :
      (fuel new_size size n w k : ℕ)
      → IsStartable fuel new_size size n w k
      → (new_size ≤ suc n * (bpb.basic_bpb.sec_per_clus * 512))
        × (n * (bpb.basic_bpb.sec_per_clus * 512) < new_size)
  unfolding cluster_size
  room_for fuel new_size size n w k r =
      let bytes_per : bpb.basic_bpb.byts_per_sec * bpb.basic_bpb.sec_per_clus
          ≡ bpb.basic_bpb.sec_per_clus * 512 =
        rw m.block (omega arith) in
      let (k0, e0, h0) =
        count_needed_clusters-none fs fuel new_size
          (rw bytes_per (omega (arith, m.volume.cluster_pos)))
          (rw bytes_per (omega (arith, m.volume.cluster, r.small))) in
      let same : k0 ≡ suc n = done-inj (sym e0 ∙ r.needed) in
      let h = subst (λ z. IsNeeded (cluster_size fs) 0 z new_size) same h0 in
      let more : 0 + suc n ≡ suc n = omega arith in
      let fewer : 0 + n ≡ n = omega arith in
      subst (λ z. (new_size ≤ suc n * z) × (n * z < new_size)) bytes_per
        (
          subst (λ x. new_size ≤ x * cluster_size fs) more h.enough,
          subst (λ x. x * cluster_size fs < new_size) fewer (h.least n (omega arith)),
        )

  -- For a file without clusters, whose entry stands among the data and in no free cluster, where `n + 1`
  -- clusters are needed for a new size below 2 ^ 32, a pool has them, they are counted free, and the fuel is
  -- enough for the table, `incerase_size` returns. The file then is stored in `n + 1` clusters, which were
  -- free, its cursor before the first; they hold the new size, which is the file's, and nothing but zeros.
  pub incerase_size-IsStarted :
      (fuel new_size size n w k : ℕ)
      → IsStartable fuel new_size size n w k
      → (start : ℕ) × (ds : List ℕ) × (fs' : FileSystem) × IsStarted fuel new_size n start ds fs'
  unfolding cluster_size
  incerase_size-IsStarted fuel new_size size n w k r =
      let (start, ds, d1, ran, a) =
        alloc_cluster-Allocated bpb off m free root fuel n d q 0 w k r.pool r.counted
          r.fuel_table in
      let q' = drop (suc n) q in
      let fs1 = state bpb off (free - suc n) root d1 q' in
      let fs2 =
        First.fs2 bpb off free root d q m self block pos at table low away n start ds d1 q' a in
      let self' = started self start in
      let stored =
        started_IsStored bpb off free root d q m self block pos at table low away n start ds d1 q'
          a in
      let whole : new_size % 2 ^ 32 ≡ new_size = omega (arith, r.small) in
      (
        start,
        ds,
        sized fs2 self' start ds block pos stored low new_size,
        record {
          ran =
              incerase_size-start fs fs1 fs2 _ self self' fuel new_size size n start r.empty r.known
                r.larger r.needed ran
                (start_chain_run bpb off free root d q m self block pos at table low away n start ds
                  d1 q' a)
                (resize-file fs2 self' new_size r.is_file
                  ∙ set_file_size-sized fs2 self' start ds block pos stored low new_size);
          stored = sized_IsStored fs2 self' start ds block pos stored low new_size;
          count = a.count;
          were_free =
              All-to (IsFresh (capacity bpb) (entry off d)) (λ x. entry off d x ≡ 0) (start ∷ ds)
                (λ x f. f.free) a.fresh;
          size = file_size-sized fs2 self' start ds block pos stored low new_size ∙ ap done whole;
          same_size = refl;
          room = rw a.count (room_for fuel new_size size n w k r).0;
          least = (room_for fuel new_size size n w k r).1;
          shape = refl;
          zeros = λ i l.
              bytes-sized fs2 self' start ds block pos stored low new_size i l
              ∙ zero_bytes bpb off free root d q m self block pos at table low away n start ds d1 q'
                  a i l;
        },
      )

  -- The same of the first write to the file, of at least one byte, with fuel for its clusters: `write_at`
  -- returns the length of the buffer, `read_at` of the file that it leaves gives the buffer at its place, and
  -- zeros in a range that ends before it.
  pub read_at-write_at-IsStarted :
      (fuel place size n w k : ℕ) (buf : List ℕ)
      → 0 < length buf
      → IsStartable fuel (place + length buf) size n w k
      → suc n ≤ fuel
      → (fs' : FileSystem) × (self' : VirtFile) × (write_at fuel fs self place buf
          ≡ done (length buf, fs', self'))
        × (read_at fuel fs' self' place (length buf) ≡ done buf)
        × ((p t : ℕ) → p + t ≤ place → read_at fuel fs' self' p t ≡ done (slice (λ i. 0) p t))
  read_at-write_at-IsStarted fuel place size n w k buf h r f =
      let (start, ds, fs1, g) = incerase_size-IsStarted fuel (place + length buf) size n w k r in
      let self' = started self start in
      let enough : length (start ∷ ds) ≤ fuel = omega (arith, g.count, f) in
      let (fs2, ran, back, beside) =
        read_at-write_at fs fs1 self self' start ds block pos g.stored fuel place buf h g.ran
          g.same_size enough g.room in
      (
        fs2,
        self',
        ran,
        back,
        λ p t l.
            beside p t (omega (arith, g.room, l)) (inl l)
            ∙ read_at-content fs1 self' start ds fuel p t g.stored.opened enough
                (omega (arith, g.room, l))
            ∙ ap done (
                slice_ext (bytes_of fs1 (start ∷ ds)) (λ i. 0) p t
                  (λ i b b'. g.zeros i (omega (arith, b', l, g.room)))),
      )
