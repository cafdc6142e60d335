-- ===== src/Vfs/Grow/Room.antt =====
-- src/vfs.rs: `incerase_size` and `write_at`, whether the file has the clusters that it needs or gets more.
use fat32_rs.Base.{
  ℕ, suc, ◌+◌, ◌*◌, ◌^◌, ◌%◌, ◌≤◌, ◌<◌, ◌≡◌, ◌⊎◌, inl, inr, refl, arith, lt→ltb, le→ltb, ltb,
  if◌then◌else◌, ap, sym, ◌∙◌, List, [], ◌∷◌, ◌++◌, length, length-append, done, ◌>>=◌,
}
use mathlib.Core.Path.{subst}
use native.Mathlib.Decide.{dec_lt}
use fat32_rs.Bytes.{patch}
use fat32_rs.Disk.{Disk}
use fat32_rs.Bpb.{BiosParameterBlock}
use fat32_rs.Bpb.Geometry.{data_start, mul_le}
use fat32_rs.Entry.{file}
use fat32_rs.Entry.Short as Short
use fat32_rs.Entry.Short.{ShortDirEntry}
use fat32_rs.Fat.{end_of_cluster}
use fat32_rs.Fat.Entries.{entry}
use fat32_rs.Fs.{FileSystem, cluster_size, count_needed_clusters}
use fat32_rs.Fs.Needed.{count_needed_clusters-IsNeeded}
use fat32_rs.Fs.Shape.{mounted-IsAligned}
use fat32_rs.Fs.Alloc.Step.{Outside, state}
use fat32_rs.Vfs.{VirtFile, file_size}
use fat32_rs.Vfs.Chain.{incerase_size}
use fat32_rs.Vfs.Io.{write_at}
use fat32_rs.Vfs.Io.ReadAt.{bytes_of}
use fat32_rs.Vfs.Io.Stored.{
  IsStored, capacity_of, incerase_size-fits, write_at-IsWritten, read_sde_same,
}
use fat32_rs.File.Write.{sized, set_file_size-sized, file_size-sized, bytes-sized}
use fat32_rs.Vfs.Grow.{IsReady, incerase_size-IsGrown}
use fat32_rs.Vfs.Grow.Run.{
  resize-file, sized_IsStored, incerase_size-slack, append_nil, patch_agree,
}

module _ (bpb : BiosParameterBlock) (off free : ℕ) (root : ShortDirEntry) (d : Disk) (q : List ℕ)
    (self : VirtFile) (c : ℕ) (cs : List ℕ) (block pos : ℕ)
    (s : IsStored (state bpb off free root d q) self c cs block pos) (low : data_start bpb ≤ block)
    (away : (x : ℕ) → entry off d x ≡ 0 → 2 ≤ x → Outside bpb block x) where
  abbrev fs : FileSystem
  fs = state bpb off free root d q

  -- A new size below 2 ^ 32, for which the clusters of the file are enough, or others can be allocated;
  -- the fuel is enough for all of them.
  pub record HasRoom (fuel new_size size : ℕ) : Type 0 where
    pub is_file : self.attr ≡ file
    pub known : file_size fs self ≡ done size
    pub small : new_size < 2 ^ 32
    pub fuel_chain : length (c ∷ cs) ≤ fuel
    pub short : length cs + 1 < 2 ^ 32
    pub number : c < end_of_cluster
    pub room :
        (new_size ≤ capacity_of fs (c ∷ cs))
        ⊎ ((n : ℕ) × (w : ℕ) × (k : ℕ) × IsReady bpb off free root d q self c cs block pos s low
              away fuel new_size size n w k
            × (length (c ∷ cs) + suc n ≤ fuel))

  -- A file with the room, in its old clusters and maybe more behind them.
  pub record IsEnlarged (fuel new_size size : ℕ) (all : List ℕ) (fs' : FileSystem) : Type 0 where
    pub ran : incerase_size fs self fuel new_size ≡ done (fs', self)
    pub stored : IsStored fs' self c all block pos
    pub more : (ds : List ℕ) × (cs ++ ds ≡ all)
    pub size_now : file_size fs' self ≡ done (if ltb size new_size then new_size else size)
    pub same_size : cluster_size fs ≡ cluster_size fs'
    pub shape : bpb ≡ fs'.bpb
    pub fuel_all : length (c ∷ all) ≤ fuel
    pub room_now : new_size ≤ capacity_of fs' (c ∷ all)
    pub bytes :
        (i : ℕ) → i < capacity_of fs (c ∷ cs) → bytes_of fs' (c ∷ all) i ≡ bytes_of fs (c ∷ cs) i

  enough :
      (fuel new_size : ℕ)
      → new_size < 2 ^ 32
      → length cs < fuel
      → length cs + 1 < 2 ^ 32
      → c < end_of_cluster
      → new_size ≤ capacity_of fs (c ∷ cs)
      → count_needed_clusters fuel fs new_size c ≡ done 0
  unfolding cluster_size
  enough fuel new_size small f short number l =
      let m = s.opened.mounted in
      let bytes_per : bpb.basic_bpb.byts_per_sec * bpb.basic_bpb.sec_per_clus
          ≡ bpb.basic_bpb.sec_per_clus * 512 =
        rw m.block (omega arith) in
      let (k0, m0, e0, h0, e1, h1) =
        count_needed_clusters-IsNeeded fs fuel new_size c cs (mounted-IsAligned m)
          (rw bytes_per (omega (arith, m.volume.cluster_pos)))
          (rw bytes_per (omega (arith, m.volume.cluster, small))) f short s.opened.low number
          s.opened.chain in
      elim (dec_lt 0 m0) [
        | yes p ↦
            let plain : length (c ∷ cs) + 0 ≡ length (c ∷ cs) = omega arith in
            let less =
              subst (λ x. length (c ∷ cs) * x < new_size) bytes_per
                (subst (λ x. x * cluster_size fs < new_size) plain (h1.least 0 p)) in
            absurd (omega (arith, less, l))
        | no n ↦ let none : m0 ≡ 0 = omega arith in e1 ∙ ap done none
      ]

  pub grown_capacity :
      (fs' : FileSystem) (all ds : List ℕ)
      → bpb ≡ fs'.bpb
      → cs ++ ds ≡ all
      → capacity_of fs (c ∷ cs) ≤ capacity_of fs' (c ∷ all)
  grown_capacity fs' all ds shape e =
      subst (λ b. capacity_of fs (c ∷ cs) ≤ length (c ∷ all) * (b.basic_bpb.sec_per_clus * 512))
        shape
        (mul_le (length (c ∷ cs)) (bpb.basic_bpb.sec_per_clus * 512) (length (c ∷ all))
          (bpb.basic_bpb.sec_per_clus * 512) (omega (arith, length-append cs ds, ap length e))
          (omega arith))

  pub incerase_size-IsEnlarged :
      (fuel new_size size : ℕ)
      → HasRoom fuel new_size size
      → (all : List ℕ) × (fs' : FileSystem) × IsEnlarged fuel new_size size all fs'
  unfolding cluster_size
  incerase_size-IsEnlarged fuel new_size size r = elim r.room [
    | inr (n, w, k, g, f) ↦
        let (ds, fs', e) =
          incerase_size-IsGrown bpb off free root d q self c cs block pos s low away fuel new_size
            size n w k g in
        (
          cs ++ ds,
          fs',
          record {
            ran = e.ran;
            stored = e.stored;
            more = (ds, refl);
            size_now = rw (lt→ltb size new_size g.larger) e.size;
            same_size = e.same_size;
            shape = e.shape;
            fuel_all = omega (arith, length-append (c ∷ cs) ds, e.count, f);
            room_now = e.room;
            bytes = e.bytes;
          },
        )
    | inl l ↦ elim (dec_lt size new_size) [
      | no n ↦ (
        cs,
        fs,
        record {
          ran =
              incerase_size-fits fs self fuel c size new_size s.opened.first r.known (omega arith);
          stored = s;
          more = ([], append_nil cs);
          size_now = rw (le→ltb size new_size (omega arith)) r.known;
          same_size = refl;
          shape = refl;
          fuel_all = r.fuel_chain;
          room_now = l;
          bytes = λ i h. refl;
        },
      )
      | yes p ↦
          let whole : new_size % 2 ^ 32 ≡ new_size = omega (arith, r.small) in
          (
            cs,
            sized fs self c cs block pos s low new_size,
            record {
              ran =
                  incerase_size-slack fs _ self fuel new_size c size s.opened.first r.known p
                    (enough fuel new_size r.small (omega (arith, r.fuel_chain)) r.short r.number l)
                    (resize-file fs self new_size r.is_file
                      ∙ set_file_size-sized fs self c cs block pos s low new_size);
              stored = sized_IsStored fs self c cs block pos s low new_size;
              more = ([], append_nil cs);
              size_now =
                  rw (lt→ltb size new_size p)
                    (file_size-sized fs self c cs block pos s low new_size ∙ ap done whole);
              same_size = refl;
              shape = refl;
              fuel_all = r.fuel_chain;
              room_now = l;
              bytes = λ i h. bytes-sized fs self c cs block pos s low new_size i h;
            },
          )
    ]
  ]

  -- For a file that is stored in its own clusters, with its entry among the data and in no free cluster, and
  -- a write of at least one byte for which its clusters are enough or others can be allocated, `write_at`
  -- returns the length of the buffer. The file then is stored in its old clusters and maybe more behind
  -- them, its size is the end of the write if that was behind its end, and where the old clusters or the
  -- write reach, its bytes are the old ones with the buffer in its place.
  pub write_at-HasRoom :
      (fuel place size : ℕ) (buf : List ℕ)
      → 0 < length buf
      → HasRoom fuel (place + length buf) size
      → (ds : List ℕ) × (fs' : FileSystem) × (write_at fuel fs self place buf
          ≡ done (length buf, fs', self))
        × IsStored fs' self c (cs ++ ds) block pos
        × (file_size fs' self
            ≡ done (if ltb size (place + length buf) then place + length buf else size))
        × ((i : ℕ)
            → (i < capacity_of fs (c ∷ cs)) ⊎ ((place ≤ i) × (i < place + length buf))
            → bytes_of fs' (c ∷ (cs ++ ds)) i ≡ patch (bytes_of fs (c ∷ cs)) place buf i)
  unfolding file_size
  write_at-HasRoom fuel place size buf h r =
      let (all, fs1, g) = incerase_size-IsEnlarged fuel (place + length buf) size r in
      let (ds, e) = g.more in
      let (d', ran, w) =
        write_at-IsWritten fs fs1 self self c all block pos g.stored fuel place buf h g.ran
          g.same_size g.fuel_all g.room_now in
      let fs' = record fs1 { disk = d' } in
      (
        ds,
        fs',
        ran,
        subst (λ z. IsStored fs' self c z block pos) (sym e) w.stored,
        ap (λ x. x >>= λ sde. done (Short.file_size sde))
              (read_sde_same fs1 self c all block pos g.stored d' w.same)
            ∙ g.size_now,
        λ i o.
            ap (λ z. bytes_of fs' (c ∷ z) i) e
            ∙ w.bytes i (omega (arith, g.room_now, o, grown_capacity fs1 all ds g.shape e))
            ∙ patch_agree (bytes_of fs1 (c ∷ all)) (bytes_of fs (c ∷ cs)) place i buf
                (λ beside. g.bytes i (omega (arith, beside, o))),
      )
