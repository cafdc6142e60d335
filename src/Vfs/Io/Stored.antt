-- ===== src/Vfs/Io/Stored.antt =====
-- src/vfs.rs: a file whose bytes stand in its own clusters, and what `write_at` and `read_at` do to it.
use fat32_rs.Base.{
  ℕ, ◌≢◌, ◌⊎◌, ◌+◌, ◌*◌, ◌/◌, ◌≤◌, ◌<◌, ◌≡◌, arith, ap, ◌∙◌, sym, ne→==, le→leb, List, ◌∷◌, length,
  All, Distinct, none, some, Outcome, done, ◌>>=◌,
}
use mathlib.Core.Path.{subst, ap₂}
use fat32_rs.Bytes.{IsBytes, patch, patch_outside, slice_ext, slice-patch}
use fat32_rs.Disk.{Disk}
use fat32_rs.Bpb.Geometry.{cluster_start}
use fat32_rs.Fat.Cursor.{ClusterChain}
use fat32_rs.Fat.Cursor.Iterate.{at_cluster}
use fat32_rs.Entry.Short as Short
use fat32_rs.Entry.Short.{new_from_bytes}
use fat32_rs.Fs.{FileSystem, cluster_size}
use fat32_rs.Fs.Alloc.Step.{Outside}
use fat32_rs.Vfs.{VirtFile, first_cluster, file_size, read_sde, sde_pos}
use fat32_rs.Vfs.Chain.{incerase_size}
use fat32_rs.Vfs.Fields.{IsPlaced, read_sde_lem}
use fat32_rs.Vfs.Io.{skip, write_clusters, write_at, read_at}
use fat32_rs.Vfs.Io.Copy.{content-Holds, content-of_Holds, span-eq, quot_bounds, quot_bound}
use fat32_rs.Vfs.Io.Walk.{IsOpen, first_item-IsOpen}
use fat32_rs.Vfs.Io.Apart.{AllData, Outside-All, chain_kept}
use fat32_rs.Vfs.Io.WriteClusters.{WroteAll}
use fat32_rs.Vfs.Io.WriteAt.{write_from}
use fat32_rs.Vfs.Io.ReadAt.{bytes_of, read_at-content}

-- A file with its own clusters, and its entry in a block that is not among them.
pub record IsStored (fs : FileSystem) (self : VirtFile) (c : ℕ) (cs : List ℕ) (block pos : ℕ)
    : Type 0 where
  pub opened : IsOpen fs self c cs
  pub in_table : AllData fs.bpb (c ∷ cs)
  pub distinct : Distinct (c ∷ cs)
  pub entry : IsPlaced fs self block pos
  pub apart : All (Outside fs.bpb block) (c ∷ cs)

-- The bytes in the clusters of a file.
abbrev pub capacity_of : FileSystem → List ℕ → ℕ
capacity_of fs cs = length cs * (fs.bpb.basic_bpb.sec_per_clus * 512)

pub incerase_size-fits :
    (fs : FileSystem) (self : VirtFile) (fuel c size new_size : ℕ)
    → first_cluster fs self ≡ done c
    → file_size fs self ≡ done size
    → new_size ≤ size
    → incerase_size fs self fuel new_size ≡ done (fs, self)
unfolding incerase_size
incerase_size-fits fs self fuel c size new_size first old h =
    rw (first, old, le→leb new_size size h)

module _ (fs : FileSystem) (self : VirtFile) (c : ℕ) (cs : List ℕ) (block pos : ℕ)
    (s : IsStored fs self c cs block pos) (d' : Disk)
    (same : (b : ℕ) → All (Outside fs.bpb b) (c ∷ cs) → d' b ≡ fs.disk b) where
  abbrev pub after : FileSystem
  after = record fs { disk = d' }

  placed_after : IsPlaced after self block pos
  unfolding sde_pos
  placed_after = record {
    not_root = s.entry.not_root;
    position = s.entry.position;
    inside = s.entry.inside;
    bytes = subst IsBytes (sym (same block s.apart)) s.entry.bytes;
  }

  pub read_sde_same : read_sde after self ≡ read_sde fs self
  read_sde_same =
      read_sde_lem after self block pos placed_after
      ∙ ap (λ b. done (new_from_bytes (λ i. b (pos + i)))) (same block s.apart)
      ∙ sym (read_sde_lem fs self block pos s.entry)

  -- A change inside the clusters of a file keeps it a file.
  pub kept_IsStored : IsStored after self c cs block pos
  unfolding first_cluster
  kept_IsStored = record {
    opened = record {
      mounted = s.opened.mounted;
      table = s.opened.table;
      fresh = s.opened.fresh;
      start = s.opened.start;
      first = ap (λ r. r >>= λ sde. done (Short.first_cluster sde)) read_sde_same ∙ s.opened.first;
      low = s.opened.low;
      chain =
          chain_kept fs.bpb fs.fat.fat1_offset s.opened.mounted fs.disk d'
            (λ b l. same b (Outside-All fs.bpb b (c ∷ cs) l)) (c ∷ cs) s.in_table s.opened.chain;
    };
    in_table = s.in_table;
    distinct = s.distinct;
    entry = placed_after;
    apart = s.apart;
  }

-- What a write of the buffer at a place leaves: the file is still stored in its clusters, which
-- hold the patched bytes, and no block outside of them has changed.
pub record IsWritten (fs : FileSystem) (self : VirtFile) (c : ℕ) (cs : List ℕ) (block pos place : ℕ)
    (buf : List ℕ) (d' : Disk) : Type 0 where
  pub stored : IsStored (record fs { disk = d' }) self c cs block pos
  pub bytes :
      (i : ℕ)
      → i < capacity_of fs (c ∷ cs)
      → bytes_of (record fs { disk = d' }) (c ∷ cs) i ≡ patch (bytes_of fs (c ∷ cs)) place buf i
  pub same : (b : ℕ) → All (Outside fs.bpb b) (c ∷ cs) → d' b ≡ fs.disk b

module _ (fs fs1 : FileSystem) (self self1 : VirtFile) (c : ℕ) (cs : List ℕ) (block pos : ℕ)
    (s : IsStored fs1 self1 c cs block pos) where
  abbrev size : ℕ
  size = fs1.bpb.basic_bpb.sec_per_clus * 512

  size_pos : 0 < size
  size_pos = omega (arith, s.opened.mounted.volume.cluster_pos)

  abbrev begin : ClusterChain
  begin = at_cluster fs1.fat.fat1_offset fs1.disk c none c

  write_at_ran :
      (fuel place already : ℕ) (buf : List ℕ) (chain : ClusterChain) (curr : ℕ) (fs2 : FileSystem)
      → length buf ≢ 0
      → incerase_size fs self fuel (place + length buf) ≡ done (fs1, self1)
      → cluster_size fs ≡ size
      → skip fs1.disk (place / size) begin c ≡ done (some (chain, curr))
      → write_clusters (place + length buf) buf fs1 fuel chain curr (place / size * size) place 0
        ≡ done (already, fs2)
      → write_at fuel fs self place buf ≡ done (already, fs2, self1)
  unfolding write_at
  write_at_ran fuel place already buf chain curr fs2 h grown bytes_per reached ran = rw (
    ne→== (length buf) 0 h,
    grown,
    bytes_per,
    ne→== size 0 (omega (arith, size_pos)),
    first_item-IsOpen fs1 self1 c cs s.opened,
    s.opened.first,
    reached,
    ran,
  )

  WroteAll-IsWritten :
      (place : ℕ) (buf : List ℕ) (run : Outcome (ℕ × FileSystem))
      (w : WroteAll fs1 s.opened.mounted (bytes_of fs1 (c ∷ cs)) buf place (c ∷ cs) 0 fs1.disk run)
      → IsWritten fs1 self1 c cs block pos place buf w.d'
  WroteAll-IsWritten place buf run w =
      let spc = fs1.bpb.basic_bpb.sec_per_clus in
      let start = cluster_start fs1.bpb in
      record {
        stored = kept_IsStored fs1 self1 c cs block pos s w.d' w.same;
        bytes = λ i l.
            content-of_Holds start spc w.d' (patch (bytes_of fs1 (c ∷ cs)) place buf) (c ∷ cs) i
              w.held l;
        same = w.same;
      }

  -- When `incerase_size` has made room, with fuel for its clusters, `write_at` of a buffer returns its
  -- length, and the buffer stands in the file's clusters.
  pub write_at-IsWritten :
      (fuel place : ℕ) (buf : List ℕ)
      → 0 < length buf
      → incerase_size fs self fuel (place + length buf) ≡ done (fs1, self1)
      → cluster_size fs ≡ cluster_size fs1
      → length (c ∷ cs) ≤ fuel
      → place + length buf ≤ capacity_of fs1 (c ∷ cs)
      → (d' : Disk) × (write_at fuel fs self place buf
          ≡ done (length buf, record fs1 { disk = d' }, self1))
        × IsWritten fs1 self1 c cs block pos place buf d'
  unfolding cluster_size
  write_at-IsWritten fuel place buf h grown same_size e b =
      let spc = fs1.bpb.basic_bpb.sec_per_clus in
      let start = cluster_start fs1.bpb in
      let bytes_per : fs1.bpb.basic_bpb.byts_per_sec * fs1.bpb.basic_bpb.sec_per_clus ≡ size =
        rw s.opened.mounted.block (omega arith) in
      let near = quot_bounds place size size_pos in
      let r =
        write_from fs1 s.opened.mounted (bytes_of fs1 (c ∷ cs)) buf place (place / size) fuel c none
          c cs 0 (place / size * size) fs1.disk
          (quot_bound place size (length (c ∷ cs)) size_pos (omega arith)) e s.in_table s.distinct
          s.opened.chain (content-Holds start spc fs1.disk (c ∷ cs)) (omega arith) near.0 near.1 h
          (omega (arith, span-eq size (c ∷ cs))) in
      (
        r.wrote.d',
        write_at_ran fuel place (length buf) buf r.chain r.curr (record fs1 { disk = r.wrote.d' })
            (omega arith) grown (same_size ∙ bytes_per) r.reached
            (ap₂
                (write_clusters (place + length buf) buf fs1 fuel r.chain r.curr
                  (place / size * size))
                (omega (arith, near)) (omega (arith, near))
              ∙ r.wrote.ran),
        WroteAll-IsWritten place buf _ r.wrote,
      )

  -- After such a `write_at`, `read_at` at the same place gives the buffer, and `read_at` of a range that
  -- does not overlap it gives what it gave before.
  pub read_at-write_at :
      (fuel place : ℕ) (buf : List ℕ)
      → 0 < length buf
      → incerase_size fs self fuel (place + length buf) ≡ done (fs1, self1)
      → cluster_size fs ≡ cluster_size fs1
      → length (c ∷ cs) ≤ fuel
      → place + length buf ≤ capacity_of fs1 (c ∷ cs)
      → (fs2 : FileSystem) × (write_at fuel fs self place buf ≡ done (length buf, fs2, self1))
        × (read_at fuel fs2 self1 place (length buf) ≡ done buf)
        × ((q n : ℕ)
            → q + n ≤ capacity_of fs1 (c ∷ cs)
            → (q + n ≤ place) ⊎ (place + length buf ≤ q)
            → read_at fuel fs2 self1 q n ≡ read_at fuel fs1 self1 q n)
  read_at-write_at fuel place buf h grown same_size e b =
      let (d', ran, w) = write_at-IsWritten fuel place buf h grown same_size e b in
      let fs2 = record fs1 { disk = d' } in
      let old = bytes_of fs1 (c ∷ cs) in
      let new = bytes_of fs2 (c ∷ cs) in
      (
        fs2,
        ran,
        read_at-content fs2 self1 c cs fuel place (length buf) w.stored.opened e b
            ∙ ap done (
                slice_ext new (patch old place buf) place (length buf)
                  (λ i p q. w.bytes i (omega arith))
                ∙ slice-patch old place buf),
        λ q n room away.
            read_at-content fs2 self1 c cs fuel q n w.stored.opened e room
            ∙ ap done (
                slice_ext new old q n
                  (λ i p l. w.bytes i (omega arith) ∙ patch_outside old place buf i (omega arith)))
            ∙ sym (read_at-content fs1 self1 c cs fuel q n s.opened e room),
      )
