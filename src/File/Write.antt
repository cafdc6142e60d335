-- ===== src/File/Write.antt =====
-- src/file.rs: `write` puts the buffer into the file and its size into the entry.
use fat32_rs.Base.{
  ℕ, ◌≢◌, ◌+◌, ◌*◌, ◌%◌, ◌^◌, ◌≤◌, ◌<◌, ◌≡◌, arith, ap, ◌∙◌, refl, sym, le→ltb, List, [], ◌∷◌,
  length, All, done, ok,
}
use mathlib.Core.Path.{subst}
use fat32_rs.Bytes.{patch, slice, slice_ext, slice-patch}
use fat32_rs.Disk.{store_ne}
use fat32_rs.Bpb.Geometry.{data_start, cluster_start}
use fat32_rs.Entry.Short as Short
use fat32_rs.Entry.Short.Fields.{IsEntry}
use fat32_rs.Entry.Short.{ShortDirEntry, as_bytes}
use fat32_rs.Fs.{FileSystem, cluster_size}
use fat32_rs.Fs.Alloc.Step.{Outside}
use fat32_rs.Vfs.{VirtFile, first_cluster, file_size, set_file_size}
use fat32_rs.Vfs.Chain.{incerase_size}
use fat32_rs.Vfs.Fields.{
  entry_of, with_entry, entry_of-IsEntry, modify_sde_lem, read_sde_lem, read_sde-with_entry,
  set_file_size-IsEntry,
}
use fat32_rs.Vfs.Io.{read_at}
use fat32_rs.Vfs.Io.Copy.{content-Holds, Holds-change, content-of_Holds}
use fat32_rs.Vfs.Io.Walk.{IsOpen}
use fat32_rs.Vfs.Io.Apart.{chain_kept}
use fat32_rs.Vfs.Io.ReadAt.{bytes_of, read_at-content}
use fat32_rs.Vfs.Io.Stored.{IsStored, capacity_of, write_at-IsWritten}
use fat32_rs.File.{WriteType, over_written, placed, read, write}
use fat32_rs.File.Read.{read-read_at}

done-inj : {x y : List ℕ} → done x ≡ done y → x ≡ y
done-inj e = cc

module _ (fs : FileSystem) (self : VirtFile) (c : ℕ) (cs : List ℕ) (block pos : ℕ)
    (s : IsStored fs self c cs block pos) (low : data_start fs.bpb ≤ block) (n : ℕ) where
  abbrev pub sized : FileSystem
  sized =
      with_entry fs self block pos s.entry
        (Short.set_file_size (entry_of fs self block pos s.entry) (n % 2 ^ 32))

  sized-IsEntry : IsEntry (Short.set_file_size (entry_of fs self block pos s.entry) (n % 2 ^ 32))
  sized-IsEntry =
      set_file_size-IsEntry (entry_of fs self block pos s.entry) (n % 2 ^ 32)
        (entry_of-IsEntry fs self block pos s.entry) (omega arith)

  pub set_file_size-sized : set_file_size fs self n ≡ done sized
  unfolding set_file_size
  set_file_size-sized =
      modify_sde_lem fs self block pos s.entry (λ sde. Short.set_file_size sde (n % 2 ^ 32))
        sized-IsEntry

  pub file_size-sized : file_size sized self ≡ done (n % 2 ^ 32)
  unfolding file_size Short.set_file_size Short.file_size
  file_size-sized = rw (read_sde-with_entry fs self block pos s.entry _ sized-IsEntry) refl

  first_cluster-sized : first_cluster sized self ≡ first_cluster fs self
  unfolding first_cluster Short.set_file_size Short.first_cluster
  first_cluster-sized =
      rw
        (
          read_sde-with_entry fs self block pos s.entry _ sized-IsEntry,
          read_sde_lem fs self block pos s.entry,
        )
        refl

  sized_ne : (b : ℕ) → b ≢ block → sized.disk b ≡ fs.disk b
  sized_ne b ne = store_ne fs.disk block _ b ne

  pub sized-IsOpen : IsOpen sized self c cs
  sized-IsOpen = record {
    mounted = s.opened.mounted;
    table = s.opened.table;
    fresh = s.opened.fresh;
    start = s.opened.start;
    first = first_cluster-sized ∙ s.opened.first;
    low = s.opened.low;
    chain =
        chain_kept fs.bpb fs.fat.fat1_offset s.opened.mounted fs.disk sized.disk
          (λ b l. sized_ne b (omega arith)) (c ∷ cs) s.in_table s.opened.chain;
  }

  clusters_kept :
      (xs : List ℕ)
      → All (Outside fs.bpb block) xs
      → All
          (λ x.
            (k : ℕ)
            → k < fs.bpb.basic_bpb.sec_per_clus
            → sized.disk (cluster_start fs.bpb x + k) ≡ fs.disk (cluster_start fs.bpb x + k))
          xs
  clusters_kept [] a = tt
  clusters_kept (x ∷ xs) a =
      (λ k l. sized_ne (cluster_start fs.bpb x + k) (omega (arith, a.0)), clusters_kept xs a.1)

  -- The bytes of the file do not change with its entry.
  pub bytes-sized :
      (i : ℕ) → i < capacity_of fs (c ∷ cs) → bytes_of sized (c ∷ cs) i ≡ bytes_of fs (c ∷ cs) i
  bytes-sized i l =
      let spc = fs.bpb.basic_bpb.sec_per_clus in
      let start = cluster_start fs.bpb in
      content-of_Holds start spc sized.disk (bytes_of fs (c ∷ cs)) (c ∷ cs) i
        (Holds-change start spc fs.disk sized.disk (bytes_of fs (c ∷ cs)) (bytes_of fs (c ∷ cs)) 0
          (c ∷ cs) (λ k m. refl) (clusters_kept (c ∷ cs) s.apart)
          (content-Holds start spc fs.disk (c ∷ cs)))
        l

module _ (fs fs1 : FileSystem) (self self1 : VirtFile) (c : ℕ) (cs : List ℕ) (block pos : ℕ)
    (s : IsStored fs1 self1 c cs block pos) (low : data_start fs1.bpb ≤ block)
    (same_size : cluster_size fs ≡ cluster_size fs1) where
  -- When `incerase_size` has made room, with fuel for the clusters, `write` of a buffer returns its
  -- length; afterwards the size is the new one in 32 bits, and `read_at` gives the bytes of the file
  -- with the buffer in its place.
  pub write-read_at :
      (fuel size : ℕ) (buf : List ℕ) (write_type : WriteType)
      → file_size fs self ≡ done size
      → 0 < length buf
      → incerase_size fs self fuel ((placed write_type size (length buf)).0 + length buf)
        ≡ done (fs1, self1)
      → length (c ∷ cs) ≤ fuel
      → (placed write_type size (length buf)).0 + length buf ≤ capacity_of fs1 (c ∷ cs)
      → (fs3 : FileSystem) × (write fuel fs self buf write_type
          ≡ done (ok (length buf), fs3, self1))
        × (file_size fs3 self1 ≡ done ((placed write_type size (length buf)).1 % 2 ^ 32))
        × IsOpen fs3 self1 c cs
        × (fs3.bpb ≡ fs1.bpb)
        × ((q n : ℕ)
            → q + n ≤ capacity_of fs1 (c ∷ cs)
            → read_at fuel fs3 self1 q n
              ≡ done (
                  slice
                    (patch (bytes_of fs1 (c ∷ cs)) (placed write_type size (length buf)).0 buf)
                    q
                    n))
  unfolding write
  write-read_at fuel size buf write_type known h grown e b =
      let place = (placed write_type size (length buf)).0 in
      let new_size = (placed write_type size (length buf)).1 in
      let (d', ran, w) =
        write_at-IsWritten fs fs1 self self1 c cs block pos s fuel place buf h grown same_size e
          b in
      let fs2 = record fs1 { disk = d' } in
      let fs3 = sized fs2 self1 c cs block pos w.stored low new_size in
      let opened = sized-IsOpen fs2 self1 c cs block pos w.stored low new_size in
      (
        fs3,
        rw (known, ran, set_file_size-sized fs2 self1 c cs block pos w.stored low new_size),
        file_size-sized fs2 self1 c cs block pos w.stored low new_size,
        opened,
        refl,
        λ q n room.
            read_at-content fs3 self1 c cs fuel q n opened e room
            ∙ ap done (
                slice_ext (bytes_of fs3 (c ∷ cs)) (patch (bytes_of fs1 (c ∷ cs)) place buf) q n
                  (λ i p l.
                    bytes-sized fs2 self1 c cs block pos w.stored low new_size i (omega arith)
                    ∙ w.bytes i (omega arith))),
      )

  read_known :
      (fs3 : FileSystem) (fuel n room : ℕ) (out : List ℕ)
      → IsOpen fs3 self1 c cs
      → file_size fs3 self1 ≡ done n
      → fs3.bpb ≡ fs1.bpb
      → length (c ∷ cs) < fuel
      → length cs * (fs1.bpb.basic_bpb.sec_per_clus * 512) < n
      → n ≤ capacity_of fs1 (c ∷ cs)
      → n < 2 ^ 32
      → n ≤ room
      → read_at fuel fs3 self1 0 n ≡ done out
      → read fuel fs3 self1 room ≡ done (ok (n, out))
  read_known fs3 fuel n room out o known e f lo hi small enough got =
      let (out', got', ran) =
        read-read_at fs3 self1 c cs fuel n room o known f (omega (arith, o.mounted.volume.cluster))
          (subst (λ b. length cs * (b.basic_bpb.sec_per_clus * 512) < n) (sym e) lo)
          (subst (λ b. n ≤ length (c ∷ cs) * (b.basic_bpb.sec_per_clus * 512)) (sym e) hi) in
      let same : out' ≡ out = done-inj (sym got' ∙ got) in
      ran ∙ rw (le→ltb room n enough) (ap (λ z. done (ok (n, z))) same)

  -- When `incerase_size` has made room for the buffer, of less than 2 ^ 32 bytes, and the file has no
  -- more clusters than it needs, with fuel for these, `write` over the file returns the length of the
  -- buffer, and `read` into one that is long enough then gives that length and the buffer.
  pub read-write :
      (fuel size room : ℕ) (buf : List ℕ)
      → file_size fs self ≡ done size
      → incerase_size fs self fuel (0 + length buf) ≡ done (fs1, self1)
      → length (c ∷ cs) < fuel
      → length cs * (fs1.bpb.basic_bpb.sec_per_clus * 512) < length buf
      → length buf ≤ capacity_of fs1 (c ∷ cs)
      → length buf < 2 ^ 32
      → length buf ≤ room
      → (fs3 : FileSystem) × (write fuel fs self buf over_written
          ≡ done (ok (length buf), fs3, self1))
        × (read fuel fs3 self1 room ≡ done (ok (length buf, buf)))
  read-write fuel size room buf known grown e lo hi small enough =
      let (fs3, ran, known', o, e', reads) =
        write-read_at fuel size buf over_written known (omega arith) grown (omega arith)
          (omega arith) in
      let n : length buf % 2 ^ 32 ≡ length buf = omega arith in
      (
        fs3,
        ran,
        read_known fs3 fuel (length buf) room buf o (known' ∙ ap done n) e' e lo hi small enough (
            reads 0 (length buf) (omega arith)
            ∙ ap done (slice-patch (bytes_of fs1 (c ∷ cs)) 0 buf)),
      )
