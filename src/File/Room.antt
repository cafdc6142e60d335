-- ===== src/File/Room.antt =====
-- src/file.rs: `write` to a file that has room, or gets it.
use fat32_rs.Base.{
  ℕ, ◌+◌, ◌%◌, ◌^◌, ◌≤◌, ◌<◌, ◌≡◌, ◌⊎◌, refl, arith, ap, sym, ◌∙◌, List, ◌∷◌, ◌++◌, length, done,
  ok,
}
use mathlib.Core.Path.{subst}
use fat32_rs.Bytes.{patch, slice, slice_ext}
use fat32_rs.Disk.{Disk}
use fat32_rs.Bpb.{BiosParameterBlock}
use fat32_rs.Bpb.Geometry.{data_start}
use fat32_rs.Entry.Short.{ShortDirEntry}
use fat32_rs.Fat.Entries.{entry}
use fat32_rs.Fs.{FileSystem}
use fat32_rs.Fs.Alloc.Step.{Outside, state}
use fat32_rs.Vfs.{VirtFile, file_size}
use fat32_rs.Vfs.Io.{read_at}
use fat32_rs.Vfs.Io.ReadAt.{bytes_of}
use fat32_rs.Vfs.Io.Stored.{IsStored, capacity_of}
use fat32_rs.Vfs.Io.Walk.{IsOpen}
use fat32_rs.Vfs.Grow.Room.{HasRoom, grown_capacity, incerase_size-IsEnlarged}
use fat32_rs.Vfs.Grow.Run.{patch_agree}
use fat32_rs.File.{WriteType, over_written, append, placed, write}
use fat32_rs.File.Write.{write-read_at}

-- Where a write begins in a file of a size.
abbrev pub begin_of : WriteType → ℕ → ℕ
begin_of over_written size = 0
begin_of append size = size

placed_end :
    (write_type : WriteType) (size len : ℕ)
    → (placed write_type size len).0 + len ≡ (placed write_type size len).1
placed_end over_written size len = omega arith
placed_end append size len = refl

placed_held :
    (write_type : WriteType) (size len held : ℕ)
    → size ≤ held
    → (placed write_type size len).0 ≤ held
placed_held over_written size len held h = omega arith
placed_held append size len held h = h

module _ (bpb : BiosParameterBlock) (off free : ℕ) (root : ShortDirEntry) (d : Disk) (q : List ℕ)
    (self : VirtFile) (c : ℕ) (cs : List ℕ) (block pos : ℕ)
    (s : IsStored (state bpb off free root d q) self c cs block pos) (low : data_start bpb ≤ block)
    (away : (x : ℕ) → entry off d x ≡ 0 → 2 ≤ x → Outside bpb block x) where
  abbrev fs : FileSystem
  fs = state bpb off free root d q

  write_placed :
      (fuel size : ℕ) (buf : List ℕ) (write_type : WriteType)
      → 0 < length buf
      → size ≤ capacity_of fs (c ∷ cs)
      → HasRoom bpb off free root d q self c cs block pos s low away fuel
          ((placed write_type size (length buf)).0 + length buf)
          size
      → (ds : List ℕ) × (fs' : FileSystem) × (write fuel fs self buf write_type
          ≡ done (ok (length buf), fs', self))
        × (file_size fs' self ≡ done ((placed write_type size (length buf)).0 + length buf))
        × IsOpen fs' self c (cs ++ ds)
        × ((p t : ℕ)
            → (p + t ≤ capacity_of fs (c ∷ cs))
              ⊎ (p + t ≤ (placed write_type size (length buf)).0 + length buf)
            → read_at fuel fs' self p t
              ≡ done (
                  slice
                    (patch (bytes_of fs (c ∷ cs)) (placed write_type size (length buf)).0 buf)
                    p
                    t))
  write_placed fuel size buf write_type h held r =
      let place = (placed write_type size (length buf)).0 in
      let new_size = (placed write_type size (length buf)).1 in
      let old = capacity_of fs (c ∷ cs) in
      let (all, fs1, g) =
        incerase_size-IsEnlarged bpb off free root d q self c cs block pos s low away fuel
          (place + length buf) size r in
      let (ds, e) = g.more in
      let (fs3, ran, size_now, o, e', reads) =
        write-read_at fs fs1 self self c all block pos g.stored
          (subst (λ b. data_start b ≤ block) g.shape low) g.same_size fuel size buf write_type
          r.known h g.ran g.fuel_all g.room_now in
      let whole : new_size % 2 ^ 32 ≡ place + length buf =
        omega (arith, r.small, placed_end write_type size (length buf)) in
      let wider =
        grown_capacity bpb off free root d q self c cs block pos s low away fs1 all ds g.shape e in
      (
        ds,
        fs3,
        ran,
        size_now ∙ ap done whole,
        subst (λ z. IsOpen fs3 self c z) (sym e) o,
        λ p t l.
            reads p t (omega (arith, l, wider, g.room_now))
            ∙ ap done (
                slice_ext (patch (bytes_of fs1 (c ∷ all)) place buf)
                  (patch (bytes_of fs (c ∷ cs)) place buf) p t
                  (λ i a b.
                    patch_agree (bytes_of fs1 (c ∷ all)) (bytes_of fs (c ∷ cs)) place i buf
                      (λ beside. g.bytes i (
                        omega (
                          arith,
                          beside,
                          l,
                          b,
                          placed_held write_type size (length buf) old held,
                        ))))),
      )

  -- For a file that is stored in its own clusters, which hold its size, with its entry among the data and in
  -- no free cluster, and a buffer of at least one byte for which its clusters are enough or others can be
  -- allocated, `write` returns the length of the buffer. The file then is open on its old clusters and
  -- maybe more behind them, and its size is the end of the buffer. `read_at` of a range that the old
  -- clusters hold, or that ends no later than the buffer, gives the bytes that the file had before, with
  -- the buffer in its place: in front if the file is overwritten, behind its old size if it is appended to.
  pub write-HasRoom :
      (fuel size : ℕ) (buf : List ℕ) (write_type : WriteType)
      → 0 < length buf
      → size ≤ capacity_of fs (c ∷ cs)
      → HasRoom bpb off free root d q self c cs block pos s low away fuel
          (begin_of write_type size + length buf)
          size
      → (ds : List ℕ) × (fs' : FileSystem) × (write fuel fs self buf write_type
          ≡ done (ok (length buf), fs', self))
        × (file_size fs' self ≡ done (begin_of write_type size + length buf))
        × IsOpen fs' self c (cs ++ ds)
        × ((p t : ℕ)
            → (p + t ≤ capacity_of fs (c ∷ cs)) ⊎ (p + t ≤ begin_of write_type size + length buf)
            → read_at fuel fs' self p t
              ≡ done (slice (patch (bytes_of fs (c ∷ cs)) (begin_of write_type size) buf) p t))
  write-HasRoom fuel size buf over_written h held r =
      write_placed fuel size buf over_written h held r
  write-HasRoom fuel size buf append h held r = write_placed fuel size buf append h held r
