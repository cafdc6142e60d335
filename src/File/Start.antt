-- ===== src/File/Start.antt =====
-- src/file.rs: a file without clusters is written, and read back.
use fat32_rs.Base.{ℕ, suc, ◌+◌, ◌*◌, ◌≤◌, ◌<◌, ◌≡◌, arith, List, length, done, ok}
use mathlib.Core.Path.{subst}
use fat32_rs.Disk.{Disk}
use fat32_rs.Bpb.{BiosParameterBlock}
use fat32_rs.Bpb.Geometry.{data_start}
use fat32_rs.Entry.Short.{ShortDirEntry}
use fat32_rs.Fat.Entries.{entry}
use fat32_rs.Fs.{FileSystem}
use fat32_rs.Fs.Shape.{IsMounted}
use fat32_rs.Fs.Alloc.Step.{Outside, state}
use fat32_rs.Vfs.{VirtFile}
use fat32_rs.Vfs.Chain.{incerase_size}
use fat32_rs.Vfs.Fields.{IsPlaced}
use fat32_rs.Vfs.Grow.First.{started}
use fat32_rs.Vfs.Grow.Start.{IsStartable, incerase_size-IsStarted}
use fat32_rs.File.{over_written, read, write}
use fat32_rs.File.Write.{read-write}

module _ (bpb : BiosParameterBlock) (off free : ℕ) (root : ShortDirEntry) (d : Disk) (q : List ℕ)
    (m : IsMounted bpb off) (self : VirtFile) (block pos : ℕ)
    (at : IsPlaced (state bpb off free root d q) self block pos)
    (table : self.cluster_chain.fat1_offset ≡ off) (low : data_start bpb ≤ block)
    (away : (x : ℕ) → entry off d x ≡ 0 → 2 ≤ x → Outside bpb block x) where
  abbrev fs : FileSystem
  fs = state bpb off free root d q

  -- For a file without clusters, whose entry stands among the data and in no free cluster, and a buffer of
  -- at least one byte that needs `n + 1` clusters, which a pool has and which are counted free, with more
  -- fuel than these and enough for the table, `write` over the file returns the length of the buffer, and
  -- `read` of the file that it leaves, into a buffer that is long enough, gives that length and the bytes.
  pub read-write-IsStarted :
      (fuel size n w k room : ℕ) (buf : List ℕ)
      → 0 < length buf
      → IsStartable bpb off free root d q m self block pos at table low away fuel
          (length buf)
          size
          n
          w
          k
      → suc n < fuel
      → length buf ≤ room
      → (fs' : FileSystem) × (self' : VirtFile) × (write fuel fs self buf over_written
          ≡ done (ok (length buf), fs', self'))
        × (read fuel fs' self' room ≡ done (ok (length buf, buf)))
  read-write-IsStarted fuel size n w k room buf h r f l =
      let (start, ds, fs1, g) =
        incerase_size-IsStarted bpb off free root d q m self block pos at table low away fuel
          (length buf) size n w k r in
      let front : length buf ≡ 0 + length buf = omega arith in
      let grown =
        subst (λ x. incerase_size fs self fuel x ≡ done (fs1, started self start)) front g.ran in
      let rest : length ds ≡ n = omega (arith, g.count) in
      let (fs3, ran, back) =
        read-write fs fs1 self (started self start) start ds block pos g.stored
          (subst (λ b. data_start b ≤ block) g.shape low) g.same_size fuel size room buf r.known
          grown (omega (arith, g.count, f))
          (subst (λ b. length ds * (b.basic_bpb.sec_per_clus * 512) < length buf) g.shape
            (rw rest g.least))
          g.room r.small l in
      (fs3, started self start, ran, back)
