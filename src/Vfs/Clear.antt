-- ===== src/Vfs/Clear.antt =====
-- src/vfs.rs: `clear` removes a file.
use fat32_rs.Base.{
  ℕ, zero, suc, ◌+◌, ◌^◌, ◌≤◌, ◌<◌, ◌≡◌, ◌≢◌, refl, arith, ne→==, le→leb, lt→ltb, ap, ◌∙◌, List, [],
  ◌∷◌, ◌++◌, length, set, All, ◌∉◌, done,
}
use fat32_rs.Disk.{Disk, read-done, store_self, store_ne}
use fat32_rs.Bpb.{BiosParameterBlock}
use fat32_rs.Bpb.Geometry.{data_start}
use fat32_rs.Entry.{dir_entry_unused}
use fat32_rs.Entry.Short.{ShortDirEntry, delete, set_first_cluster}
use fat32_rs.Entry.Short.Fields.{IsEntry}
use fat32_rs.Entry.Short.Codec.{new_from_bytes-as_bytes}
use fat32_rs.Fat.{FatManager, end_of_cluster, get_all_cluster_id}
use fat32_rs.Fat.Entries.{entry, entry_block, entry_same}
use fat32_rs.Fat.Walk.{IsChain, walks-chain}
use fat32_rs.Fs.{FileSystem, dealloc_cluster}
use fat32_rs.Fs.Shape.{IsMounted, capacity, mounted-IsAligned, entry_block_bounds}
use fat32_rs.Fs.Alloc.Step.{state}
use fat32_rs.Fs.Dealloc.{dealloc_cluster-Freed}
use fat32_rs.Vfs.{VirtFile, sde_pos, read_sde, modify_sde, first_cluster}
use fat32_rs.Vfs.Chain.{clear, delete_ldes}
use fat32_rs.Vfs.Fields.{IsPlaced, entry_of, with_entry, entry_of-IsEntry, modify_sde_lem}

length-set : (xs : List ℕ) (i v : ℕ) → length (set xs i v) ≡ length xs
length-set [] i v = refl
length-set (x ∷ xs) zero v = refl
length-set (x ∷ xs) (suc i) v = ap suc (length-set xs i v)

All-set_first :
    (xs : List ℕ) (v : ℕ) → v < 256 → All (λ c. c < 256) xs → All (λ c. c < 256) (set xs 0 v)
All-set_first [] v h a = tt
All-set_first (x ∷ xs) v h a = (h, a.1)

delete-IsEntry : (e : ShortDirEntry) → IsEntry e → IsEntry (delete e)
unfolding delete set_first_cluster
delete-IsEntry e v = record {
  name = length-set e.name 0 dir_entry_unused ∙ v.name;
  name_bytes = All-set_first e.name dir_entry_unused (omega arith) v.name_bytes;
  extension = v.extension;
  extension_bytes = v.extension_bytes;
  attr = v.attr;
  nt_res = v.nt_res;
  crt_time_tenth = v.crt_time_tenth;
  crt_time = v.crt_time;
  crt_date = v.crt_date;
  lst_acc_date = v.lst_acc_date;
  fst_clus_hi = omega arith;
  wrt_time = v.wrt_time;
  wrt_date = v.wrt_date;
  fst_clus_lo = omega arith;
  file_size = omega arith;
}

module _ (bpb : BiosParameterBlock) (off : ℕ) (m : IsMounted bpb off) where
  -- The table is not changed by a change of a data block.
  entry-data :
      (d d' : Disk) (block x : ℕ)
      → data_start bpb ≤ block
      → ((k : ℕ) → k ≢ block → d' k ≡ d k)
      → x < capacity bpb
      → entry off d' x ≡ entry off d x
  entry-data d d' block x h same l =
      let (lo, hi) = entry_block_bounds m x l in
      entry_same off (mounted-IsAligned m) d d' x (same (entry_block off x) (omega arith))

  IsChain-data :
      (e f : ℕ → ℕ) (xs : List ℕ)
      → All (λ x. x < capacity bpb) xs
      → ((x : ℕ) → x < capacity bpb → f x ≡ e x)
      → IsChain e xs
      → IsChain f xs
  IsChain-data e f [] a same ch = tt
  IsChain-data e f (x ∷ []) a same ch = rw (same x a.0) ch
  IsChain-data e f (x ∷ y ∷ ys) a same ch =
      (same x a.0 ∙ ch.0, ch.1, ch.2, IsChain-data e f (y ∷ ys) a.1 same ch.3)

  clear_run :
      (fuel free : ℕ) (root : ShortDirEntry) (d d1 : Disk) (q : List ℕ) (self : VirtFile) (c : ℕ)
      (cs : List ℕ) (fs' : FileSystem)
      → self.lde_pos ≡ []
      → first_cluster (state bpb off free root d q) self ≡ done c
      → modify_sde (state bpb off free root d q) self delete ≡ done (state bpb off free root d1 q)
      → 2 ≤ c
      → c < end_of_cluster
      → get_all_cluster_id (record { recycled_cluster = q; fat1_offset = off }) d1 fuel c
        ≡ done (c ∷ cs)
      → dealloc_cluster (state bpb off free root d1 q) (c ∷ cs) ≡ done fs'
      → clear fuel (state bpb off free root d q) self ≡ done (length (c ∷ cs), fs')
  unfolding clear delete_ldes modify_sde
  clear_run fuel free root d d1 q self c cs fs' none_long first removed h k all freed =
      rw (first, none_long, removed, le→leb 2 c h, lt→ltb c end_of_cluster k, all, freed) refl

  -- A file without long entries, whose short entry lies among the data and whose chain lies in the
  -- table, is removed by `clear`, with more fuel than it has clusters: its entry is the deleted one,
  -- the entries of its clusters are free and all others of the table as before, and the clusters are
  -- queued and counted, their number being the result.
  pub clear-Freed :
      (fuel free : ℕ) (root : ShortDirEntry) (d : Disk) (q : List ℕ) (self : VirtFile)
      (block place c : ℕ) (cs : List ℕ)
      → (at : IsPlaced (state bpb off free root d q) self block place) → data_start bpb ≤ block
      → self.lde_pos ≡ []
      → first_cluster (state bpb off free root d q) self ≡ done c
      → 2 ≤ c
      → c < end_of_cluster
      → IsChain (entry off d) (c ∷ cs)
      → All (λ x. x < capacity bpb) (c ∷ cs)
      → length cs < fuel
      → length cs + 1 < 2 ^ 32
      → (d' : Disk) × (clear fuel (state bpb off free root d q) self
          ≡ done (length (c ∷ cs), state bpb off (free + length (c ∷ cs)) root d' (q ++ c ∷ cs)))
        × (read_sde (state bpb off (free + length (c ∷ cs)) root d' (q ++ c ∷ cs)) self
            ≡ done (delete (entry_of (state bpb off free root d q) self block place at)))
        × All (λ x. entry off d' x ≡ 0) (c ∷ cs)
        × ((x : ℕ) → x < capacity bpb → x ∉ (c ∷ cs) → entry off d' x ≡ entry off d x)
  unfolding read_sde sde_pos
  clear-Freed fuel free root d q self block place c cs at low none_long first h k ch a f small =
      let fs = state bpb off free root d q in
      let e = entry_of fs self block place at in
      let v = delete-IsEntry e (entry_of-IsEntry fs self block place at) in
      let d1 : Disk = (with_entry fs self block place at (delete e)).disk in
      let kept : (x : ℕ) → x < capacity bpb → entry off d1 x ≡ entry off d x =
        λ x l. entry-data d d1 block x low (λ i ne. store_ne d block _ i ne) l in
      let ch1 = IsChain-data (entry off d) (entry off d1) (c ∷ cs) a kept ch in
      let (d', ran, freed, counted) = dealloc_cluster-Freed bpb off m free root d1 q c cs a in
      let fat : FatManager = record { recycled_cluster = q; fat1_offset = off } in
      (
        d',
        clear_run fuel free root d d1 q self c cs _ none_long first
            (modify_sde_lem fs self block place at delete v) h k
            (walks-chain fat (mounted-IsAligned m) d1 fuel c cs f small h k ch1).0 ran,
        rw
            (
              ne→== self.sde_pos.cluster 0 at.not_root,
              at.position,
              read-done d' block 32 place at.inside,
              freed.data_same block low,
              store_self d block _,
              (new_from_bytes-as_bytes v (d block) place).1,
            )
            refl,
        freed.freed,
        λ x l out. freed.same x out ∙ kept x l,
      )
