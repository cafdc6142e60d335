-- ===== src/Vfs/Grow/First.antt =====
-- src/vfs.rs: `incerase_size` gives a file without clusters its first ones.
use fat32_rs.Base.{
  ℕ, suc, ◌+◌, ◌-◌, ◌*◌, ◌/◌, ◌%◌, ◌≤◌, ◌<◌, ◌≡◌, refl, arith, ap, sym, ◌∙◌, List, [], ◌∷◌, All,
  done,
}
use mathlib.Core.Path.{subst}
use fat32_rs.Bytes.{IsBytes, patch_bytes}
use fat32_rs.Disk.{Disk, store_self, store_ne}
use fat32_rs.Bpb.{BiosParameterBlock}
use fat32_rs.Bpb.Geometry.{data_start, cluster_start}
use fat32_rs.Entry.Short as Short
use fat32_rs.Entry.Short.{ShortDirEntry}
use fat32_rs.Entry.Short.Fields.{IsEntry, first_cluster-set_first_cluster}
use fat32_rs.Fat.Entries.{entry}
use fat32_rs.Fat.Cursor as Cursor
use fat32_rs.Fs.{FileSystem}
use fat32_rs.Fs.Shape.{IsMounted, capacity}
use fat32_rs.Fs.Pool.{IsFresh}
use fat32_rs.Fs.Alloc.{Allocated}
use fat32_rs.Fs.Alloc.Step.{Outside, Inside, state}
use fat32_rs.Vfs.{VirtFile, sde_pos, first_cluster}
use fat32_rs.Vfs.Chain.{start_chain}
use fat32_rs.Vfs.Fields.{
  IsPlaced, entry_of, entry_of-IsEntry, with_entry, modify_sde_lem, read_sde-with_entry,
  set_first_cluster-IsEntry,
}
use fat32_rs.Vfs.Io.Copy.{Holds, content-of_Holds}
use fat32_rs.Vfs.Io.Apart.{AllData, chain_kept}
use fat32_rs.Vfs.Io.ReadAt.{bytes_of}
use fat32_rs.Vfs.Io.Stored.{IsStored, capacity_of}
use fat32_rs.Vfs.Grow.Lists.{All-to, as_bytes-All}

-- The file with the cursor before its first cluster.
abbrev pub started : VirtFile → ℕ → VirtFile
started self c = record self { cluster_chain = Cursor.refresh self.cluster_chain c }

zero_Holds :
    (bpb : BiosParameterBlock) (d : Disk) (left : ℕ) (xs : List ℕ)
    → All (λ x. (b i : ℕ) → Inside bpb b x → i < 512 → d b i ≡ 0) xs
    → Holds (cluster_start bpb) bpb.basic_bpb.sec_per_clus d (λ i. 0) left xs
zero_Holds bpb d left [] a = tt
zero_Holds bpb d left (x ∷ xs) a = (
  λ j l.
      sym (
        a.0 (cluster_start bpb x + j / 512) (j % 512) (omega arith, omega (arith, l))
          (omega arith)),
  zero_Holds bpb d (left + bpb.basic_bpb.sec_per_clus * 512) xs a.1,
)

module _ (bpb : BiosParameterBlock) (off free : ℕ) (root : ShortDirEntry) (d : Disk) (q : List ℕ)
    (m : IsMounted bpb off) (self : VirtFile) (block pos : ℕ)
    (at : IsPlaced (state bpb off free root d q) self block pos)
    (table : self.cluster_chain.fat1_offset ≡ off) (low : data_start bpb ≤ block)
    (away : (x : ℕ) → entry off d x ≡ 0 → 2 ≤ x → Outside bpb block x) where
  module _ (n start : ℕ) (ds : List ℕ) (d1 : Disk) (q' : List ℕ)
      (a : Allocated bpb off d (suc n) (free - suc n) start ds d1) where
    abbrev pub fs1 : FileSystem
    fs1 = state bpb off (free - suc n) root d1 q'

    abbrev pub self' : VirtFile
    self' = started self start

    outside : All (Outside bpb block) (start ∷ ds)
    outside =
        All-to (IsFresh (capacity bpb) (entry off d)) (Outside bpb block) (start ∷ ds)
          (λ x f. away x f.free f.two) a.fresh

    in_table : AllData bpb (start ∷ ds)
    in_table =
        All-to (IsFresh (capacity bpb) (entry off d)) (λ x. (2 ≤ x) × (x < capacity bpb))
          (start ∷ ds) (λ x f. (f.two, f.in_table)) a.fresh

    pub placed : IsPlaced fs1 self block pos
    unfolding sde_pos
    placed = record {
      not_root = at.not_root;
      position = at.position;
      inside = at.inside;
      bytes = subst IsBytes (sym (a.data_same block low outside)) at.bytes;
    }

    placed' : IsPlaced fs1 self' block pos
    unfolding sde_pos
    placed' = record {
      not_root = at.not_root;
      position = at.position;
      inside = at.inside;
      bytes = placed.bytes;
    }

    abbrev pub named : ShortDirEntry
    named = Short.set_first_cluster (entry_of fs1 self block pos placed) start

    named-IsEntry : IsEntry named
    named-IsEntry =
        set_first_cluster-IsEntry (entry_of fs1 self block pos placed) start
          (entry_of-IsEntry fs1 self block pos placed) (omega (arith, a.fresh.0.small))

    abbrev pub fs2 : FileSystem
    fs2 = with_entry fs1 self block pos placed named

    pub start_chain_run : start_chain fs1 self start ≡ done (fs2, self')
    unfolding start_chain
    start_chain_run =
        rw
          (modify_sde_lem fs1 self block pos placed (λ sde. Short.set_first_cluster sde start)
            named-IsEntry)
          refl

    names : first_cluster fs2 self' ≡ done start
    unfolding first_cluster
    names = rw (read_sde-with_entry fs1 self' block pos placed' named named-IsEntry) (
        ap done
          (first_cluster-set_first_cluster (entry_of fs1 self block pos placed) start
            (entry_of-IsEntry fs1 self block pos placed) (omega (arith, a.fresh.0.small))).0)

    pub started_IsStored : IsStored fs2 self' start ds block pos
    unfolding sde_pos Cursor.refresh
    started_IsStored = record {
      opened = record {
        mounted = m;
        table = table;
        fresh = refl;
        start = refl;
        first = names;
        low = a.fresh.0.two;
        chain =
            chain_kept bpb off m d1 fs2.disk
              (λ b l. store_ne d1 block _ b (λ e. absurd (omega (arith, e, l, low)))) (start ∷ ds)
              in_table a.chain;
      };
      in_table = in_table;
      distinct = a.distinct;
      entry = record {
        not_root = at.not_root;
        position = at.position;
        inside = at.inside;
        bytes = subst IsBytes (sym (store_self d1 block _)) (
            patch_bytes (d1 block) pos (Short.as_bytes named) placed.bytes
              (as_bytes-All named named-IsEntry));
      };
      apart = outside;
    }

    zeroed :
        (xs : List ℕ)
        → All (Outside bpb block) xs
        → All (λ x. (b i : ℕ) → Inside bpb b x → i < 512 → d1 b i ≡ 0) xs
        → All (λ x. (b i : ℕ) → Inside bpb b x → i < 512 → fs2.disk b i ≡ 0) xs
    zeroed [] o z = tt
    zeroed (x ∷ xs) o z = (
      λ b i ins l.
          ap (λ g. g i) (store_ne d1 block _ b (λ e. absurd (omega (arith, e, ins, o.0))))
          ∙ z.0 b i ins l,
      zeroed xs o.1 z.1,
    )

    pub zero_bytes : (i : ℕ) → i < capacity_of fs2 (start ∷ ds) → bytes_of fs2 (start ∷ ds) i ≡ 0
    zero_bytes i l =
        content-of_Holds (cluster_start bpb) bpb.basic_bpb.sec_per_clus fs2.disk (λ i. 0)
          (start ∷ ds) i
          (zero_Holds bpb fs2.disk 0 (start ∷ ds) (zeroed (start ∷ ds) outside a.zeroed)) l
