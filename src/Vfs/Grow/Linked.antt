-- ===== src/Vfs/Grow/Linked.antt =====
-- src/vfs.rs: a file whose chain has been linked to new clusters.
use fat32_rs.Base.{
  ℕ, suc, ◌+◌, ◌-◌, ◌≤◌, ◌<◌, ◌≡◌, ◌≢◌, refl, arith, ap, sym, ◌∙◌, List, ◌∷◌, ◌++◌, last_or, All,
  ◌∉◌, done, ◌>>=◌,
}
use mathlib.Core.Path.{subst}
use fat32_rs.Bytes.{IsBytes}
use fat32_rs.Disk.{Disk}
use fat32_rs.Bpb.{BiosParameterBlock}
use fat32_rs.Bpb.Geometry.{data_start, cluster_start}
use fat32_rs.Entry.Short as Short
use fat32_rs.Entry.Short.{ShortDirEntry, new_from_bytes}
use fat32_rs.Fat.Entries.{entry, entry_block}
use fat32_rs.Fat.Walk.{IsChain}
use fat32_rs.Fs.{FileSystem}
use fat32_rs.Fs.Shape.{capacity, entry_block_bounds}
use fat32_rs.Fs.Pool.{IsFresh}
use fat32_rs.Fs.Alloc.{Allocated}
use fat32_rs.Fs.Alloc.Step.{Outside, state}
use fat32_rs.Vfs.{VirtFile, sde_pos, first_cluster}
use fat32_rs.Vfs.Fields.{IsPlaced, read_sde_lem}
use fat32_rs.Vfs.Io.Copy.{content-Holds, content-of_Holds, Holds-change}
use fat32_rs.Vfs.Io.ReadAt.{bytes_of}
use fat32_rs.Vfs.Io.Apart.{Outside-others}
use fat32_rs.Vfs.Io.Stored.{IsStored, capacity_of}
use fat32_rs.Vfs.Grow.Lists.{
  All-append, All-to, All-both, Distinct-append, content-prefix, used-∉, chain_used, last_or-All,
  IsChain-kept,
}

module _ (bpb : BiosParameterBlock) (off free : ℕ) (root : ShortDirEntry) (d : Disk) (q : List ℕ)
    (self : VirtFile) (c : ℕ) (cs : List ℕ) (block pos : ℕ)
    (s : IsStored (state bpb off free root d q) self c cs block pos) (low : data_start bpb ≤ block)
    (away : (x : ℕ) → entry off d x ≡ 0 → 2 ≤ x → Outside bpb block x) where
  module _ (n start : ℕ) (ds : List ℕ) (d1 : Disk) (q' : List ℕ)
      (a : Allocated bpb off d (suc n) (free - suc n) start ds d1) where
    abbrev pub new : List ℕ
    new = start ∷ ds

    abbrev pub fs1 : FileSystem
    fs1 = state bpb off (free - suc n) root d1 q'

    new_Outside : All (Outside bpb block) new
    new_Outside =
        All-to (IsFresh (capacity bpb) (entry off d)) (Outside bpb block) new
          (λ x f. away x f.free f.two) a.fresh

    pub old_apart : All (λ x. x ∉ new) (c ∷ cs)
    old_apart =
        All-to (λ x. entry off d x ≢ 0) (λ x. x ∉ new) (c ∷ cs)
          (λ x h. used-∉ (capacity bpb) x (entry off d) new h a.fresh)
          (chain_used (entry off d) (c ∷ cs) s.opened.chain)

    pub old_chain : IsChain (entry off d1) (c ∷ cs)
    old_chain =
        IsChain-kept (entry off d) (entry off d1) (c ∷ cs)
          (All-both (λ x. (2 ≤ x) × (x < capacity bpb)) (λ x. x ∉ new)
            (λ x. entry off d1 x ≡ entry off d x) (c ∷ cs) (λ x i out. a.same x i.1 out) s.in_table
            old_apart)
          s.opened.chain

    module _ (d2 : Disk) (linked : IsChain (entry off d2) ((c ∷ cs) ++ new))
        (kept : (b : ℕ) → b ≢ entry_block off (last_or cs c) → d2 b ≡ d1 b) where
      abbrev pub fs2 : FileSystem
      fs2 = state bpb off (free - suc n) root d2 q'

      block_kept : d2 block ≡ d block
      block_kept =
          let last_in = last_or-All (λ x. (2 ≤ x) × (x < capacity bpb)) c cs s.in_table in
          let bounds = entry_block_bounds s.opened.mounted (last_or cs c) last_in.1 in
          kept block (λ e. absurd (omega (arith, bounds.1, low, e)))
          ∙ a.data_same block low new_Outside

      placed : IsPlaced fs2 self block pos
      unfolding sde_pos
      placed = record {
        not_root = s.entry.not_root;
        position = s.entry.position;
        inside = s.entry.inside;
        bytes = subst IsBytes (sym block_kept) s.entry.bytes;
      }

      first_kept : first_cluster fs2 self ≡ done c
      unfolding first_cluster
      first_kept =
          ap (λ r. r >>= λ sde. done (Short.first_cluster sde))
            (read_sde_lem fs2 self block pos placed
              ∙ ap (λ b. done (new_from_bytes (λ i. b (pos + i)))) block_kept
              ∙ sym (read_sde_lem (state bpb off free root d q) self block pos s.entry))
          ∙ s.opened.first

      pub linked_IsStored : IsStored fs2 self c (cs ++ new) block pos
      linked_IsStored = record {
        opened = record {
          mounted = s.opened.mounted;
          table = s.opened.table;
          fresh = s.opened.fresh;
          start = s.opened.start;
          first = first_kept;
          low = s.opened.low;
          chain = linked;
        };
        in_table =
            All-append (λ x. (2 ≤ x) × (x < capacity bpb)) (c ∷ cs) new s.in_table
              (All-to (IsFresh (capacity bpb) (entry off d)) (λ x. (2 ≤ x) × (x < capacity bpb)) new
                (λ x f. (f.two, f.in_table)) a.fresh);
        distinct = Distinct-append (c ∷ cs) new s.distinct a.distinct old_apart;
        entry = placed;
        apart = All-append (Outside bpb block) (c ∷ cs) new s.apart new_Outside;
      }

      last_low : entry_block off (last_or cs c) < data_start bpb
      last_low =
          (entry_block_bounds s.opened.mounted (last_or cs c)
            (last_or-All (λ x. (2 ≤ x) × (x < capacity bpb)) c cs s.in_table).1).1

      new_table : All (λ x. (2 ≤ x) × (x < capacity bpb)) new
      new_table =
          All-to (IsFresh (capacity bpb) (entry off d)) (λ x. (2 ≤ x) × (x < capacity bpb)) new
            (λ x f. (f.two, f.in_table)) a.fresh

      -- The old clusters have the bytes that they had.
      old_blocks :
          All
            (λ x.
              (k : ℕ)
              → k < bpb.basic_bpb.sec_per_clus
              → d2 (cluster_start bpb x + k) ≡ d (cluster_start bpb x + k))
            (c ∷ cs)
      old_blocks =
          All-both (λ x. (2 ≤ x) × (x < capacity bpb)) (λ x. x ∉ new) _ (c ∷ cs)
            (λ x i out k l.
              kept (cluster_start bpb x + k) (λ e. absurd (omega (arith, e, last_low)))
              ∙ a.data_same (cluster_start bpb x + k) (omega arith) (
                  Outside-others bpb (cluster_start bpb x + k) x new i.0 new_table out
                    (omega arith, omega (arith, l))))
            s.in_table old_apart

      pub old_bytes :
          (i : ℕ)
          → i < capacity_of (state bpb off free root d q) (c ∷ cs)
          → bytes_of fs2 (c ∷ (cs ++ new)) i ≡ bytes_of (state bpb off free root d q) (c ∷ cs) i
      old_bytes i l =
          let spc = bpb.basic_bpb.sec_per_clus in
          let start' = cluster_start bpb in
          let old = bytes_of (state bpb off free root d q) (c ∷ cs) in
          content-prefix start' spc d2 (c ∷ cs) new i l
          ∙ content-of_Holds start' spc d2 old (c ∷ cs) i
              (Holds-change start' spc d d2 old old 0 (c ∷ cs) (λ j z. refl) old_blocks
                (content-Holds start' spc d (c ∷ cs)))
              l
