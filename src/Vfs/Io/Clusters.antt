-- ===== src/Vfs/Io/Clusters.antt =====
-- src/vfs.rs: the loop of `read_at` over the clusters of a chain.
use fat32_rs.Base.{
  ℕ, zero, suc, ◌+◌, ◌*◌, ◌/◌, ◌≤◌, ◌<◌, ◌≡◌, arith, ap, ◌∙◌, min, lt→ltb, lt→leb, le→leb, List, [],
  ◌∷◌, length, Option, some, done,
}
use mathlib.Core.Path.{ap₂}
use native.Mathlib.Decide.{dec_lt}
use fat32_rs.Bytes.{Bytes}
use fat32_rs.Bpb.{sectors_per_cluster}
use fat32_rs.Bpb.Geometry.{cluster_start, offset-done}
use fat32_rs.Fat.{end_of_cluster}
use fat32_rs.Fat.Entries.{entry}
use fat32_rs.Fat.Walk.{IsChain}
use fat32_rs.Fat.Cursor.{ClusterChain, next}
use fat32_rs.Fat.Cursor.Iterate.{at_cluster, next-on_cluster}
use fat32_rs.Fs.{FileSystem}
use fat32_rs.Fs.Shape.{IsMounted, mounted-IsAligned}
use fat32_rs.Vfs.Io.{read_blocks, read_clusters}
use fat32_rs.Vfs.Io.Copy.{Holds, span}
use fat32_rs.Vfs.Io.Read.{upto, IsBlocks, read_blocks_lem}

module _ (fs : FileSystem) (m : IsMounted fs.bpb fs.fat.fat1_offset) (f : Bytes)
    (place end : ℕ) where
  abbrev spc : ℕ
  spc = fs.bpb.basic_bpb.sec_per_clus

  cluster_block :
      (c : ℕ)
      → cluster_start fs.bpb c * fs.bpb.basic_bpb.byts_per_sec / 512 ≡ cluster_start fs.bpb c
  cluster_block c = rw m.block (omega arith)

  read_clusters_stop :
      (fuel c left index left' index' : ℕ) (chain : ClusterChain) (out out' : List ℕ)
      → index < end
      → 2 ≤ c
      → read_blocks end fs.disk spc (cluster_start fs.bpb c) left index out
        ≡ done (left', index', out')
      → end ≤ index'
      → read_clusters end fs (suc fuel) chain c left index out ≡ done out'
  unfolding read_clusters sectors_per_cluster
  read_clusters_stop fuel c left index left' index' chain out out' l h ran b =
      rw (lt→ltb index end l, offset-done m.volume c h, cluster_block c, ran, le→leb end index' b)

  read_clusters_go :
      (fuel c left index left' index' : ℕ) (chain chain' i : ClusterChain) (out out' : List ℕ)
      → index < end
      → 2 ≤ c
      → read_blocks end fs.disk spc (cluster_start fs.bpb c) left index out
        ≡ done (left', index', out')
      → index' < end
      → next chain fs.disk ≡ done (chain', some i)
      → read_clusters end fs (suc fuel) chain c left index out
        ≡ read_clusters end fs fuel chain' i.current_cluster left' index' out'
  unfolding read_clusters sectors_per_cluster
  read_clusters_go fuel c left index left' index' chain chain' i out out' l h ran b step = rw (
    lt→ltb index end l,
    offset-done m.volume c h,
    cluster_block c,
    ran,
    lt→leb end index' b,
    step,
  )

  -- The end is in the blocks of the cluster.
  last_cluster :
      (fuel start : ℕ) (previous : Option ℕ) (c left index : ℕ)
      → 2 ≤ c
      → IsBlocks f fs.disk place end left (cluster_start fs.bpb c) spc
      → place ≤ index
      → left ≤ index
      → index ≤ left + spc * 512
      → index < end
      → end ≤ left + spc * 512
      → read_clusters end fs
          (suc fuel)
          (at_cluster fs.fat.fat1_offset fs.disk start previous c)
          c
          left
          index
          (upto f fs.disk place end index)
        ≡ done (upto f fs.disk place end end)
  last_cluster fuel start previous c left index h same p l q k b =
      let r =
        read_blocks_lem f fs.disk place end spc (cluster_start fs.bpb c) left index same p l q k in
      let e : min (left + spc * 512) end ≡ end = omega arith in
      read_clusters_stop fuel c left index r.left' end
        (at_cluster fs.fat.fat1_offset fs.disk start previous c) (upto f fs.disk place end index)
        (upto f fs.disk place end end) k h
        (r.ran ∙ ap (λ z. done (r.left', z, upto f fs.disk place end z)) e) (omega arith)

  -- The end is behind the cluster, and another one follows.
  next_cluster_of :
      (fuel start : ℕ) (previous : Option ℕ) (c y left index : ℕ)
      → 2 ≤ c
      → entry fs.fat.fat1_offset fs.disk c ≡ y
      → y < end_of_cluster
      → IsBlocks f fs.disk place end left (cluster_start fs.bpb c) spc
      → place ≤ index
      → left ≤ index
      → index ≤ left + spc * 512
      → index < end
      → left + spc * 512 < end
      → read_clusters end fs
          (suc fuel)
          (at_cluster fs.fat.fat1_offset fs.disk start previous c)
          c
          left
          index
          (upto f fs.disk place end index)
        ≡ read_clusters end fs fuel
            (at_cluster fs.fat.fat1_offset fs.disk start (some c) y)
            y
            (left + spc * 512)
            (left + spc * 512)
            (upto f fs.disk place end (left + spc * 512))
  next_cluster_of fuel start previous c y left index h link small same p l q k b =
      let r =
        read_blocks_lem f fs.disk place end spc (cluster_start fs.bpb c) left index same p l q k in
      let e : min (left + spc * 512) end ≡ left + spc * 512 = omega arith in
      read_clusters_go fuel c left index (left + spc * 512) (left + spc * 512)
        (at_cluster fs.fat.fat1_offset fs.disk start previous c)
        (at_cluster fs.fat.fat1_offset fs.disk start (some c) y)
        (at_cluster fs.fat.fat1_offset fs.disk start (some c) y) (upto f fs.disk place end index)
        (upto f fs.disk place end (left + spc * 512)) k h
        (r.ran ∙ ap₂ (λ a z. done (a, z, upto f fs.disk place end z)) (r.at_end b) e) b
        (next-on_cluster fs.fat.fat1_offset (mounted-IsAligned m) fs.disk start previous c y h link
          small)

  pub read_clusters_lem :
      (fuel start : ℕ) (previous : Option ℕ) (c : ℕ) (cs : List ℕ) (left index : ℕ)
      → length cs < fuel
      → 2 ≤ c
      → IsChain (entry fs.fat.fat1_offset fs.disk) (c ∷ cs)
      → Holds (cluster_start fs.bpb) spc fs.disk f left (c ∷ cs)
      → place ≤ index
      → left ≤ index
      → index ≤ left + spc * 512
      → index < end
      → end ≤ left + span (spc * 512) (c ∷ cs)
      → read_clusters end fs fuel
          (at_cluster fs.fat.fat1_offset fs.disk start previous c)
          c
          left
          index
          (upto f fs.disk place end index)
        ≡ done (upto f fs.disk place end end)
  read_clusters_lem zero start previous c cs left index e h ch hold p l q k b = absurd (omega arith)
  read_clusters_lem (suc fuel) start previous c [] left index e h ch hold p l q k b =
      last_cluster fuel start previous c left index h (hold.0) p l q k (omega arith)
  read_clusters_lem (suc fuel) start previous c (y ∷ ys) left index e h ch hold p l q k b =
      elim (dec_lt (left + spc * 512) end) [
        | yes more ↦
            next_cluster_of fuel start previous c y left index h ch.0 ch.2 hold.0 p l q k more
            ∙ read_clusters_lem fuel start (some c) y ys (left + spc * 512) (left + spc * 512)
                (omega arith) ch.1 ch.3 hold.1 (omega arith) (omega arith) (omega arith) more
                (omega arith)
        | no last ↦ last_cluster fuel start previous c left index h (hold.0) p l q k (omega arith)
      ]
