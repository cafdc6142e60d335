-- ===== src/File/Blocks.antt =====
-- src/file.rs: what `read` copies of the clusters of a chain.
use fat32_rs.Base.{
  ℕ, zero, suc, ◌+◌, ◌-◌, ◌*◌, ◌/◌, ◌%◌, ◌^◌, ◌≤◌, ◌<◌, ◌≡◌, arith, ap, ◌∙◌, refl, sym, ◌==◌, ◌||◌,
  min, lt→ltb, le→ltb, le→leb, true, false, List, [], ◌∷◌, length, Option, none, some, done, Bool,
}
use mathlib.Core.Path.{ap₂}
use native.Mathlib.Decide.{dec_lt}
use fat32_rs.Bytes.{Bytes, slice}
use fat32_rs.Disk.{Disk, read-block}
use fat32_rs.Bpb.Geometry.{cluster_start, offset-done}
use fat32_rs.Fat.Entries.{entry}
use fat32_rs.Fat.Walk.{IsChain}
use fat32_rs.Fat.Cursor.{ClusterChain, next}
use fat32_rs.Fat.Cursor.Iterate.{at_cluster, next-on_cluster, next-last_cluster}
use fat32_rs.Fs.{FileSystem, sector_pre_cluster}
use fat32_rs.Fs.Shape.{IsMounted, mounted-IsAligned}
use fat32_rs.Names.{get_needed_sector}
use fat32_rs.Vfs.Io.Copy.{Holds, slice-append}
use fat32_rs.File.{copy_blocks, copy_cluster, copy_clusters}

module _ (f : Bytes) (disk : Disk) (room : ℕ) where
  -- The first bytes of the file.
  abbrev pub front : ℕ → List ℕ
  front n = slice f 0 n

  abbrev pub IsBlocks : ℕ → ℕ → ℕ → Type 0
  IsBlocks left block n = (j : ℕ) → j < n * 512 → f (left + j) ≡ disk (block + j / 512) (j % 512)

  block_step :
      (n block index index' end : ℕ)
      → ((j : ℕ) → j < 512 → f (index + j) ≡ disk block j)
      → index ≤ end
      → end ≤ room
      → end < 2 ^ 64
      → index' ≡ min (index + 512) end
      → copy_blocks disk room end (suc n) block index (front index)
        ≡ copy_blocks disk room end n (block + 1) index' (front index')
  unfolding copy_blocks
  block_step n block index index' end same l r b e =
      let len : min 512 ((end + 2 ^ 64 - index) % 2 ^ 64) ≡ min 512 (end - index) = omega arith in
      let there : index + min 512 (end - index) ≡ index' = omega arith in
      rw
        (
          len,
          read-block disk block,
          le→leb (index + min 512 (end - index)) room (omega arith),
          slice-append f (disk block) 0 index 0 (min 512 (end - index)) (λ i lt.
              ap (disk block) (omega arith) ∙ sym (same i (omega arith)) ∙ ap f (omega arith)),
          there,
        )
        refl

  -- The blocks up to the one in which the end is.
  pub copy_blocks_lem :
      (n block index end : ℕ)
      → IsBlocks index block n
      → index ≤ end
      → end ≤ index + n * 512
      → index + n * 512 < end + 512
      → end ≤ room
      → end < 2 ^ 64
      → copy_blocks disk room end n block index (front index) ≡ done (end, front end)
  unfolding copy_blocks
  copy_blocks_lem zero block index end same l b t r k =
      let e : index ≡ end = omega arith in ap (λ z. done (z, front z)) e
  copy_blocks_lem (suc zero) block index end same l b t r k =
      block_step zero block index end end
        (λ j lt. same j (omega arith) ∙ ap₂ disk (omega arith) (omega arith)) l r k (omega arith)
  copy_blocks_lem (suc (suc n)) block index end same l b t r k =
      block_step (suc n) block index (index + 512) end
        (λ j lt. same j (omega arith) ∙ ap₂ disk (omega arith) (omega arith)) l r k (omega arith)
      ∙ copy_blocks_lem (suc n) (block + 1) (index + 512) end
          (λ j lt.
            ap f (omega arith)
            ∙ same (512 + j) (omega arith)
            ∙ ap₂ disk (omega arith) (omega arith))
          (omega arith) (omega arith) (omega arith) r k

-- The rest of a size behind whole clusters.
rest_of_size :
    (size index k q : ℕ) → index ≡ q * k → index ≤ size → size < index + k → size % k ≡ size - index
rest_of_size size index k q e l b = grind arith

module _ (fs : FileSystem) (m : IsMounted fs.bpb fs.fat.fat1_offset) (f : Bytes) (size room : ℕ)
    (enough : size ≤ room) (small : size + fs.bpb.basic_bpb.sec_per_clus * 512 < 2 ^ 64) where
  abbrev spc : ℕ
  spc = fs.bpb.basic_bpb.sec_per_clus

  pub cluster_block :
      (c : ℕ)
      → cluster_start fs.bpb c * fs.bpb.basic_bpb.byts_per_sec / 512 ≡ cluster_start fs.bpb c
  cluster_block c = rw m.block (omega arith)

  pub cluster_aligned : (c : ℕ) → cluster_start fs.bpb c * fs.bpb.basic_bpb.byts_per_sec % 512 ≡ 0
  cluster_aligned c = rw m.block (omega arith)

  pub or_true : (b : Bool) → (b || (0 == 0)) ≡ true
  or_true true = refl
  or_true false = refl

  pub whole_cluster :
      (c index : ℕ)
      → 2 ≤ c
      → IsBlocks f fs.disk room index (cluster_start fs.bpb c) spc
      → index + spc * 512 ≤ size
      → copy_cluster fs size room c spc index (front f fs.disk room index)
        ≡ done (spc, index + spc * 512, front f fs.disk room (index + spc * 512))
  unfolding copy_cluster sector_pre_cluster fat32_rs.Bpb.sector_per_cluster
  whole_cluster c index h same l = rw (
    offset-done m.volume c h,
    le→ltb ((size + 2 ^ 64 - index) % 2 ^ 64) (spc * 512) (omega arith),
    cluster_block c,
    cluster_aligned c,
    or_true (spc == 0),
    copy_blocks_lem f fs.disk room spc (cluster_start fs.bpb c) index (index + spc * 512) same
        (omega arith) (omega arith) (omega arith) (omega arith) (omega arith),
  )

  pub part_of_cluster :
      (c index q : ℕ)
      → 2 ≤ c
      → IsBlocks f fs.disk room index (cluster_start fs.bpb c) spc
      → index ≡ q * (spc * 512)
      → index ≤ size
      → size < index + spc * 512
      → copy_cluster fs size room c spc index (front f fs.disk room index)
        ≡ done (get_needed_sector (size - index), size, front f fs.disk room size)
  unfolding copy_cluster sector_pre_cluster fat32_rs.Bpb.sector_per_cluster get_needed_sector
  part_of_cluster c index q h same e l b =
      let left = rest_of_size size index (spc * 512) q e l b in
      let end : index + (size - index) ≡ size = omega arith in
      let count = (size - index + 512 - 1) / 512 in
      rw (
        offset-done m.volume c h,
        lt→ltb ((size + 2 ^ 64 - index) % 2 ^ 64) (spc * 512) (omega arith),
        left,
        cluster_block c,
        cluster_aligned c,
        end,
        or_true (count == 0),
        copy_blocks_lem f fs.disk room count (cluster_start fs.bpb c) index size
            (λ j lt. same j (omega arith)) l (omega arith) (omega arith) (omega arith)
            (omega arith),
      )

  copy_step :
      (fuel : ℕ) (chain chain' i : ClusterChain) (b index b' index' : ℕ) (out out' : List ℕ)
      → next chain fs.disk ≡ done (chain', some i)
      → copy_cluster fs size room i.current_cluster b index out ≡ done (b', index', out')
      → copy_clusters (suc fuel) fs size room chain b index out
        ≡ copy_clusters fuel fs size room chain' b' index' out'
  unfolding copy_clusters
  copy_step fuel chain chain' i b index b' index' out out' step ran = rw (step, ran)

  copy_end :
      (fuel : ℕ) (chain chain' : ClusterChain) (b index : ℕ) (out : List ℕ)
      → next chain fs.disk ≡ done (chain', none)
      → copy_clusters (suc fuel) fs size room chain b index out ≡ done out
  unfolding copy_clusters
  copy_end fuel chain chain' b index out step = rw step

  abbrev off : ℕ
  off = fs.fat.fat1_offset

  -- The cursor goes on to a cluster, and the last cluster is the one in which the file ends.
  pub copy_clusters_lem :
      (fuel start : ℕ) (previous : Option ℕ) (chain : ClusterChain) (c : ℕ) (cs : List ℕ)
      (index q : ℕ)
      → next chain fs.disk
        ≡ done (
          at_cluster off fs.disk start previous c,
          some (at_cluster off fs.disk start previous c),
        )
      → length (c ∷ cs) < fuel
      → 2 ≤ c
      → IsChain (entry off fs.disk) (c ∷ cs)
      → Holds (cluster_start fs.bpb) spc fs.disk f index (c ∷ cs)
      → index ≡ q * (spc * 512)
      → index + length cs * (spc * 512) < size
      → size ≤ index + length (c ∷ cs) * (spc * 512)
      → copy_clusters fuel fs size room chain spc index (front f fs.disk room index)
        ≡ done (front f fs.disk room size)
  copy_clusters_lem zero start previous chain c cs index q step e h ch hold i l b =
      absurd (omega arith)
  copy_clusters_lem (suc zero) start previous chain c cs index q step e h ch hold i l b =
      absurd (omega arith)
  copy_clusters_lem (suc (suc fuel)) start previous chain c [] index q step e h ch hold i l b =
      elim (dec_lt size (index + spc * 512)) [
        | yes part ↦
            copy_step (suc fuel) chain (at_cluster off fs.disk start previous c)
              (at_cluster off fs.disk start previous c) spc index (get_needed_sector (size - index))
              size (front f fs.disk room index) (front f fs.disk room size) step
              (part_of_cluster c index q h hold.0 i (omega arith) part)
            ∙ copy_end fuel (at_cluster off fs.disk start previous c)
                (at_cluster off fs.disk start previous c) (get_needed_sector (size - index)) size
                (front f fs.disk room size)
                (next-last_cluster off (mounted-IsAligned m) fs.disk start previous c h ch)
        | no whole ↦
            let all : index + spc * 512 ≡ size = omega arith in
            copy_step (suc fuel) chain (at_cluster off fs.disk start previous c)
              (at_cluster off fs.disk start previous c) spc index spc (index + spc * 512)
              (front f fs.disk room index) (front f fs.disk room (index + spc * 512)) step
              (whole_cluster c index h hold.0 (omega arith))
            ∙ copy_end fuel (at_cluster off fs.disk start previous c)
                (at_cluster off fs.disk start previous c) spc (index + spc * 512)
                (front f fs.disk room (index + spc * 512))
                (next-last_cluster off (mounted-IsAligned m) fs.disk start previous c h ch)
            ∙ ap (λ z. done (front f fs.disk room z)) all
      ]
  copy_clusters_lem (suc (suc fuel)) start previous chain c (y ∷ ys) index q step e h ch hold i l
        b =
      copy_step (suc fuel) chain (at_cluster off fs.disk start previous c)
        (at_cluster off fs.disk start previous c) spc index spc (index + spc * 512)
        (front f fs.disk room index) (front f fs.disk room (index + spc * 512)) step
        (whole_cluster c index h hold.0 (omega arith))
      ∙ copy_clusters_lem (suc fuel) start (some c) (at_cluster off fs.disk start previous c) y ys
          (index + spc * 512) (suc q)
          (next-on_cluster off (mounted-IsAligned m) fs.disk start previous c y h ch.0 ch.2)
          (omega arith) ch.1 ch.3 hold.1 (omega (arith, i)) (omega arith) (omega arith)
