-- ===== src/Vfs/Io/WriteClusters.antt =====
-- src/vfs.rs: the loop of `write_at` over the clusters of a chain.
use fat32_rs.Base.{
  inl, ℕ, zero, suc, ◌+◌, ◌-◌, ◌*◌, ◌/◌, ◌%◌, ◌≤◌, ◌<◌, ◌≡◌, inr, arith, ap, ◌∙◌, refl, sym, min,
  lt→ltb, lt→leb, le→leb, List, [], ◌∷◌, length, All, ◌∉◌, Distinct, Option, some, Outcome, done,
}
use mathlib.Core.Path.{ap₂}
use native.Mathlib.Decide.{dec_lt}
use fat32_rs.Bytes.{Bytes, patch, patch_outside}
use fat32_rs.Disk.{Disk}
use fat32_rs.Bpb.{sectors_per_cluster}
use fat32_rs.Bpb.Geometry.{cluster_start, offset-done}
use fat32_rs.Fat.{end_of_cluster, link}
use fat32_rs.Fat.Entries.{entry}
use fat32_rs.Fat.Walk.{IsChain}
use fat32_rs.Fat.Cursor.{ClusterChain, next}
use fat32_rs.Fat.Cursor.Iterate.{at_cluster, next-on_cluster}
use fat32_rs.Fs.{FileSystem}
use fat32_rs.Fs.Alloc.Step.{Outside}
use fat32_rs.Fs.Shape.{IsMounted, capacity, mounted-IsAligned}
use fat32_rs.Vfs.Io.{write_blocks, write_clusters}
use fat32_rs.Vfs.Io.Copy.{Holds, Holds-change, span}
use fat32_rs.Vfs.Io.WriteBlocks.{at, Wrote, write_blocks_lem}
use fat32_rs.Vfs.Io.Apart.{AllData, Outside-others, others_kept, entries_kept, chain_kept}

module _ (fs : FileSystem) (m : IsMounted fs.bpb fs.fat.fat1_offset) (f : Bytes) (buf : List ℕ)
    (place : ℕ) where
  abbrev end : ℕ
  end = place + length buf

  abbrev g : Bytes
  g = patch f place buf

  abbrev off : ℕ
  off = fs.fat.fat1_offset

  abbrev spc : ℕ
  spc = fs.bpb.basic_bpb.sec_per_clus

  abbrev pub on : Disk → FileSystem
  on d = record fs { disk = d }

  cluster_block :
      (c : ℕ)
      → cluster_start fs.bpb c * fs.bpb.basic_bpb.byts_per_sec / 512 ≡ cluster_start fs.bpb c
  cluster_block c = rw m.block (omega arith)

  write_clusters_stop :
      (fuel c left index already left' index' already' : ℕ) (chain : ClusterChain) (d d' : Disk)
      → index < end
      → 2 ≤ c
      → write_blocks end buf d spc (cluster_start fs.bpb c) left index already
        ≡ done (left', index', already', d')
      → end ≤ index'
      → write_clusters end buf (on d) (suc fuel) chain c left index already ≡ done (already', on d')
  unfolding write_clusters sectors_per_cluster
  write_clusters_stop fuel c left index already left' index' already' chain d d' l h ran b =
      rw (lt→ltb index end l, offset-done m.volume c h, cluster_block c, ran, le→leb end index' b)

  write_clusters_go :
      (fuel c left index already left' index' already' : ℕ) (chain chain' i : ClusterChain)
      (d d' : Disk)
      → index < end
      → 2 ≤ c
      → write_blocks end buf d spc (cluster_start fs.bpb c) left index already
        ≡ done (left', index', already', d')
      → index' < end
      → next chain d' ≡ done (chain', some i)
      → write_clusters end buf (on d) (suc fuel) chain c left index already
        ≡ write_clusters end buf (on d') fuel chain' i.current_cluster left' index' already'
  unfolding write_clusters sectors_per_cluster
  write_clusters_go fuel c left index already left' index' already' chain chain' i d d' l h ran b
        step =
      rw (
        lt→ltb index end l,
        offset-done m.volume c h,
        cluster_block c,
        ran,
        lt→leb end index' b,
        step,
      )

  -- A run that puts the buffer into the file, and changes nothing outside its clusters.
  pub record WroteAll (cs : List ℕ) (left : ℕ) (d : Disk) (run : Outcome (ℕ × FileSystem))
      : Type 0 where
    pub d' : Disk
    pub ran : run ≡ done (length buf, on d')
    pub held : Holds (cluster_start fs.bpb) spc d' g left cs
    pub same : (b : ℕ) → All (Outside fs.bpb b) cs → d' b ≡ d b

  -- The end is in the blocks of the cluster.
  last_cluster :
      (fuel c left : ℕ) (cs : List ℕ) (chain : ClusterChain) (d : Disk)
      → AllData fs.bpb (c ∷ cs)
      → Distinct (c ∷ cs)
      → Holds (cluster_start fs.bpb) spc d f left (c ∷ cs)
      → at f buf place left ≤ left + spc * 512
      → at f buf place left < end
      → end ≤ left + spc * 512
      → WroteAll (c ∷ cs) left d (
          write_clusters end buf
            (on d)
            (suc fuel)
            chain
            c
            left
            (at f buf place left)
            (left - place))
  last_cluster fuel c left cs chain d a apart hold p k b =
      let r = write_blocks_lem f buf place spc (cluster_start fs.bpb c) left d hold.0 p k in
      let e : min (at f buf place (left + spc * 512)) end ≡ end = omega arith in
      let all : end - place ≡ length buf = omega arith in
      record {
        d' = r.d';
        ran =
            write_clusters_stop fuel c left (at f buf place left) (left - place) r.left' end
              (end - place) chain d r.d' k a.0.0
              (r.ran ∙ ap (λ z. done (r.left', z, z - place, r.d')) e) (omega arith)
            ∙ ap (λ z. done (z, on r.d')) all;
        held = (
          r.held,
          Holds-change (cluster_start fs.bpb) spc d r.d' f g (left + spc * 512) cs
              (λ i l. patch_outside f place buf i (inr (omega arith)))
              (others_kept fs.bpb d r.d' c cs a.0.0 a.1 apart.0 r.same) hold.1,
        );
        same = λ x out. r.same x out.0;
      }

  -- What is run behind a cluster that is written to its end.
  abbrev onward : ℕ → ℕ → ℕ → ℕ → ℕ → Disk → Outcome (ℕ × FileSystem)
  onward fuel start c y left d =
      write_clusters end buf (on d) fuel (at_cluster off d start (some c) y) y left
        (at f buf place left) (left - place)

  go_on :
      (fuel start : ℕ) (previous : Option ℕ) (c y left : ℕ) (d : Disk)
      (r : Wrote f buf place spc (cluster_start fs.bpb c) left d)
      → (2 ≤ c) × (c < capacity fs.bpb)
      → entry off d c ≡ y
      → y < end_of_cluster
      → at f buf place left < end
      → left + spc * 512 < end
      → write_clusters end buf
          (on d)
          (suc fuel)
          (at_cluster off d start previous c)
          c
          left
          (at f buf place left)
          (left - place)
        ≡ onward fuel start c y (left + spc * 512) r.d'
  go_on fuel start previous c y left d r a link_c small k more =
      let kept : entry off d c ≡ entry off r.d' c =
        sym (entries_kept fs.bpb off m d r.d' (λ b o. r.same b (inl (omega arith))) c a.1) in
      let next_left : left + spc * 512 ≡ r.left' = sym (r.at_end (omega arith)) in
      let e : min (at f buf place (left + spc * 512)) end ≡ at f buf place (left + spc * 512) =
        omega arith in
      let e' : at f buf place (left + spc * 512) - place ≡ left + spc * 512 - place = omega arith in
      write_clusters_go fuel c left (at f buf place left) (left - place) (left + spc * 512)
        (at f buf place (left + spc * 512)) (left + spc * 512 - place)
        (at_cluster off d start previous c) (at_cluster off r.d' start (some c) y)
        (at_cluster off r.d' start (some c) y) d r.d' k a.0
        (r.ran
          ∙ ap₂ (λ z i. done (z, i, i - place, r.d')) (sym next_left) e
          ∙ ap (λ z. done (left + spc * 512, at f buf place (left + spc * 512), z, r.d')) e')
        (omega arith)
        (ap (λ z. next (record (at_cluster off d start previous c) { next_cluster = link z }) r.d')
            kept
          ∙ next-on_cluster off (mounted-IsAligned m) r.d' start previous c y a.0
              (sym kept ∙ link_c) small)

  more_clusters :
      (fuel start : ℕ) (previous : Option ℕ) (c y : ℕ) (ys : List ℕ) (left : ℕ) (d : Disk)
      (r : Wrote f buf place spc (cluster_start fs.bpb c) left d)
      → AllData fs.bpb (c ∷ y ∷ ys)
      → c ∉ (y ∷ ys)
      → entry off d c ≡ y
      → y < end_of_cluster
      → at f buf place left < end
      → left + spc * 512 < end
      → WroteAll (y ∷ ys) (left + spc * 512) r.d' (onward fuel start c y (left + spc * 512) r.d')
      → WroteAll (c ∷ y ∷ ys) left d (
          write_clusters end buf
            (on d)
            (suc fuel)
            (at_cluster off d start previous c)
            c
            left
            (at f buf place left)
            (left - place))
  more_clusters fuel start previous c y ys left d r a out link_c small k more t = record {
    d' = t.d';
    ran = go_on fuel start previous c y left d r a.0 link_c small k more ∙ t.ran;
    held = (
      λ j l.
          r.held j l
          ∙ ap (λ b. b (j % 512))
              (sym (
                t.same (cluster_start fs.bpb c + j / 512) (
                  Outside-others fs.bpb (cluster_start fs.bpb c + j / 512) c (y ∷ ys) a.0.0 a.1 out
                    (omega arith, omega arith)))),
      t.held,
    );
    same = λ b o. t.same b o.1 ∙ r.same b o.0;
  }

  pub write_clusters_lem :
      (fuel start : ℕ) (previous : Option ℕ) (c : ℕ) (cs : List ℕ) (left : ℕ) (d : Disk)
      → length cs < fuel
      → AllData fs.bpb (c ∷ cs)
      → Distinct (c ∷ cs)
      → IsChain (entry off d) (c ∷ cs)
      → Holds (cluster_start fs.bpb) spc d f left (c ∷ cs)
      → at f buf place left ≤ left + spc * 512
      → at f buf place left < end
      → end ≤ left + span (spc * 512) (c ∷ cs)
      → WroteAll (c ∷ cs) left d (
          write_clusters end buf
            (on d)
            fuel
            (at_cluster off d start previous c)
            c
            left
            (at f buf place left)
            (left - place))
  write_clusters_lem zero start previous c cs left d e a apart ch hold p k b = absurd (omega arith)
  write_clusters_lem (suc fuel) start previous c [] left d e a apart ch hold p k b =
      last_cluster fuel c left [] (at_cluster off d start previous c) d a apart hold p k
        (omega arith)
  write_clusters_lem (suc fuel) start previous c (y ∷ ys) left d e a apart ch hold p k b =
      elim (dec_lt (left + spc * 512) end) [
        | yes more ↦
            let r = write_blocks_lem f buf place spc (cluster_start fs.bpb c) left d hold.0 p k in
            more_clusters fuel start previous c y ys left d r a apart.0 ch.0 ch.2 k more (
              write_clusters_lem fuel start (some c) y ys (left + spc * 512) r.d' (omega arith) a.1
                apart.1
                (chain_kept fs.bpb off m d r.d' (λ b o. r.same b (inl (omega arith))) (y ∷ ys) a.1
                  ch.3)
                (Holds-change (cluster_start fs.bpb) spc d r.d' f f (left + spc * 512) (y ∷ ys)
                  (λ i l. refl) (others_kept fs.bpb d r.d' c (y ∷ ys) a.0.0 a.1 apart.0 r.same)
                  hold.1)
                (omega arith) (omega arith) (omega arith))
        | no last ↦
            last_cluster fuel c left (y ∷ ys) (at_cluster off d start previous c) d a apart hold p k
              (omega arith)
      ]
