-- ===== src/Vfs/Io/WriteAt.antt =====
-- src/vfs.rs: `write_at` on a file whose clusters are a chain of the table.
use fat32_rs.Base.{
  ℕ, zero, suc, ◌+◌, ◌-◌, ◌*◌, ◌/◌, ◌%◌, inl, ◌≤◌, ◌<◌, ◌≡◌, arith, ap, ◌∙◌, refl, sym, List, [],
  ◌∷◌, length, Distinct, Option, some, Outcome, done,
}
use mathlib.Core.Path.{subst}
use fat32_rs.Bytes.{Bytes, patch_outside}
use fat32_rs.Disk.{Disk}
use fat32_rs.Bpb.Geometry.{cluster_start}
use fat32_rs.Fat.Entries.{entry}
use fat32_rs.Fat.Walk.{IsChain}
use fat32_rs.Fat.Cursor.{ClusterChain}
use fat32_rs.Fat.Cursor.Iterate.{at_cluster, next-on_cluster}
use fat32_rs.Fs.{FileSystem}
use fat32_rs.Fs.Shape.{IsMounted, mounted-IsAligned}
use fat32_rs.Vfs.Io.{skip, write_clusters}
use fat32_rs.Vfs.Io.Copy.{Holds, span}
use fat32_rs.Vfs.Io.WriteBlocks.{at}
use fat32_rs.Vfs.Io.Apart.{AllData, Outside-others}
use fat32_rs.Vfs.Io.WriteClusters.{WroteAll, write_clusters_lem}

module _ (fs : FileSystem) (m : IsMounted fs.bpb fs.fat.fat1_offset) (f : Bytes) (buf : List ℕ)
    (place : ℕ) where
  abbrev size : ℕ
  size = fs.bpb.basic_bpb.sec_per_clus * 512

  abbrev off : ℕ
  off = fs.fat.fat1_offset

  abbrev pub run_from : ℕ → ClusterChain → ℕ → ℕ → Disk → Outcome (ℕ × FileSystem)
  run_from fuel chain curr left d =
      write_clusters (place + length buf) buf (record fs { disk = d }) fuel chain curr left
        (at f buf place left) (left - place)

  -- The cursor goes over `n` clusters, and the buffer is put into those that follow.
  pub record WroteFrom (n fuel start : ℕ) (previous : Option ℕ) (c : ℕ) (cs : List ℕ)
      (left target : ℕ) (d : Disk) : Type 0 where
    pub chain : ClusterChain
    pub curr : ℕ
    pub reached : skip d n (at_cluster off d start previous c) c ≡ done (some (chain, curr))
    pub wrote : WroteAll fs m f buf place (c ∷ cs) left d (run_from fuel chain curr target d)

  pub write_from :
      (n fuel start : ℕ) (previous : Option ℕ) (c : ℕ) (cs : List ℕ) (left target : ℕ) (d : Disk)
      → n < length (c ∷ cs)
      → length (c ∷ cs) ≤ fuel
      → AllData fs.bpb (c ∷ cs)
      → Distinct (c ∷ cs)
      → IsChain (entry off d) (c ∷ cs)
      → Holds (cluster_start fs.bpb) fs.bpb.basic_bpb.sec_per_clus d f left (c ∷ cs)
      → target ≡ left + n * size
      → target ≤ place
      → place < target + size
      → 0 < length buf
      → place + length buf ≤ left + span size (c ∷ cs)
      → WroteFrom n fuel start previous c cs left target d
  unfolding skip
  write_from zero fuel start previous c cs left target d h e a apart ch hold t p q pos b = record {
    chain = at_cluster off d start previous c;
    curr = c;
    reached = refl;
    wrote =
        let here : left ≡ target = omega (arith, t) in
        subst
          (λ z.
            WroteAll fs m f buf place (c ∷ cs) left d
              (run_from fuel (at_cluster off d start previous c) c z d))
          here
          (write_clusters_lem fs m f buf place fuel start previous c cs left d (omega arith) a apart
            ch hold (omega arith) (omega arith) b);
  }
  write_from (suc n) fuel start previous c [] left target d h e a apart ch hold t p q pos b =
      absurd (omega arith)
  write_from (suc n) fuel start previous c (y ∷ ys) left target d h e a apart ch hold t p q pos b =
      let r =
        write_from n fuel start (some c) y ys (left + size) target d (omega arith) (omega arith) a.1
          apart.1 ch.3 hold.1 (omega (arith, t)) p q pos (omega arith) in
      let w = r.wrote in
      let step : suc n * size ≡ size + n * size = omega arith in
      record {
        chain = r.chain;
        curr = r.curr;
        reached =
            rw (next-on_cluster off (mounted-IsAligned m) d start previous c y a.0.0 ch.0 ch.2)
              r.reached;
        wrote = record {
          d' = w.d';
          ran = w.ran;
          held = (
            λ j l.
                patch_outside f place buf (left + j) (inl (omega (arith, t, step)))
                ∙ hold.0 j l
                ∙ ap (λ b. b (j % 512))
                    (sym (
                      w.same (cluster_start fs.bpb c + j / 512) (
                        Outside-others fs.bpb (cluster_start fs.bpb c + j / 512) c (y ∷ ys) a.0.0
                          a.1 apart.0 (omega arith, omega arith)))),
            w.held,
          );
          same = λ b o. w.same b o.1;
        };
      }
