-- ===== src/Vfs/Io/Walk.antt =====
-- src/vfs.rs: how `read_at` and `write_at` go to a place of the file along its clusters.
use fat32_rs.Base.{
  ℕ, zero, suc, ◌≤◌, ◌<◌, ◌≡◌, arith, ap, ◌∙◌, refl, List, [], ◌∷◌, length, drop, Option, none,
  some, done,
}
use fat32_rs.Disk.{Disk}
use fat32_rs.Fat.Entries.{IsAligned, entry}
use fat32_rs.Fat.Walk.{IsChain}
use fat32_rs.Fat.Cursor.{ClusterChain, next}
use fat32_rs.Fat.Cursor.Iterate.{at_cluster, next-on_cluster, next-last_cluster, next_first}
use fat32_rs.Fs.{FileSystem}
use fat32_rs.Fs.Shape.{IsMounted, mounted-IsAligned}
use fat32_rs.Vfs.{VirtFile, first_cluster}
use fat32_rs.Vfs.Io.{skip, first_item}

-- A file on the clusters of a chain, whose cursor stands before the first one.
pub record IsOpen (fs : FileSystem) (self : VirtFile) (c : ℕ) (cs : List ℕ) : Type 0 where
  pub mounted : IsMounted fs.bpb fs.fat.fat1_offset
  pub table : self.cluster_chain.fat1_offset ≡ fs.fat.fat1_offset
  pub fresh : self.cluster_chain.current_cluster ≡ 0
  pub start : self.cluster_chain.start_cluster ≡ c
  pub first : first_cluster fs self ≡ done c
  pub low : 2 ≤ c
  pub chain : IsChain (entry fs.fat.fat1_offset fs.disk) (c ∷ cs)

module _ (off : ℕ) (al : IsAligned off) (d : Disk) where
  pub next_fresh :
      (chain : ClusterChain) (c : ℕ)
      → chain.fat1_offset ≡ off
      → chain.start_cluster ≡ c
      → chain.current_cluster ≡ 0
      → next chain d ≡ done (at_cluster off d c none c, some (at_cluster off d c none c))
  next_fresh chain c a s z =
      ap (λ x. next x d)
        (λ i. record {
          fat1_offset = a i;
          start_cluster = s i;
          previous_cluster = chain.previous_cluster;
          current_cluster = z i;
          next_cluster = chain.next_cluster;
        })
      ∙ next_first off al d c chain.previous_cluster chain.next_cluster

  -- The cursor after `n` steps stands on the cluster at place `n` of its chain.
  pub record Reached (n start : ℕ) (previous : Option ℕ) (c : ℕ) (cs : List ℕ) : Type 0 where
    pub before : Option ℕ
    pub cluster : ℕ
    pub rest : List ℕ
    pub ran :
        skip d n (at_cluster off d start previous c) c
        ≡ done (some (at_cluster off d start before cluster, cluster))
    pub dropped : drop n (c ∷ cs) ≡ cluster ∷ rest
    pub low : 2 ≤ cluster
    pub chain : IsChain (entry off d) (cluster ∷ rest)

  pub skip-Reached :
      (n start : ℕ) (previous : Option ℕ) (c : ℕ) (cs : List ℕ)
      → n < length (c ∷ cs)
      → 2 ≤ c
      → IsChain (entry off d) (c ∷ cs)
      → Reached n start previous c cs
  unfolding skip
  skip-Reached zero start previous c cs l h ch = record {
    before = previous;
    cluster = c;
    rest = cs;
    ran = refl;
    dropped = refl;
    low = h;
    chain = ch;
  }
  skip-Reached (suc n) start previous c [] l h ch = absurd (omega arith)
  skip-Reached (suc n) start previous c (y ∷ ys) l h ch =
      let r = skip-Reached n start (some c) y ys (omega arith) ch.1 ch.3 in
      record {
        before = r.before;
        cluster = r.cluster;
        rest = r.rest;
        ran = rw (next-on_cluster off al d start previous c y h ch.0 ch.2) r.ran;
        dropped = r.dropped;
        low = r.low;
        chain = r.chain;
      }

  -- Behind the last cluster there is none.
  pub skip-none :
      (n start : ℕ) (previous : Option ℕ) (c : ℕ) (cs : List ℕ)
      → length (c ∷ cs) ≤ n
      → 2 ≤ c
      → IsChain (entry off d) (c ∷ cs)
      → skip d n (at_cluster off d start previous c) c ≡ done none
  unfolding skip
  skip-none zero start previous c cs l h ch = absurd (omega arith)
  skip-none (suc n) start previous c [] l h ch =
      rw (next-last_cluster off al d start previous c h ch)
  skip-none (suc n) start previous c (y ∷ ys) l h ch =
      rw (next-on_cluster off al d start previous c y h ch.0 ch.2)
        (skip-none n start (some c) y ys (omega arith) ch.1 ch.3)

-- `read_at` and `write_at` start on the file's first cluster.
pub first_item-IsOpen :
    (fs : FileSystem) (self : VirtFile) (c : ℕ) (cs : List ℕ)
    → IsOpen fs self c cs
    → first_item fs.disk self ≡ done (at_cluster fs.fat.fat1_offset fs.disk c none c)
unfolding first_item
first_item-IsOpen fs self c cs o = rw (
    next_fresh fs.fat.fat1_offset (mounted-IsAligned o.mounted) fs.disk self.cluster_chain c o.table
      o.start o.fresh)
