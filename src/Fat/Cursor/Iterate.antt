-- ===== src/Fat/Cursor/Iterate.antt =====
-- src/fat.rs: what the iteration over a `ClusterChain` visits.
use fat32_rs.Base.{
  ℕ, zero, suc, ◌+◌, ◌*◌, ◌/◌, ◌%◌, ◌^◌, ◌≤◌, ◌<◌, ◌≡◌, arith, le→leb, lt→leb, ne→==, Option, none,
  some, Outcome, done, out_of_fuel, ◌>>=◌, List, [], ◌∷◌, length,
}
use fat32_rs.Disk.{Disk, read-block}
use fat32_rs.Fat.{FatManager, end_of_cluster, link, get_all_cluster_id}
use fat32_rs.Fat.Cursor.{ClusterChain, new, refresh, load, next}
use fat32_rs.Fat.Entries.{IsAligned, entry, entry_block, entry_offset}
use fat32_rs.Fat.Walk.{IsChain, walks-chain}

-- The clusters of the items, up to the first `None`.
unfoldable pub visited : ℕ → ClusterChain → Disk → Outcome (List ℕ)
visited zero chain disk = out_of_fuel
visited (suc fuel) chain disk = do
  (chain', item) ← next chain disk
  elim item [
    | none ↦ done []
    | some i ↦ visited fuel chain' disk >>= λ rest. done (i.current_cluster ∷ rest)
  ]

-- A cursor that stands on a cluster.
abbrev pub at_cluster : ℕ → Disk → ℕ → Option ℕ → ℕ → ClusterChain
at_cluster off d start previous c = record {
  fat1_offset = off;
  start_cluster = start;
  previous_cluster = previous;
  current_cluster = c;
  next_cluster = link (entry off d c);
}

module _ (off : ℕ) (al : IsAligned off) (d : Disk) where
  load_lem :
      (start : ℕ) (previous old : Option ℕ) (c : ℕ)
      → load (record (at_cluster off d start previous c) { next_cluster = old }) d
        ≡ done (at_cluster off d start previous c, some (at_cluster off d start previous c))
  unfolding load entry
  load_lem start previous old c =
      let block : off / 512 + c * 4 / 512 ≡ entry_block off c = omega (arith, al) in
      let place : c * 4 % 512 ≡ entry_offset off c = omega (arith, al) in
      rw (
        block,
        place,
        read-block d (entry_block off c),
        le→leb (entry_offset off c + 4) 512 (omega (arith, al)),
      )

  pub next-on_cluster :
      (start : ℕ) (previous : Option ℕ) (c y : ℕ)
      → 2 ≤ c
      → entry off d c ≡ y
      → y < end_of_cluster
      → next (at_cluster off d start previous c) d
        ≡ done (at_cluster off d start (some c) y, some (at_cluster off d start (some c) y))
  unfolding next
  next-on_cluster start previous c y h e k = rw (
    ne→== c 0 (omega arith),
    lt→leb end_of_cluster (entry off d c) (omega (arith, e)),
    load_lem start (some c) (some (entry off d c)) (entry off d c),
    e,
  )

  link-none : (e : ℕ) → end_of_cluster ≤ e → link e ≡ none
  link-none e k = rw (le→leb end_of_cluster e k)

  next_ended :
      (start : ℕ) (previous rest : Option ℕ) (c : ℕ)
      → 2 ≤ c
      → rest ≡ none
      → next (record (at_cluster off d start previous c) { next_cluster = rest }) d
        ≡ done (record (at_cluster off d start previous c) { next_cluster = rest }, none)
  unfolding next
  next_ended start previous none c h e = rw (ne→== c 0 (omega arith))
  next_ended start previous (some x) c h e = grind arith

  pub next-last_cluster :
      (start : ℕ) (previous : Option ℕ) (c : ℕ)
      → 2 ≤ c
      → end_of_cluster ≤ entry off d c
      → next (at_cluster off d start previous c) d ≡ done (at_cluster off d start previous c, none)
  next-last_cluster start previous c h k =
      next_ended start previous (link (entry off d c)) c h (link-none (entry off d c) k)

  -- Before the first cluster, whatever is left in the other fields.
  pub next_first :
      (c : ℕ) (previous old : Option ℕ)
      → next
          (record {
            fat1_offset = off;
            start_cluster = c;
            previous_cluster = previous;
            current_cluster = 0;
            next_cluster = old;
          })
          d
        ≡ done (at_cluster off d c none c, some (at_cluster off d c none c))
  unfolding next
  next_first c previous old = load_lem c none old c

  -- Behind a cluster of a chain the rest of the chain is visited.
  visited_rest :
      (fuel start : ℕ) (previous : Option ℕ) (c : ℕ) (cs : List ℕ)
      → length cs < fuel
      → 2 ≤ c
      → IsChain (entry off d) (c ∷ cs)
      → visited fuel (at_cluster off d start previous c) d ≡ done cs
  unfolding visited
  visited_rest zero start previous c cs f h ch = absurd (omega arith)
  visited_rest (suc fuel) start previous c [] f h ch = rw (next-last_cluster start previous c h ch)
  visited_rest (suc fuel) start previous c (y ∷ ys) f h ch = rw (
    next-on_cluster start previous c y h ch.0 ch.2,
    visited_rest fuel start (some c) y ys (omega arith) ch.1 ch.3,
  )

  -- Before the first cluster, whatever is left in the other fields.
  visited_first :
      (fuel c : ℕ) (cs : List ℕ) (previous old : Option ℕ)
      → length cs + 1 < fuel
      → 2 ≤ c
      → IsChain (entry off d) (c ∷ cs)
      → visited fuel
          (record {
            fat1_offset = off;
            start_cluster = c;
            previous_cluster = previous;
            current_cluster = 0;
            next_cluster = old;
          })
          d
        ≡ done (c ∷ cs)
  unfolding visited
  visited_first zero c cs previous old f h ch = absurd (omega arith)
  visited_first (suc fuel) c cs previous old f h ch =
      rw (next_first c previous old, visited_rest fuel c none c cs (omega arith) h ch)

-- On a chain of the table, with more fuel than it has clusters, a new cursor on its first cluster
-- visits the clusters that `get_all_cluster_id` lists, and so does any cursor on the same table,
-- wherever it stands, after `refresh` with that cluster.
pub visited-get_all_cluster_id :
    (fat : FatManager) (d : Disk) (fuel c : ℕ) (cs : List ℕ) (used : ClusterChain)
    → IsAligned fat.fat1_offset
    → used.fat1_offset ≡ fat.fat1_offset
    → length cs + 1 < fuel
    → length cs + 1 < 2 ^ 32
    → 2 ≤ c
    → c < end_of_cluster
    → IsChain (entry fat.fat1_offset d) (c ∷ cs)
    → (get_all_cluster_id fat d fuel c ≡ done (c ∷ cs))
      × (visited fuel (new c fat.fat1_offset) d ≡ done (c ∷ cs))
      × (visited fuel (refresh used c) d ≡ done (c ∷ cs))
unfolding new refresh
visited-get_all_cluster_id fat d fuel c cs used al same f small h k ch = (
  (walks-chain fat al d fuel c cs (omega arith) small h k ch).0,
  visited_first fat.fat1_offset al d fuel c cs none none f h ch,
  rw same
      (visited_first fat.fat1_offset al d fuel c cs used.previous_cluster used.next_cluster f h ch),
)
