-- ===== src/Fs/Pool.antt =====
-- The free clusters that an allocation draws on: the recycled ones, and those that the search finds.
use fat32_rs.Base.{
  ℕ, zero, suc, ◌+◌, ◌-◌, ◌≤◌, ◌<◌, ◌≡◌, ◌≢◌, inl, inr, refl, arith, done, ap, ◌∙◌, sym, ◌==◌,
  if◌then◌else◌, List, [], ◌∷◌, drop, All, ◌∉◌, Distinct, Bool-cases, eq→==, ne→==, ==→eq, ◌>>=◌,
}
use native.Mathlib.Decide.{dec_lt}
use fat32_rs.Disk.{Disk}
use fat32_rs.Fat.{FatManager, end_of_cluster, blank_cluster, mask}
use fat32_rs.Fat.Entries.{IsAligned, entry}
use fat32_rs.Fat.Search.{NoneFree, find_blank_cluster-FirstFree}

-- How many of the `k` entries from `w` on are free.
unfoldable pub free_count : (ℕ → ℕ) → ℕ → ℕ → ℕ
free_count e w zero = 0
free_count e w (suc k) = (if e w == 0 then 1 else 0) + free_count e (w + 1) k

pub free_count_ext :
    (e f : ℕ → ℕ) (w k : ℕ)
    → ((m : ℕ) → w ≤ m → m < w + k → f m ≡ e m)
    → free_count f w k ≡ free_count e w k
unfolding free_count
free_count_ext e f w zero h = refl
free_count_ext e f w (suc k) h = rw (
  h w (omega arith) (omega arith),
  free_count_ext e f (w + 1) k (λ m p q. h m (omega arith) (omega arith)),
)

-- A positive count has a witness.
pub free_count_pos :
    (e : ℕ → ℕ) (w k : ℕ) → 0 < free_count e w k → (f : ℕ) × (w ≤ f) × (f < w + k) × (e f ≡ 0)
unfolding free_count
free_count_pos e w zero h = absurd (omega arith)
free_count_pos e w (suc k) h = elim (Bool-cases (e w == 0)) [
  | inl z ↦ (w, omega arith, omega arith, ==→eq (e w) 0 z)
  | inr nz ↦
      let rest : 0 < free_count e (w + 1) k = ground arith in
      let (f, p, q, z) = free_count_pos e (w + 1) k rest in (f, omega arith, omega arith, z)
]

-- What lies before the first free cluster does not count, and that cluster counts once.
pub free_count_first :
    (e : ℕ → ℕ) (w j k : ℕ)
    → NoneFree e w (w + j)
    → e (w + j) ≡ 0
    → free_count e w (j + suc k) ≡ suc (free_count e (w + j + 1) k)
unfolding free_count
free_count_first e w zero k none_free z =
    let a : zero + suc k ≡ suc k = omega arith in
    let b : w + zero ≡ w = omega arith in
    let z' : e w ≡ 0 = ap e (sym b) ∙ z in rw (a, b, eq→== (e w) 0 z') (omega arith)
free_count_first e w (suc j) k none_free z =
    let a : suc j + suc k ≡ suc (j + suc k) = omega arith in
    let b : w + suc j ≡ w + 1 + j = omega arith in
    let nz : e w ≢ 0 = none_free w (omega arith) (omega arith) in
    rw (a, b, ne→== (e w) 0 nz)
      (let r : free_count e (w + 1) (j + suc k) ≡ suc (free_count e (w + 1 + j + 1) k) =
          free_count_first e (w + 1) j k (λ m p q. none_free m (omega arith) (omega arith))
            (ap e (sym b) ∙ z) in
        omega (arith, r))

free_count_behind :
    (e : ℕ → ℕ) (w k c : ℕ)
    → w ≤ c
    → c < w + k
    → NoneFree e w c
    → e c ≡ 0
    → free_count e w k ≡ suc (free_count e (c + 1) (w + k - (c + 1)))
free_count_behind e w k c h l none_free z =
    let place : w + (c - w) ≡ c = omega arith in
    let size : c - w + suc (w + k - (c + 1)) ≡ k = omega arith in
    let at : free_count e w (c - w + suc (w + k - (c + 1)))
        ≡ suc (free_count e (w + (c - w) + 1) (w + k - (c + 1))) =
      free_count_first e w (c - w) (w + k - (c + 1)) (rw place none_free) (rw place z) in
    ap (free_count e w) (sym size)
    ∙ at
    ∙ ap (λ x. suc (free_count e (x + 1) (w + k - (c + 1)))) place

-- An allocation of `n` more clusters can go on from cluster `curr`: the queue `q` holds different
-- free clusters, `curr` is none of them, all lie below `w`, and of the `k` entries from `w` on, below
-- `cap`, at least `n` are free. The two reserved entries are not.
pub record Pool (cap : ℕ) (e : ℕ → ℕ) (q : List ℕ) (curr w k n : ℕ) : Type 0 where
  pub zero_reserved : e 0 ≢ 0
  pub one_reserved : e 1 ≢ 0
  pub queue : All (λ x. (e x ≡ 0) × (x < w)) q
  pub distinct : Distinct q
  pub apart : curr ∉ q
  pub below : curr < w
  pub top : w + k ≤ cap
  pub small : w + k ≤ end_of_cluster
  pub enough : n ≤ free_count e w k

-- A cluster that may be allocated.
pub record IsFresh (cap : ℕ) (e : ℕ → ℕ) (c : ℕ) : Type 0 where
  pub free : e c ≡ 0
  pub two : 2 ≤ c
  pub in_table : c < cap
  pub small : c < end_of_cluster

fresh_two : (e : ℕ → ℕ) (c : ℕ) → e 0 ≢ 0 → e 1 ≢ 0 → e c ≡ 0 → 2 ≤ c
fresh_two e zero z o h = absurd (z h)
fresh_two e (suc zero) z o h = absurd (o h)
fresh_two e (suc (suc c)) z o h = omega arith

not-mem_of_used :
    (e : ℕ → ℕ) (s w : ℕ) (q : List ℕ) → e s ≢ 0 → All (λ x. (e x ≡ 0) × (x < w)) q → s ∉ q
not-mem_of_used e s w [] h a = tt
not-mem_of_used e s w (x ∷ q) h a = ((λ p. h (ap e p ∙ a.0.0)), not-mem_of_used e s w q h a.1)

All-mono :
    (e : ℕ → ℕ) (w v : ℕ) (q : List ℕ)
    → w ≤ v
    → All (λ x. (e x ≡ 0) × (x < w)) q
    → All (λ x. (e x ≡ 0) × (x < v)) q
All-mono e w v [] h a = tt
All-mono e w v (x ∷ q) h a = ((a.0.0, omega (arith, a.0.1)), All-mono e w v q h a.1)

-- What drawing one cluster from a pool gives.
pub record Drawn (cap : ℕ) (e : ℕ → ℕ) (q : List ℕ) (curr w n c : ℕ) : Type 0 where
  pub fresh : IsFresh cap e c
  pub ne : c ≢ curr
  pub w' : ℕ
  pub k' : ℕ
  pub grows : w ≤ w'
  pub pool : Pool cap e (drop 1 q) c w' k' n

-- The head of the queue.
draw_queue :
    (cap : ℕ) (e : ℕ → ℕ) (x : ℕ) (q : List ℕ) (curr w k n : ℕ)
    → Pool cap e (x ∷ q) curr w k (suc n)
    → Drawn cap e (x ∷ q) curr w n x
draw_queue cap e x q curr w k n p = record {
  fresh = record {
    free = p.queue.0.0;
    two = fresh_two e x p.zero_reserved p.one_reserved p.queue.0.0;
    in_table = omega (arith, p.queue.0.1, p.top);
    small = omega (arith, p.queue.0.1, p.small);
  };
  ne = λ s. p.apart.0 (sym s);
  w' = w;
  k' = k;
  grows = omega arith;
  pool = record {
    zero_reserved = p.zero_reserved;
    one_reserved = p.one_reserved;
    queue = p.queue.1;
    distinct = p.distinct.1;
    apart = p.distinct.0;
    below = p.queue.0.1;
    top = p.top;
    small = p.small;
    enough = omega (arith, p.enough);
  };
}

-- The first free cluster behind `curr`, if the queue is empty.
draw_search :
    (cap : ℕ) (e : ℕ → ℕ) (curr w k n c : ℕ)
    → Pool cap e [] curr w k (suc n)
    → curr < c
    → c < w + k
    → e c ≡ 0
    → NoneFree e (curr + 1) c
    → Drawn cap e [] curr w n c
draw_search cap e curr w k n c p h l z skipped = elim (dec_lt c w) [
  | yes low ↦ record {
    fresh = fresh;
    ne = omega arith;
    w' = w;
    k' = k;
    grows = omega arith;
    pool = record {
      zero_reserved = p.zero_reserved;
      one_reserved = p.one_reserved;
      queue = tt;
      distinct = tt;
      apart = tt;
      below = low;
      top = p.top;
      small = p.small;
      enough = omega (arith, p.enough);
    };
  }
  | no high ↦
      let count : free_count e w k ≡ suc (free_count e (c + 1) (w + k - (c + 1))) =
        free_count_behind e w k c (omega arith) l (λ m a b. skipped m (omega (arith, p.below)) b)
          z in
      record {
        fresh = fresh;
        ne = omega arith;
        w' = c + 1;
        k' = w + k - (c + 1);
        grows = omega arith;
        pool = record {
          zero_reserved = p.zero_reserved;
          one_reserved = p.one_reserved;
          queue = tt;
          distinct = tt;
          apart = tt;
          below = omega arith;
          top = omega (arith, p.top);
          small = omega (arith, p.small);
          enough = omega (arith, p.enough, count);
        };
      }
]
  where
    fresh : IsFresh cap e c
    fresh = record {
      free = z;
      two = fresh_two e c p.zero_reserved p.one_reserved z;
      in_table = omega (arith, p.top);
      small = omega (arith, p.small);
    }

-- `blank_cluster` returns when the pool has a cluster and the fuel covers the window, and leaves a
-- pool with one cluster fewer.
module _ (cap : ℕ) (d : Disk) (off : ℕ) (al : IsAligned off) where
  abbrev manager : List ℕ → FatManager
  manager q = record { recycled_cluster = q; fat1_offset = off }

  pub blank_cluster-Drawn :
      (fuel : ℕ) (q : List ℕ) (curr w k n : ℕ)
      → Pool cap (entry off d) q curr w k (suc n)
      → w + k ≤ fuel
      → (c : ℕ) × (blank_cluster (manager q) d fuel curr ≡ done (c, manager (drop 1 q)))
        × Drawn cap (entry off d) q curr w n c
  unfolding blank_cluster
  blank_cluster-Drawn fuel (x ∷ q) curr w k n p h =
      let same : mask x ≡ x = omega (arith, p.queue.0.1, p.small) in
      (x, ap (λ c. done (c, manager q)) same, draw_queue cap (entry off d) x q curr w k n p)
  blank_cluster-Drawn fuel [] curr w k n p h =
      let (f, a, b, z) = free_count_pos (entry off d) w k (omega (arith, p.enough)) in
      let (c, ran, ff, below) =
        find_blank_cluster-FirstFree (manager []) al d fuel curr f (omega (arith, p.below))
          (omega arith) (omega (arith, p.small)) z in
      (
        c,
        ap (λ r. r >>= λ c. done (c, manager [])) ran,
        draw_search cap (entry off d) curr w k n c p (omega (arith, ff.from)) (omega arith) ff.free
            ff.skipped,
      )
