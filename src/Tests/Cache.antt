-- ===== src/Tests/Cache.antt =====
-- The cache manager of src/cache.rs over a list, the entry used last at its end, and a file in memory.
use fat32_rs.Base.{
  ℕ, zero, suc, ◌≢◌, ◌<◌, ◌≡◌, arith, ap, ◌∙◌, refl, sym, ◌==◌, eq→==, ne→==, if◌then◌else◌, Option,
  none, some, List, [], ◌∷◌, length, get_elem?, done,
}
use mathlib.Core.Path.{subst}
use native.Mathlib.Decide.{ℕ_discrete}
use fat32_rs.Bytes.{Bytes}
use fat32_rs.BlockFile.{block_file}
use fat32_rs.BlockFile.Whole.{block_file-IsDisk}
use fat32_rs.Tests.BlockFile.{HostFile, host, host-IsFile, host-IsComplete, image}
use fat32_rs.Disk.{Disk, read, modify}
use fat32_rs.Cache.{BlockDevice, LruCache, Manager, new, read_cached, modify_cached, sync_all}
use fat32_rs.Cache.Laws.{IsMap, IsDisk}
use fat32_rs.Cache.View.{IsCoherent, view}
use fat32_rs.Cache.Access.{read_cached-read, modify_cached-modify}
use fat32_rs.Cache.Reach.{Reach, created, sync_all-Reach, Reach-progress}

abbrev lookup : List (ℕ × ℕ) → ℕ → Option ℕ
lookup [] k = none
lookup (p ∷ c) k = if k == p.0 then some p.1 else lookup c k

abbrev without : List (ℕ × ℕ) → ℕ → List (ℕ × ℕ)
without [] k = []
without (p ∷ c) k = let rest = without c k in if p.0 == k then rest else p ∷ rest

abbrev used_last : List (ℕ × ℕ) → ℕ → ℕ → List (ℕ × ℕ)
used_last [] k v = (k, v) ∷ []
used_last (p ∷ c) k v = let rest = used_last c k v in if p.0 == k then rest else p ∷ rest

abbrev touched : List (ℕ × ℕ) → ℕ → Option ℕ → List (ℕ × ℕ)
touched c k none = c
touched c k (some v) = used_last c k v

abbrev front : List (ℕ × ℕ) → Option (ℕ × ℕ)
front [] = none
front (p ∷ c) = some p

abbrev popped : List (ℕ × ℕ) → List (ℕ × ℕ)
popped [] = []
popped (p ∷ c) = without c p.0

-- Every entry that `lookup` finds, once.
abbrev listing : List (ℕ × ℕ) → List (ℕ × ℕ)
listing [] = []
listing (p ∷ c) = p ∷ without (listing c) p.0

abbrev lru : LruCache (List (ℕ × ℕ))
lru = record {
  unbounded = [];
  get = λ c k. (lookup c k, touched c k (lookup c k));
  len = λ c. length c;
  peek_lru = front;
  pop_lru = λ c. (front c, popped c);
  put = λ c k v. (lookup c k, used_last c k v);
  iter = listing;
}

lookup-without :
    (c : List (ℕ × ℕ)) (k j : ℕ) → lookup (without c k) j ≡ (if j == k then none else lookup c j)
lookup-without [] k j = ground arith
lookup-without (p ∷ c) k j = ground (arith, lookup-without c k j)

lookup-used_last :
    (c : List (ℕ × ℕ)) (k v j : ℕ)
    → lookup (used_last c k v) j ≡ (if j == k then some v else lookup c j)
lookup-used_last [] k v j = ground arith
lookup-used_last (p ∷ c) k v j = ground (arith, lookup-used_last c k v j)

lookup-touched :
    (c : List (ℕ × ℕ)) (k j : ℕ) (option : Option ℕ)
    → lookup c k ≡ option
    → lookup (touched c k option) j ≡ lookup c j
lookup-touched c k j none e = refl
lookup-touched c k j (some v) e = lookup-used_last c k v j ∙ elim (ℕ_discrete j k) [
  | yes q ↦ rw (eq→== j k q) (sym e ∙ ap (lookup c) (sym q))
  | no ne ↦ rw (ne→== j k ne)
]

dropped :
    (q : ℕ × ℕ) (c : List (ℕ × ℕ)) (k i : ℕ)
    → q.0 ≡ k
    → get_elem? (without (q ∷ c) k) i ≡ get_elem? (without c k) i
dropped q c k i z = rw (eq→== q.0 k z)

kept :
    (q : ℕ × ℕ) (c : List (ℕ × ℕ)) (k i : ℕ)
    → q.0 ≢ k
    → get_elem? (without (q ∷ c) k) i ≡ get_elem? (q ∷ without c k) i
kept q c k i z = rw (ne→== q.0 k z)

no_pair : {p : ℕ × ℕ} → none ≢ some p
no_pair e = cc

pair-inj : {p q : ℕ × ℕ} → some p ≡ some q → p ≡ q
pair-inj e = cc

none-some : {r : ℕ} → none ≢ some r
none-some e = cc

absent_front :
    (c : List (ℕ × ℕ)) (q : ℕ × ℕ) (j : ℕ)
    → (if j == q.0 then none else lookup c j) ≡ (if j == q.0 then none else lookup (q ∷ c) j)
absent_front c q j = elim (ℕ_discrete j q.0) [
  | yes e ↦ rw (eq→== j q.0 e) refl
  | no ne ↦ rw (ne→== j q.0 ne) refl
]

lookup-front : (c : List (ℕ × ℕ)) (p : ℕ × ℕ) → front c ≡ some p → lookup c p.0 ≡ some p.1
lookup-front [] p e = grind arith
lookup-front (q ∷ c) p e =
    let same : q ≡ p = pair-inj e in
    subst (λ z. lookup (q ∷ c) z.0 ≡ some z.1) same (rw (eq→== q.0 q.0 refl) refl)

length-front : (c : List (ℕ × ℕ)) → front c ≡ none → length c ≡ 0
length-front [] e = refl
length-front (q ∷ c) e = grind arith

lookup-popped :
    (c : List (ℕ × ℕ)) (p : ℕ × ℕ) (j : ℕ)
    → front c ≡ some p
    → lookup (popped c) j ≡ (if j == p.0 then none else lookup c j)
lookup-popped [] p j e = grind arith
lookup-popped (q ∷ c) p j e =
    subst (λ z. lookup (popped (q ∷ c)) j ≡ (if j == z.0 then none else lookup (q ∷ c) j))
      (pair-inj e) (lookup-without c q.0 j ∙ absent_front c q j)

value-inj : {x y : ℕ} → some x ≡ some y → x ≡ y
value-inj e = cc

listed_first :
    (q : ℕ × ℕ) (c : List (ℕ × ℕ)) (k v : ℕ)
    → k ≡ q.0
    → lookup (q ∷ c) k ≡ some v
    → some q ≡ some (k, v)
listed_first q c k v z e =
    let here : lookup (q ∷ c) k ≡ some q.1 = rw (eq→== k q.0 z) refl in
    ap (λ x. some (q.0, x)) (value-inj (sym here ∙ e)) ∙ ap (λ x. some (x, v)) (sym z)

listed_later : (q : ℕ × ℕ) (c : List (ℕ × ℕ)) (k : ℕ) → k ≢ q.0 → lookup (q ∷ c) k ≡ lookup c k
listed_later q c k z = rw (ne→== k q.0 z)

from_kept :
    (q : ℕ × ℕ) (c : List (ℕ × ℕ)) (k i : ℕ) (p : ℕ × ℕ)
    → q.0 ≢ k
    → get_elem? (q ∷ without c k) i ≡ some p
    → ((i : ℕ)
        → get_elem? (without c k) i ≡ some p
        → (p.0 ≢ k) × (j : ℕ) × (get_elem? c j ≡ some p))
    → (p.0 ≢ k) × (j : ℕ) × (get_elem? (q ∷ c) j ≡ some p)
from_kept q c k zero p ne e rest = (subst (λ z. z.0 ≢ k) (pair-inj e) ne, 0, e)
from_kept q c k (suc i) p ne e rest = let (ne', j, at) = rest i e in (ne', suc j, at)

get_elem?-without :
    (c : List (ℕ × ℕ)) (k i : ℕ) (p : ℕ × ℕ)
    → get_elem? (without c k) i ≡ some p
    → (p.0 ≢ k) × (j : ℕ) × (get_elem? c j ≡ some p)
get_elem?-without [] k i p e = absurd (no_pair e)
get_elem?-without (q ∷ c) k i p e = elim (ℕ_discrete q.0 k) [
  | yes z ↦
      let (ne, j, at) = get_elem?-without c k i p (sym (dropped q c k i z) ∙ e) in (ne, suc j, at)
  | no z ↦ from_kept q c k i p z (sym (kept q c k i z) ∙ e) (λ j e'. get_elem?-without c k j p e')
]

without-get_elem? :
    (c : List (ℕ × ℕ)) (k j : ℕ) (p : ℕ × ℕ)
    → get_elem? c j ≡ some p
    → p.0 ≢ k
    → (i : ℕ) × (get_elem? (without c k) i ≡ some p)
without-get_elem? [] k j p e ne = absurd (no_pair e)
without-get_elem? (q ∷ c) k zero p e ne =
    let same : q ≡ p = pair-inj e in (0, kept q c k 0 (subst (λ z. z.0 ≢ k) (sym same) ne) ∙ e)
without-get_elem? (q ∷ c) k (suc j) p e ne =
    let (i, at) = without-get_elem? c k j p e ne in
    elim (ℕ_discrete q.0 k) [
      | yes z ↦ (i, dropped q c k i z ∙ at)
      | no z ↦ (suc i, kept q c k (suc i) z ∙ at)
    ]

lookup-listing :
    (c : List (ℕ × ℕ)) (i : ℕ) (p : ℕ × ℕ)
    → get_elem? (listing c) i ≡ some p
    → lookup c p.0 ≡ some p.1
lookup-listing [] i p e = absurd (no_pair e)
lookup-listing (q ∷ c) zero p e = lookup-front (q ∷ c) p e
lookup-listing (q ∷ c) (suc i) p e =
    let (ne, j, at) = get_elem?-without (listing c) q.0 i p e in
    rw (ne→== p.0 q.0 ne) (lookup-listing c j p at)

get_elem?-listing :
    (c : List (ℕ × ℕ)) (k v : ℕ)
    → lookup c k ≡ some v
    → (i : ℕ) × (get_elem? (listing c) i ≡ some (k, v))
get_elem?-listing [] k v e = absurd (none-some e)
get_elem?-listing (q ∷ c) k v e = elim (ℕ_discrete k q.0) [
  | yes z ↦ (0, listed_first q c k v z e)
  | no z ↦
      let (j, at) = get_elem?-listing c k v (sym (listed_later q c k z) ∙ e) in
      let (i, at') = without-get_elem? (listing c) q.0 j (k, v) at z in (suc i, at')
]

lru-IsMap : IsMap lru
lru-IsMap = record {
  value = lookup;
  empty = λ k. refl;
  get = λ c k. refl;
  get_same = λ c k j. lookup-touched c k j (lookup c k) refl;
  put = λ c k v. refl;
  put_value = lookup-used_last;
  peek = lookup-front;
  peek_none = length-front;
  pop = λ c. refl;
  pop_value = lookup-popped;
  iter = lookup-listing;
  iter_all = get_elem?-listing;
}

-- A device over a file of 100 blocks.
abbrev memory : BlockDevice HostFile
memory = block_file host

abbrev memory-IsDisk : IsDisk memory
memory-IsDisk = block_file-IsDisk host-IsFile host-IsComplete

abbrev started : Manager lru memory
started = new lru memory image

coherent : IsCoherent lru-IsMap memory-IsDisk started
unfolding new
coherent b r l = absurd (none-some (sym (lru-IsMap.empty b) ∙ l))

inside_one : (d : HostFile) → d.size ≡ 51200 → 3 < memory-IsDisk.blocks d
inside_one d e = omega (arith, e)

started_size : started.device.size ≡ 51200
unfolding new
started_size = refl

read_cached-read_example :
    (bytes : Bytes) × (m' : Manager lru memory) × (read
        (view lru-IsMap memory-IsDisk started)
        3
        4
        508
      ≡ done bytes)
    × (read_cached lru memory started 3 4 508 ≡ done (bytes, m'))
    × IsCoherent lru-IsMap memory-IsDisk m'
    × (memory-IsDisk.blocks m'.device ≡ memory-IsDisk.blocks started.device)
    × ((k : ℕ) → view lru-IsMap memory-IsDisk m' k ≡ view lru-IsMap memory-IsDisk started k)
read_cached-read_example =
    read_cached-read lru-IsMap memory-IsDisk started coherent 3
      (inside_one started.device started_size) 4 508 (omega arith)

modify_cached-modify_example :
    (d' : Disk) × (m' : Manager lru memory) × (modify
        (view lru-IsMap memory-IsDisk started)
        3
        10
        (7 ∷ 8 ∷ [])
      ≡ done d')
    × (modify_cached lru memory started 3 10 (7 ∷ 8 ∷ []) ≡ done m')
    × IsCoherent lru-IsMap memory-IsDisk m'
    × (memory-IsDisk.blocks m'.device ≡ memory-IsDisk.blocks started.device)
    × ((k : ℕ) → view lru-IsMap memory-IsDisk m' k ≡ d' k)
modify_cached-modify_example =
    modify_cached-modify lru-IsMap memory-IsDisk started coherent 3
      (inside_one started.device started_size) 10 (7 ∷ 8 ∷ []) (omega arith)

Reach-progress_example :
    ((bytes : Bytes) × (m' : Manager lru memory) × (read_cached lru memory started 3 8 10
        ≡ done (bytes, m'))
      × (read (memory-IsDisk.contents image) 3 8 10 ≡ done bytes)
      × Reach lru-IsMap memory-IsDisk image m' (memory-IsDisk.contents image))
    × ((m' : Manager lru memory) × (d' : Disk) × (modify_cached lru memory started 3 10 (7 ∷ 8 ∷ [])
          ≡ done m')
        × (modify (memory-IsDisk.contents image) 3 10 (7 ∷ 8 ∷ []) ≡ done d')
        × Reach lru-IsMap memory-IsDisk image m' d')
Reach-progress_example =
    Reach-progress lru-IsMap memory-IsDisk image started (memory-IsDisk.contents image) 3 10 8
      (7 ∷ 8 ∷ []) created (inside_one image refl) (omega arith) (omega arith)

-- After a modification of block 3.
abbrev changed :
    (m' : Manager lru memory) × (d' : Disk) × (modify_cached lru memory started 3 10 (7 ∷ 8 ∷ [])
      ≡ done m')
    × (modify (memory-IsDisk.contents image) 3 10 (7 ∷ 8 ∷ []) ≡ done d')
    × Reach lru-IsMap memory-IsDisk image m' d'
changed =
    (Reach-progress lru-IsMap memory-IsDisk image started (memory-IsDisk.contents image) 3 10 8
      (7 ∷ 8 ∷ []) created (inside_one image refl) (omega arith) (omega arith)).1

sync_all-Reach_example :
    (m' : Manager lru memory) × (sync_all lru memory changed.0 ≡ done m')
    × (memory-IsDisk.contents m'.device ≡ changed.1)
sync_all-Reach_example = sync_all-Reach lru-IsMap memory-IsDisk image changed.0 changed.1 changed.4
