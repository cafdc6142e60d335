-- ===== src/Fat/Search.antt =====
-- src/fat.rs: the search for a free cluster.
use fat32_rs.Base.{
  ℕ, zero, suc, ◌+◌, ◌-◌, ◌*◌, ◌/◌, ◌%◌, ◌^◌, ◌≤◌, ◌<◌, ◌≡◌, ◌≢◌, refl, arith, ◌==◌, if◌then◌else◌,
  le→leb, ==→eq, ==→ne, ap, sym, ◌∙◌, done, Bool, true, false, Bool-cases, inl, inr,
}
use native.Mathlib.Decide.{ℕ_discrete, dec_lt}
use fat32_rs.Bytes.{Bytes, read_le_u32}
use fat32_rs.Disk.{Disk, read-block}
use fat32_rs.Fat.{FatManager, mask, scan, find_loop, find_blank_cluster}
use fat32_rs.Fat.Entries.{IsAligned, entry, entry_block, entry_offset}

-- No entry from `a` up to `b` is free.
abbrev pub NoneFree : (ℕ → ℕ) → ℕ → ℕ → Type 0
NoneFree e a b = (k : ℕ) → a ≤ k → k < b → e k ≢ 0

-- What one pass over a block from cluster `c` on finds, of the `n` entries left in it.
record IsScanned (e : ℕ → ℕ) (c n : ℕ) (found : Bool) (c' : ℕ) : Type 0 where
  reached : c ≤ c'
  within : c' ≤ c + n
  skipped : NoneFree e c c'
  hit : found ≡ true → (e c' ≡ 0)
  miss : found ≡ false → c' ≡ c + n

NoneFree-cons : (e : ℕ → ℕ) (a b : ℕ) → e a ≢ 0 → NoneFree e (a + 1) b → NoneFree e a b
NoneFree-cons e a b h rest k p q = elim (ℕ_discrete k a) [
  | yes same ↦ λ z. h (ap e (sym same) ∙ z)
  | no ne ↦ rest k (omega arith) q
]

module _ (buffer : Bytes) (n i c : ℕ) (h : i + 4 * suc n ≤ 512) (b : c + suc n < 2 ^ 32) where
  scan-free : (read_le_u32 buffer i == 0) ≡ true → scan buffer (suc n) i c ≡ done (true, c)
  unfolding scan
  scan-free free = rw (le→leb (i + 4) 512 (omega arith), free)

  scan-used :
      (r : Bool × ℕ)
      → (read_le_u32 buffer i == 0) ≡ false
      → scan buffer n (i + 4) (c + 1) ≡ done r
      → scan buffer (suc n) i c ≡ done r
  unfolding scan
  scan-used r used ran =
      let next : (c + 1) % 2 ^ 32 ≡ c + 1 = omega arith in
      rw (le→leb (i + 4) 512 (omega arith), used, next) ran

  IsScanned-cons :
      (e : ℕ → ℕ) {found : Bool} {c' : ℕ}
      → e c ≢ 0
      → IsScanned e (c + 1) n found c'
      → IsScanned e c (suc n) found c'
  IsScanned-cons e {c'} ne s = record {
    reached = omega (arith, s.reached);
    within = omega (arith, s.within);
    skipped = NoneFree-cons e c c' ne s.skipped;
    hit = s.hit;
    miss = λ p. omega (arith, s.miss p);
  }

abbrev Scan : (ℕ → ℕ) → Bytes → ℕ → ℕ → ℕ → Type 0
Scan e buffer n i c =
    (found : Bool) × (c' : ℕ) × (scan buffer n i c ≡ done (found, c')) × IsScanned e c n found c'

Scan-IsScanned :
    (e : ℕ → ℕ) (buffer : Bytes) (n i c : ℕ)
    → ((k : ℕ) → k < n → read_le_u32 buffer (i + 4 * k) ≡ e (c + k))
    → i + 4 * n ≤ 512
    → c + n < 2 ^ 32
    → Scan e buffer n i c
unfolding scan
Scan-IsScanned e buffer zero i c same h b = (
  false,
  c,
  refl,
  record {
    reached = omega arith;
    within = omega arith;
    skipped = λ k p q. absurd (omega arith);
    hit = λ p. cc;
    miss = λ p. omega arith;
  },
)
Scan-IsScanned e buffer (suc n) i c same h b =
    let first : read_le_u32 buffer i ≡ e c =
      ap (read_le_u32 buffer) (omega arith) ∙ same 0 (omega arith) ∙ ap e (omega arith) in
    elim (Bool-cases (read_le_u32 buffer i == 0)) [
      | inl free ↦ (
        true,
        c,
        scan-free buffer n i c h b free,
        record {
          reached = omega arith;
          within = omega arith;
          skipped = λ k p q. absurd (omega arith);
          hit = λ p. sym first ∙ ==→eq _ _ free;
          miss = λ p. cc;
        },
      )
      | inr used ↦
          let (found, c', ran, s) =
            Scan-IsScanned e buffer n (i + 4) (c + 1)
              (λ k p.
                ap (read_le_u32 buffer) (omega arith)
                ∙ same (suc k) (omega arith)
                ∙ ap e (omega arith))
              (omega arith) (omega arith) in
          let ne : e c ≢ 0 = λ z. ==→ne _ _ used (first ∙ z) in
          (
            found,
            c',
            scan-used buffer n i c h b (found, c') used ran,
            IsScanned-cons buffer n i c h b e ne s,
          )
    ]

module _ (fat : FatManager) (al : IsAligned fat.fat1_offset) (d : Disk) where
  -- The entries of one block, from that of cluster `c` to its end.
  abbrev left_in_block : ℕ → ℕ
  left_in_block c = (512 - entry_offset fat.fat1_offset c + 3) / 4

  same_block :
      (c k : ℕ)
      → k < left_in_block c
      → read_le_u32 (d (entry_block fat.fat1_offset c)) (entry_offset fat.fat1_offset c + 4 * k)
        ≡ entry fat.fat1_offset d (c + k)
  unfolding entry
  same_block c k h =
      let block : entry_block fat.fat1_offset (c + k) ≡ entry_block fat.fat1_offset c =
        omega arith in
      let place : entry_offset fat.fat1_offset (c + k) ≡ entry_offset fat.fat1_offset c + 4 * k =
        omega arith in
      rw (block, place)

  Scan-block :
      (c : ℕ)
      → c < 2 ^ 31
      → Scan
          (entry fat.fat1_offset d)
          (d (entry_block fat.fat1_offset c))
          (left_in_block c)
          (entry_offset fat.fat1_offset c)
          c
  Scan-block c h =
      Scan-IsScanned (entry fat.fat1_offset d) (d (entry_block fat.fat1_offset c)) (left_in_block c)
        (entry_offset fat.fat1_offset c) c (same_block c) (omega arith) (omega arith)

  -- The first free cluster from `c` on.
  pub record FirstFree (c c' : ℕ) : Type 0 where
    pub from : c ≤ c'
    pub free : entry fat.fat1_offset d c' ≡ 0
    pub skipped : NoneFree (entry fat.fat1_offset d) c c'

  find_loop_step :
      (fuel c : ℕ) (found : Bool) (c' : ℕ)
      → scan
          (d (entry_block fat.fat1_offset c))
          (left_in_block c)
          (entry_offset fat.fat1_offset c)
          c
        ≡ done (found, c')
      → find_loop fat d (suc fuel) c ≡ (if found then done c' else find_loop fat d fuel c')
  unfolding find_loop
  find_loop_step fuel c found c' ran = rw (read-block d (entry_block fat.fat1_offset c), ran)

  FirstFree-trans :
      (c c' c'' : ℕ)
      → c ≤ c'
      → NoneFree (entry fat.fat1_offset d) c c'
      → FirstFree c' c''
      → FirstFree c c''
  FirstFree-trans c c' c'' h before ff = record {
    from = omega (arith, ff.from);
    free = ff.free;
    skipped =
        λ k p q. elim (dec_lt k c') [ yes l ↦ before k p l | no g ↦ ff.skipped k (omega arith) q ];
  }

  pub find_loop-FirstFree :
      (fuel c f : ℕ)
      → c ≤ f
      → f < fuel + c
      → f < 2 ^ 31
      → entry fat.fat1_offset d f ≡ 0
      → (c' : ℕ) × (find_loop fat d fuel c ≡ done c') × FirstFree c c'
  find_loop-FirstFree zero c f h k l z = absurd (omega arith)
  find_loop-FirstFree (suc fuel) c f h k l z =
      let (found, c', ran, s) = Scan-block c (omega arith) in
      elim (Bool-cases found) [
        | inl hit ↦ (
          c',
          rw (find_loop_step fuel c found c' ran, hit),
          record { from = s.reached; free = s.hit hit; skipped = s.skipped },
        )
        | inr miss ↦
            let past : c' ≤ f = elim (dec_lt f c') [
              | yes l' ↦ absurd (s.skipped f h l' z)
              | no g ↦ omega arith
            ] in
            let (c'', ran', ff) =
              find_loop-FirstFree fuel c' f past (omega (arith, s.miss miss)) l z in
            (
              c'',
              rw (find_loop_step fuel c found c' ran, miss) ran',
              FirstFree-trans c c' c'' s.reached s.skipped ff,
            )
      ]

  find_blank_cluster_step :
      (fuel start c : ℕ)
      → start < 2 ^ 28
      → c < 2 ^ 28
      → find_loop fat d fuel (start + 1) ≡ done c
      → find_blank_cluster fat d fuel start ≡ done c
  unfolding find_blank_cluster
  find_blank_cluster_step fuel start c h k ran =
      let next : (start + 1) % 2 ^ 32 ≡ start + 1 = omega arith in
      let same : mask c ≡ c = omega arith in rw (next, ran) (ap done same)

  -- If some cluster behind `start` and below 2 ^ 28 is free, `find_blank_cluster` returns, with that
  -- much fuel, the first free cluster behind `start`.
  pub find_blank_cluster-FirstFree :
      (fuel start f : ℕ)
      → start < f
      → f ≤ fuel + start
      → f < 2 ^ 28
      → entry fat.fat1_offset d f ≡ 0
      → (c : ℕ) × (find_blank_cluster fat d fuel start ≡ done c) × FirstFree (start + 1) c × (c ≤ f)
  find_blank_cluster-FirstFree fuel start f h k l z =
      let (c, ran, ff) =
        find_loop-FirstFree fuel (start + 1) f (omega arith) (omega arith) (omega arith) z in
      let below : c ≤ f = elim (dec_lt f c) [
        | yes l' ↦ absurd (ff.skipped f (omega arith) l' z)
        | no g ↦ omega arith
      ] in
      (c, find_blank_cluster_step fuel start c (omega arith) (omega arith) ran, ff, below)
