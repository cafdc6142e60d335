-- ===== src/Vfs/Extend.antt =====
-- src/vfs.rs: new clusters behind the last one of a file make one chain.
use fat32_rs.Base.{
  ℕ, ◌+◌, ◌^◌, ◌≤◌, ◌<◌, ◌≡◌, ◌≢◌, refl, arith, ne→==, sym, ◌∙◌, List, [], ◌∷◌, ◌++◌, length,
  last_or, ◌∉◌, Distinct, done,
}
use fat32_rs.Disk.{Disk}
use fat32_rs.Fat.{end_of_cluster}
use fat32_rs.Fat.Entries.{
  IsAligned, entry, set_entry, entry_block, entry-set_self, entry-set_ne, set_entry_ne,
  set_next_cluster_lem,
}
use fat32_rs.Fat.Walk.{IsChain, walks-chain}
use fat32_rs.Fs.{FileSystem, set_next}
use fat32_rs.Vfs.{VirtFile}
use fat32_rs.Vfs.Chain.{extend_chain}

-- The last of a list is not outside it.
ne-last_or : (a y : ℕ) (ys : List ℕ) → a ∉ (y ∷ ys) → a ≢ last_or ys y
ne-last_or a y [] h = h.0
ne-last_or a y (z ∷ zs) h = ne-last_or a z zs h.1

last_or-ge : (e : ℕ → ℕ) (c : ℕ) (cs : List ℕ) → 2 ≤ c → IsChain e (c ∷ cs) → 2 ≤ last_or cs c
last_or-ge e c [] h ch = h
last_or-ge e c (y ∷ ys) h ch = last_or-ge e y ys ch.1 ch.3

IsChain-change :
    (e f : ℕ → ℕ) (l : ℕ) (xs : List ℕ)
    → l ∉ xs
    → ((x : ℕ) → x ≢ l → f x ≡ e x)
    → IsChain e xs
    → IsChain f xs
IsChain-change e f l [] out same ch = tt
IsChain-change e f l (x ∷ []) out same ch = rw (same x (λ p. out.0 (sym p))) ch
IsChain-change e f l (x ∷ y ∷ ys) out same ch =
    (same x (λ p. out.0 (sym p)) ∙ ch.0, ch.1, ch.2, IsChain-change e f l (y ∷ ys) out.1 same ch.3)

IsChain-append :
    (e f : ℕ → ℕ) (c : ℕ) (cs : List ℕ) (s : ℕ) (ds : List ℕ)
    → IsChain e (c ∷ cs)
    → Distinct (c ∷ cs)
    → IsChain e (s ∷ ds)
    → last_or cs c ∉ (s ∷ ds)
    → 2 ≤ s
    → s < end_of_cluster
    → f (last_or cs c) ≡ s
    → ((x : ℕ) → x ≢ last_or cs c → f x ≡ e x)
    → IsChain f ((c ∷ cs) ++ (s ∷ ds))
IsChain-append e f c [] s ds a dis b out h k link same =
    (link, h, k, IsChain-change e f c (s ∷ ds) out same b)
IsChain-append e f c (y ∷ ys) s ds a dis b out h k link same = (
  same c (ne-last_or c y ys dis.0) ∙ a.0,
  a.1,
  a.2,
  IsChain-append e f y ys s ds a.3 dis.1 b out h k link same,
)

-- For a file whose chain ends outside another chain of the table, and with more fuel than the file
-- has clusters, `extend_chain` returns: the two chains have become one, the other entries of the
-- table and the blocks but that of the last cluster's entry are as before, and so is the file.
pub extend_chain-IsChain :
    (fs : FileSystem) (self : VirtFile) (fuel c : ℕ) (cs : List ℕ) (s : ℕ) (ds : List ℕ)
    → IsAligned fs.fat.fat1_offset
    → length cs < fuel
    → length cs + 1 < 2 ^ 32
    → 2 ≤ c
    → c < end_of_cluster
    → IsChain (entry fs.fat.fat1_offset fs.disk) (c ∷ cs)
    → Distinct (c ∷ cs)
    → 2 ≤ s
    → s < end_of_cluster
    → IsChain (entry fs.fat.fat1_offset fs.disk) (s ∷ ds)
    → last_or cs c ∉ (s ∷ ds)
    → (d' : Disk) × (extend_chain fs self fuel c s ≡ done (record fs { disk = d' }, self))
      × IsChain (entry fs.fat.fat1_offset d') ((c ∷ cs) ++ (s ∷ ds))
      × ((x : ℕ)
          → x ≢ last_or cs c
          → entry fs.fat.fat1_offset d' x ≡ entry fs.fat.fat1_offset fs.disk x)
      × ((b : ℕ) → b ≢ entry_block fs.fat.fat1_offset (last_or cs c) → d' b ≡ fs.disk b)
unfolding extend_chain set_next
extend_chain-IsChain fs self fuel c cs s ds al f small h k ch dis h' k' ch' out =
    let off = fs.fat.fat1_offset in
    let l = last_or cs c in
    let same : (x : ℕ) → x ≢ l → entry off (set_entry off fs.disk l s) x ≡ entry off fs.disk x =
      λ x ne. entry-set_ne off al fs.disk l x s ne in
    (
      set_entry off fs.disk l s,
      rw
          (
            (walks-chain fs.fat al fs.disk fuel c cs f small h k ch).2,
            ne→== l 0 (omega (arith, last_or-ge (entry off fs.disk) c cs h ch)),
            set_next_cluster_lem fs.fat al fs.disk l s,
          )
          refl,
      IsChain-append (entry off fs.disk) (entry off (set_entry off fs.disk l s)) c cs s ds ch dis
          ch' out h' k' (entry-set_self off al fs.disk l s (omega arith)) same,
      same,
      λ b ne. set_entry_ne off al fs.disk l s b ne,
    )
