-- ===== src/Cache/Reach.antt =====
-- src/cache.rs: the states that the functions of the cache reach from a new manager, with the disk that
-- reads and modifications alone make.
use fat32_rs.Base.{ℕ, ◌<◌, ◌≢◌, ◌≤◌, ◌+◌, ◌≡◌, ap, ◌∙◌, refl, sym, none, some, List, length, done}
use mathlib.Core.Path.{subst, fun_ext}
use fat32_rs.Bytes.{Bytes}
use fat32_rs.Disk.{Disk, block_size, read, modify}
use fat32_rs.Cache.{BlockDevice, LruCache, Manager, new, read_cached, modify_cached, sync_all}
use fat32_rs.Cache.Laws.{IsMap, IsDisk}
use fat32_rs.Cache.View.{IsCoherent, view}
use fat32_rs.Cache.Access.{read_cached-read, modify_cached-modify}
use fat32_rs.Cache.Sync.{sync_all_safe}

none-some : {r : ℕ} → none ≢ some r
none-some e = cc

done-inj : {A : Type 0} {x y : A} → done x ≡ done y → x ≡ y
done-inj e = cc

module _ {C S : Type 0} {api : LruCache C} {dev : BlockDevice S} (map : IsMap api)
    (disk : IsDisk dev) where
  -- The calls from a new manager of `device`; the blocks are on the device, and the parts in the blocks.
  pub data Reach (device : S) : Manager api dev → Disk → Type 0 where
    created : Reach device (new api dev device) (disk.contents device)
    read_one :
        {m m' : Manager api dev} {d : Disk} {bytes : Bytes} (b size place : ℕ)
        → Reach device m d
        → b < disk.blocks device
        → place + size ≤ block_size
        → read_cached api dev m b size place ≡ done (bytes, m')
        → Reach device m' d
    modified_one :
        {m m' : Manager api dev} {d d' : Disk} (b place : ℕ) (bs : List ℕ)
        → Reach device m d
        → b < disk.blocks device
        → place + length bs ≤ block_size
        → modify_cached api dev m b place bs ≡ done m'
        → modify d b place bs ≡ done d'
        → Reach device m' d'
    synced_all :
        {m m' : Manager api dev} {d : Disk}
        → Reach device m d
        → sync_all api dev m ≡ done m'
        → Reach device m' d

  -- What holds of a state that is reached.
  pub record IsFaithful (device : S) (m : Manager api dev) (d : Disk) : Type 0 where
    pub coherent : IsCoherent map disk m
    pub blocks : disk.blocks m.device ≡ disk.blocks device
    pub seen : view map disk m ≡ d

  pub new-IsFaithful : (device : S) → IsFaithful device (new api dev device) (disk.contents device)
  unfolding new
  new-IsFaithful device = record {
    coherent = λ b r l. absurd (none-some (sym (map.empty b) ∙ l));
    blocks = refl;
    seen = fun_ext (λ k. rw (map.empty k) refl);
  }

  module _ (device : S) (m : Manager api dev) (d : Disk) (f : IsFaithful device m d) where
    inside : (b : ℕ) → b < disk.blocks device → b < disk.blocks m.device
    inside b l = rw f.blocks l

    -- A part of a block is read as it is on the disk.
    pub read_cached-IsFaithful :
        (b size place : ℕ)
        → b < disk.blocks device
        → place + size ≤ block_size
        → (bytes : Bytes) × (m' : Manager api dev) × (read_cached api dev m b size place
            ≡ done (bytes, m'))
          × IsFaithful device m' d
          × (read d b size place ≡ done bytes)
    read_cached-IsFaithful b size place l l' =
        let (bytes, m', e, ran, co, n, same) =
          read_cached-read map disk m f.coherent b (inside b l) size place l' in
        (
          bytes,
          m',
          ran,
          record { coherent = co; blocks = n ∙ f.blocks; seen = fun_ext same ∙ f.seen },
          ap (λ z. read z b size place) (sym f.seen) ∙ e,
        )

    pub modify_cached-IsFaithful :
        (b place : ℕ) (bs : List ℕ)
        → b < disk.blocks device
        → place + length bs ≤ block_size
        → (m' : Manager api dev) × (d' : Disk) × (modify_cached api dev m b place bs ≡ done m')
          × IsFaithful device m' d'
          × (modify d b place bs ≡ done d')
    modify_cached-IsFaithful b place bs l l' =
        let (d', m', e, ran, co, n, same) =
          modify_cached-modify map disk m f.coherent b (inside b l) place bs l' in
        (
          m',
          d',
          ran,
          record { coherent = co; blocks = n ∙ f.blocks; seen = fun_ext same },
          ap (λ z. modify z b place bs) (sym f.seen) ∙ e,
        )

    pub sync_all-IsFaithful :
        (m' : Manager api dev) × (sync_all api dev m ≡ done m')
        × IsFaithful device m' d
        × (disk.contents m'.device ≡ d)
    sync_all-IsFaithful =
        let (m', ran, co, n, same, flushed) = sync_all_safe map disk m f.coherent in
        (
          m',
          ran,
          record { coherent = co; blocks = n ∙ f.blocks; seen = fun_ext same ∙ f.seen },
          fun_ext flushed ∙ f.seen,
        )

  -- In every state that is reached the disk is seen, whichever blocks have been dropped meanwhile.
  pub Reach-IsFaithful :
      {device : S} {m : Manager api dev} {d : Disk} → Reach device m d → IsFaithful device m d
  Reach-IsFaithful {device} created = new-IsFaithful device
  Reach-IsFaithful {device} {m} {d} (read_one {m = m0} b size place r l l' ran) =
      let (bytes, m', ran', f, e) =
        read_cached-IsFaithful device m0 d (Reach-IsFaithful r) b size place l l' in
      subst (λ z. IsFaithful device z d) (ap (λ z. z.1) (done-inj (sym ran' ∙ ran))) f
  Reach-IsFaithful {device} {m} {d} (modified_one {m = m0} {d = d0} b place bs r l l' ran e) =
      let (m', d', ran', f, e') =
        modify_cached-IsFaithful device m0 d0 (Reach-IsFaithful r) b place bs l l' in
      subst (λ z. IsFaithful device m z) (done-inj (sym e' ∙ e))
        (subst (λ z. IsFaithful device z d') (done-inj (sym ran' ∙ ran)) f)
  Reach-IsFaithful {device} {m} {d} (synced_all {m = m0} r ran) =
      let (m', ran', f, e) = sync_all-IsFaithful device m0 d (Reach-IsFaithful r) in
      subst (λ z. IsFaithful device z d) (done-inj (sym ran' ∙ ran)) f

  -- After any reads, modifications and calls of `sync_all` from a new manager, in blocks of the device, and
  -- in whatever order blocks were dropped meanwhile, `sync_all` returns, and the device then is the disk
  -- that the modifications alone make of the first one: none is lost.
  pub sync_all-Reach :
      (device : S) (m : Manager api dev) (d : Disk)
      → Reach device m d
      → (m' : Manager api dev) × (sync_all api dev m ≡ done m') × (disk.contents m'.device ≡ d)
  sync_all-Reach device m d r =
      let (m', ran, f, e) = sync_all-IsFaithful device m d (Reach-IsFaithful r) in (m', ran, e)

  -- In every state that such calls reach from a new manager, the next read of a part of a block of the
  -- device and the next modification return, with the bytes and to the disk that `read` and `modify`
  -- give: the cache neither panics nor blocks the calls.
  pub Reach-progress :
      (device : S) (m : Manager api dev) (d : Disk) (b place size : ℕ) (bs : List ℕ)
      → Reach device m d
      → b < disk.blocks device
      → place + size ≤ block_size
      → place + length bs ≤ block_size
      → ((bytes : Bytes) × (m' : Manager api dev) × (read_cached api dev m b size place
            ≡ done (bytes, m'))
          × (read d b size place ≡ done bytes)
          × Reach device m' d)
        × ((m' : Manager api dev) × (d' : Disk) × (modify_cached api dev m b place bs ≡ done m')
            × (modify d b place bs ≡ done d')
            × Reach device m' d')
  Reach-progress device m d b place size bs r l l' l'' =
      let f = Reach-IsFaithful r in
      let (bytes, m1, ran, f1, e) = read_cached-IsFaithful device m d f b size place l l' in
      let (m2, d', ran', f2, e') = modify_cached-IsFaithful device m d f b place bs l l'' in
      (
        (bytes, m1, ran, e, read_one b size place r l l' ran),
        (m2, d', ran', e', modified_one b place bs r l l'' ran' e'),
      )
