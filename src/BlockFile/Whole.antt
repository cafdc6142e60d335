-- ===== src/BlockFile/Whole.antt =====
-- examples/fat32-fs-std/src/device.rs: a `BlockFile` over a file whose calls are complete, as a disk.
use fat32_rs.Base.{
  ℕ, ◌⊎◌, ◌+◌, ◌*◌, ◌/◌, ◌≤◌, ◌<◌, ◌≡◌, ◌≢◌, arith, ap, ◌∙◌, sym, inl, inr, some, List, length,
  done,
}
use mathlib.Core.Path.{fun_ext}
use native.Mathlib.Decide.{ℕ_discrete, dec_lt}
use fat32_rs.Bytes.{
  Bytes, of_list, slice, patch, length-slice, get_or-slice, get_or-far, patch_inside, patch_outside,
}
use fat32_rs.Disk.{Disk, block_size, store, store_self, store_ne}
use fat32_rs.Cache.Laws.{IsWhole, IsDisk}
use fat32_rs.BlockFile.{StdFile, read_blocks, write_blocks, bytes_read, file_written, block_file}
use fat32_rs.BlockFile.Device.{IsFile, IsComplete, read_run, write_run, read_bytes, written_bytes}

-- A place in another block is beside the block.
beside :
    (b k i : ℕ) (bs : List ℕ)
    → k ≢ b
    → i < block_size
    → length bs ≡ block_size
    → (k * block_size + i < b * block_size) ⊎ (b * block_size + length bs ≤ k * block_size + i)
beside b k i bs ne l count = elim (dec_lt k b) [
  | yes h ↦ inl (omega (arith, h, l))
  | no g ↦ inr (omega (arith, g, ne, l, count))
]

module _ {H : Type 0} {std : StdFile H} (law : IsFile std) where
  -- The blocks that the file is large enough for.
  abbrev pub blocks_of : H → ℕ
  blocks_of h = law.size h / block_size

  abbrev pub contents_of : H → Disk
  contents_of h b = of_list (slice (law.content h) (b * block_size) block_size)

  module _ (complete : IsComplete law) where
    -- A read of blocks inside the file returns the bytes of the file there.
    read_blocks-slice :
        (h : H) (n b cnt : ℕ)
        → b * block_size + n * block_size ≤ law.size h
        → (h' : H) × (read_blocks std h (n * block_size) (b * block_size) cnt
            ≡ done (slice (law.content h) (b * block_size) (n * block_size), h'))
    read_blocks-slice h n b cnt l =
        let (h1, sought) = complete.seek h (b * block_size) in
        let (same, sized, at) = law.seek h (b * block_size) h1 sought in
        let (bs, h2, got, count) = complete.read h1 (n * block_size) (rw (at, sized) l) in
        (
          h2,
          read_run law h h1 h2 bs n b cnt sought got count
              ∙ ap (λ z. done (z, h2)) (read_bytes law h h1 h2 bs n b sought got count),
        )

    -- A write of blocks inside the file returns, and replaces the bytes of the file there.
    write_blocks-patch :
        (h : H) (bs : List ℕ) (n b cnt : ℕ)
        → length bs ≡ n * block_size
        → b * block_size + n * block_size ≤ law.size h
        → (h' : H) × (write_blocks std h bs (b * block_size) cnt ≡ done h')
          × (law.content h' ≡ patch (law.content h) (b * block_size) bs)
          × (law.size h' ≡ law.size h)
    write_blocks-patch h bs n b cnt e l =
        let (h1, sought) = complete.seek h (b * block_size) in
        let (same, sized, at) = law.seek h (b * block_size) h1 sought in
        let inside : law.position h1 + length bs ≤ law.size h1 = rw (at, sized, e) l in
        let (h2, put) = complete.write h1 bs inside in
        (
          h2,
          write_run law h h1 h2 bs n b cnt sought put e,
          written_bytes law h h1 h2 bs b sought put,
          (law.write h1 bs (length bs) h2 put).2 inside ∙ sized,
        )

  -- The bytes of a block, one by one.
  contents_in :
      (h : H) (b i : ℕ) → i < block_size → contents_of h b i ≡ law.content h (b * block_size + i)
  contents_in h b i l = get_or-slice (law.content h) (b * block_size) block_size i l

  pub contents-IsWhole : (h : H) (b : ℕ) → IsWhole (contents_of h b)
  contents-IsWhole h b i l =
      get_or-far (slice (law.content h) (b * block_size) block_size) i 0
        (omega (arith, l, length-slice (law.content h) (b * block_size) block_size))

  module _ (h h' : H) (b : ℕ) (bytes : Bytes) (whole : IsWhole bytes)
      (e : law.content h' ≡ patch (law.content h) (b * block_size) (slice bytes 0 block_size)) where
    count : length (slice bytes 0 block_size) ≡ block_size
    count = length-slice bytes 0 block_size

    patched_in : (i : ℕ) → i < block_size → contents_of h' b i ≡ bytes i
    patched_in i l =
        contents_in h' b i l
        ∙ ap (λ z. z (b * block_size + i)) e
        ∙ patch_inside (law.content h) (b * block_size) (slice bytes 0 block_size) i
            (omega (arith, count, l))
        ∙ get_or-slice bytes 0 block_size i l
        ∙ ap bytes (omega arith)

    patched_far : (i : ℕ) → block_size ≤ i → contents_of h' b i ≡ bytes i
    patched_far i l = contents-IsWhole h' b i l ∙ sym (whole i l)

    kept_in : (k i : ℕ) → k ≢ b → i < block_size → contents_of h' k i ≡ contents_of h k i
    kept_in k i ne l =
        contents_in h' k i l
        ∙ ap (λ z. z (k * block_size + i)) e
        ∙ patch_outside (law.content h) (b * block_size) (slice bytes 0 block_size)
            (k * block_size + i) (beside b k i (slice bytes 0 block_size) ne l count)
        ∙ sym (contents_in h k i l)

    kept_far : (k i : ℕ) → block_size ≤ i → contents_of h' k i ≡ contents_of h k i
    kept_far k i l = contents-IsWhole h' k i l ∙ sym (contents-IsWhole h k i l)

    contents_of-store : contents_of h' ≡ store (contents_of h) b bytes
    contents_of-store = fun_ext (λ k. elim (ℕ_discrete k b) [
      | yes p ↦
          ap (contents_of h') p
          ∙ fun_ext (λ i. elim (dec_lt i block_size) [
            | yes l ↦ patched_in i l
            | no g ↦ patched_far i (omega (arith, g))
          ])
          ∙ sym (store_self (contents_of h) b bytes)
          ∙ ap (store (contents_of h) b bytes) (sym p)
      | no ne ↦
          fun_ext (λ i. elim (dec_lt i block_size) [
            | yes l ↦ kept_in k i ne l
            | no g ↦ kept_far k i (omega (arith, g))
          ])
          ∙ sym (store_ne (contents_of h) b bytes k ne)
    ])

  room : (h : H) (b : ℕ) → b < blocks_of h → b * block_size + block_size ≤ law.size h
  room h b l = omega (arith, l)

  module _ (complete : IsComplete law) where
    pub read_law :
        (h : H) (b : ℕ)
        → b < blocks_of h
        → (block_file std).read_blocks h (b * block_size) 1 ≡ some (contents_of h b)
    unfolding bytes_read
    read_law h b l =
        let (h', ran) = read_blocks-slice complete h 1 b 1 (room h b l) in ap (bytes_read std) ran

    pub write_law :
        (h : H) (b : ℕ) (bytes : Bytes)
        → b < blocks_of h
        → IsWhole bytes
        → (h' : H) × ((block_file std).write_blocks h bytes (b * block_size) 1 ≡ some h')
          × (contents_of h' ≡ store (contents_of h) b bytes)
          × (blocks_of h' ≡ blocks_of h)
    unfolding file_written
    write_law h b bytes l whole =
        let bs = slice bytes 0 block_size in
        let (h', ran, written, sized) =
          write_blocks-patch complete h bs 1 b 1 (length-slice bytes 0 block_size) (room h b l) in
        (
          h',
          ap (file_written std) ran,
          contents_of-store h h' b bytes whole written,
          ap (λ z. z / block_size) sized,
        )

    -- A `BlockFile` over a file of the host whose calls are complete is a device as the cache needs it, of as
    -- many blocks as the file is large enough for.
    abbrev pub block_file-IsDisk : IsDisk (block_file std)
    block_file-IsDisk = record {
      contents = contents_of;
      blocks = blocks_of;
      whole = contents-IsWhole;
      read = read_law;
      write = write_law;
    }
