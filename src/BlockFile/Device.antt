-- ===== src/BlockFile/Device.antt =====
-- examples/fat32-fs-std/src/device.rs: blocks of a `BlockFile`, over a file of the host.
use fat32_rs.Base.{
  ℕ, ◌⊎◌, ◌+◌, ◌*◌, ◌%◌, ◌≤◌, ◌<◌, ◌≡◌, [], ◌≢◌, arith, ap, ◌∙◌, refl, sym, true, inl, inr, ◌==◌,
  eq→==, ne→==, some, panic, take, List, ◌∷◌, length, done,
}
use native.Mathlib.Decide.{ℕ_discrete}
use fat32_rs.Bytes.{Bytes, slice, patch, slice-patch, patch_outside}
use fat32_rs.Disk.{block_size}
use fat32_rs.BlockFile.{StdFile, read_blocks, write_blocks}

-- What std::fs::File documents. A call that succeeds may be short: `read` gives a first part of what was
-- asked for, from the position on, and `write` puts a first part of the buffer there. Inside the file a
-- write leaves its size.
pub record IsFile {H : Type 0} (std : StdFile H) : Type 0 where
  pub content : H → Bytes
  pub size : H → ℕ
  pub position : H → ℕ
  pub seek :
      (h : H) (p : ℕ) (h' : H)
      → std.seek h p ≡ some h'
      → (content h' ≡ content h) × (size h' ≡ size h) × (position h' ≡ p)
  pub read :
      (h : H) (n : ℕ) (bs : List ℕ) (h' : H)
      → std.read h n ≡ some (bs, h')
      → (length bs ≤ n) × (bs ≡ slice (content h) (position h) (length bs))
  pub write :
      (h : H) (bs : List ℕ) (m : ℕ) (h' : H)
      → std.write h bs ≡ some (m, h')
      → (m ≤ length bs)
        × (content h' ≡ patch (content h) (position h) (take m bs))
        × (position h + length bs ≤ size h → size h' ≡ size h)

-- What std does not promise, and the code asserts of each call: inside the file it succeeds, and is not
-- short.
pub record IsComplete {H : Type 0} {std : StdFile H} (law : IsFile std) : Type 0 where
  pub seek : (h : H) (p : ℕ) → (h' : H) × (std.seek h p ≡ some h')
  pub read :
      (h : H) (n : ℕ)
      → law.position h + n ≤ law.size h
      → (bs : List ℕ) × (h' : H) × (std.read h n ≡ some (bs, h')) × (length bs ≡ n)
  pub write :
      (h : H) (bs : List ℕ)
      → law.position h + length bs ≤ law.size h
      → (h' : H) × (std.write h bs ≡ some (length bs, h'))

pub take-length : (bs : List ℕ) → take (length bs) bs ≡ bs
take-length [] = refl
take-length (x ∷ bs) = rw (take-length bs) refl

outside :
    (i n b : ℕ) (bs : List ℕ)
    → length bs ≡ n * block_size
    → (i < b * block_size) ⊎ (b * block_size + n * block_size ≤ i)
    → (i < b * block_size) ⊎ (b * block_size + length bs ≤ i)
outside i n b bs e (inl l) = inl l
outside i n b bs e (inr l) = inr (rw e l)

module _ {H : Type 0} {std : StdFile H} (law : IsFile std) where
  aligned : (b : ℕ) → (b * block_size % block_size == 0) ≡ true
  aligned b = eq→== (b * block_size % block_size) 0 (omega arith)

  pub read_run :
      (h h1 h2 : H) (bs : List ℕ) (n b cnt : ℕ)
      → std.seek h (b * block_size) ≡ some h1
      → std.read h1 (n * block_size) ≡ some (bs, h2)
      → length bs ≡ n * block_size
      → read_blocks std h (n * block_size) (b * block_size) cnt ≡ done (bs, h2)
  unfolding read_blocks
  read_run h h1 h2 bs n b cnt sought got l =
      rw (aligned b, aligned n, sought, got, eq→== (length bs) (n * block_size) l) refl

  pub write_run :
      (h h1 h2 : H) (bs : List ℕ) (n b cnt : ℕ)
      → std.seek h (b * block_size) ≡ some h1
      → std.write h1 bs ≡ some (length bs, h2)
      → length bs ≡ n * block_size
      → write_blocks std h bs (b * block_size) cnt ≡ done h2
  unfolding write_blocks
  write_run h h1 h2 bs n b cnt sought put l =
      let e : (length bs % block_size == 0) ≡ true =
        eq→== (length bs % block_size) 0 (ap (λ z. z % block_size) l ∙ omega arith) in
      rw (aligned b, e, sought, put, eq→== (length bs) (length bs) refl) refl

  -- The bytes that a complete read gives, and a complete write puts.
  pub read_bytes :
      (h h1 h2 : H) (bs : List ℕ) (n b : ℕ)
      → std.seek h (b * block_size) ≡ some h1
      → std.read h1 (n * block_size) ≡ some (bs, h2)
      → length bs ≡ n * block_size
      → bs ≡ slice (law.content h) (b * block_size) (n * block_size)
  read_bytes h h1 h2 bs n b sought got count =
      let (same, sized, at) = law.seek h (b * block_size) h1 sought in
      (law.read h1 (n * block_size) bs h2 got).1
      ∙ ap (slice (law.content h1) (law.position h1)) count
      ∙ ap (λ z. slice z (law.position h1) (n * block_size)) same
      ∙ ap (λ z. slice (law.content h) z (n * block_size)) at

  pub written_bytes :
      (h h1 h2 : H) (bs : List ℕ) (b : ℕ)
      → std.seek h (b * block_size) ≡ some h1
      → std.write h1 bs ≡ some (length bs, h2)
      → law.content h2 ≡ patch (law.content h) (b * block_size) bs
  written_bytes h h1 h2 bs b sought put =
      let (same, sized, at) = law.seek h (b * block_size) h1 sought in
      (law.write h1 bs (length bs) h2 put).1
      ∙ ap (patch (law.content h1) (law.position h1)) (take-length bs)
      ∙ ap (λ z. patch z (law.position h1) bs) same
      ∙ ap (λ z. patch (law.content h) z bs) at

  read_short :
      (h h1 h2 : H) (bs : List ℕ) (n b cnt : ℕ)
      → std.seek h (b * block_size) ≡ some h1
      → std.read h1 (n * block_size) ≡ some (bs, h2)
      → length bs ≢ n * block_size
      → read_blocks std h (n * block_size) (b * block_size) cnt ≡ panic
  unfolding read_blocks
  read_short h h1 h2 bs n b cnt sought got l =
      rw (aligned b, aligned n, sought, got, ne→== (length bs) (n * block_size) l) refl

  write_short :
      (h h1 h2 : H) (bs : List ℕ) (m n b cnt : ℕ)
      → std.seek h (b * block_size) ≡ some h1
      → std.write h1 bs ≡ some (m, h2)
      → length bs ≡ n * block_size
      → m ≢ length bs
      → write_blocks std h bs (b * block_size) cnt ≡ panic
  unfolding write_blocks
  write_short h h1 h2 bs m n b cnt sought put l ne =
      let e : (length bs % block_size == 0) ≡ true =
        eq→== (length bs % block_size) 0 (ap (λ z. z % block_size) l ∙ omega arith) in
      rw (aligned b, e, sought, put, ne→== m (length bs) ne) refl

  back :
      (h h2 h3 h4 : H) (bs bs' : List ℕ) (n b cnt : ℕ)
      → length bs ≡ n * block_size
      → law.content h2 ≡ patch (law.content h) (b * block_size) bs
      → std.seek h2 (b * block_size) ≡ some h3
      → std.read h3 (n * block_size) ≡ some (bs', h4)
      → ((length bs' < n * block_size)
          × (read_blocks std h2 (n * block_size) (b * block_size) cnt ≡ panic))
        ⊎ (read_blocks std h2 (n * block_size) (b * block_size) cnt ≡ done (bs, h4))
  back h h2 h3 h4 bs bs' n b cnt e written sought got =
      elim (ℕ_discrete (length bs') (n * block_size)) [
        | no ne ↦ inl (
          omega (arith, (law.read h3 (n * block_size) bs' h4 got).0, ne),
          read_short h2 h3 h4 bs' n b cnt sought got ne,
        )
        | yes all ↦
            let same : bs' ≡ bs =
              read_bytes h2 h3 h4 bs' n b sought got all
              ∙ ap (λ z. slice z (b * block_size) (n * block_size)) written
              ∙ ap (slice (patch (law.content h) (b * block_size) bs) (b * block_size)) (sym e)
              ∙ slice-patch (law.content h) (b * block_size) bs in
            inr (read_run h2 h3 h4 bs' n b cnt sought got all ∙ ap (λ z. done (z, h4)) same)
      ]

  -- For a write of blocks and a read of as many there after it, where the host's calls succeed: if the
  -- host wrote a part of the buffer only, `write_blocks` panics. Otherwise it returns, bytes at other
  -- places of the file are as before, and if the host then reads less than was asked for, `read_blocks`
  -- panics, otherwise it returns the buffer that was written.
  pub read_blocks-write_blocks :
      (h h1 h2 h3 h4 : H) (bs bs' : List ℕ) (m n b cnt : ℕ)
      → length bs ≡ n * block_size
      → std.seek h (b * block_size) ≡ some h1
      → std.write h1 bs ≡ some (m, h2)
      → std.seek h2 (b * block_size) ≡ some h3
      → std.read h3 (n * block_size) ≡ some (bs', h4)
      → ((m < length bs) × (write_blocks std h bs (b * block_size) cnt ≡ panic))
        ⊎ ((write_blocks std h bs (b * block_size) cnt ≡ done h2)
            × ((i : ℕ)
                → (i < b * block_size) ⊎ (b * block_size + n * block_size ≤ i)
                → law.content h2 i ≡ law.content h i)
            × (((length bs' < n * block_size)
                  × (read_blocks std h2 (n * block_size) (b * block_size) cnt ≡ panic))
                ⊎ (read_blocks std h2 (n * block_size) (b * block_size) cnt ≡ done (bs, h4))))
  read_blocks-write_blocks h h1 h2 h3 h4 bs bs' m n b cnt e sought put sought' got =
      elim (ℕ_discrete m (length bs)) [
        | no ne ↦ inl (
          omega (arith, (law.write h1 bs m h2 put).0, ne),
          write_short h h1 h2 bs m n b cnt sought put e ne,
        )
        | yes all ↦
            let put' : std.write h1 bs ≡ some (length bs, h2) = put ∙ ap (λ z. some (z, h2)) all in
            let written = written_bytes h h1 h2 bs b sought put' in
            inr (
              write_run h h1 h2 bs n b cnt sought put' e,
              λ i o.
                  ap (λ z. z i) written
                  ∙ patch_outside (law.content h) (b * block_size) bs i (outside i n b bs e o),
              back h h2 h3 h4 bs bs' n b cnt e written sought' got,
            )
      ]
