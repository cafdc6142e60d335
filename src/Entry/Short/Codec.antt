-- ===== src/Entry/Short/Codec.antt =====
-- src/entry.rs: a short entry and its 32 bytes.
use fat32_rs.Base.{
  ℕ, zero, suc, ◌+◌, ◌*◌, ◌<◌, ◌≡◌, refl, arith, ap, ◌∙◌, List, [], ◌∷◌, ◌++◌, length, get_or,
  length-append,
}
use fat32_rs.Bytes.{
  Bytes, of_list, slice, read_le_u16, read_le_u32, le_u16, le_u32, slice_ext, patch, patch_inside,
}
use fat32_rs.Entry.Short.{ShortDirEntry, as_bytes, new_from_bytes}
use fat32_rs.Entry.Short.Fields.{IsEntry}

-- Behind a prefix of known length the bytes of the rest begin.
of_list-append :
    (xs ys : List ℕ) (n i : ℕ) → length xs ≡ n → of_list (xs ++ ys) (n + i) ≡ of_list ys i
of_list-append [] ys n i h = let e : n + i ≡ i = omega arith in rw e
of_list-append (x ∷ xs) ys zero i h = absurd (omega arith)
of_list-append (x ∷ xs) ys (suc n) i h =
    let e : suc n + i ≡ suc (n + i) = omega arith in rw e (of_list-append xs ys n i (omega arith))

slice-suc :
    (x : ℕ) (xs : List ℕ) (o n : ℕ) → slice (of_list (x ∷ xs)) (suc o) n ≡ slice (of_list xs) o n
unfolding slice
slice-suc x xs o zero = refl
slice-suc x xs o (suc n) =
    let e : suc o + 1 ≡ suc (o + 1) = omega arith in
    rw e (ap (λ zs. get_or xs o 0 ∷ zs) (slice-suc x xs (o + 1) n))

-- The slice of a list between two others.
slice-append :
    (xs ys zs : List ℕ) (o n : ℕ)
    → length xs ≡ o
    → length ys ≡ n
    → slice (of_list (xs ++ (ys ++ zs))) o n ≡ ys
unfolding slice
slice-append [] [] zs zero zero h k = refl
slice-append [] [] zs zero (suc n) h k = absurd (omega arith)
slice-append [] [] zs (suc o) n h k = absurd (omega arith)
slice-append [] (y ∷ ys) zs zero zero h k = absurd (omega arith)
slice-append [] (y ∷ ys) zs zero (suc n) h k =
    ap (λ r. y ∷ r) (slice-suc y (ys ++ zs) 0 n ∙ slice-append [] ys zs 0 n refl (omega arith))
slice-append [] (y ∷ ys) zs (suc o) n h k = absurd (omega arith)
slice-append (x ∷ xs) ys zs zero n h k = absurd (omega arith)
slice-append (x ∷ xs) ys zs (suc o) n h k =
    slice-suc x (xs ++ (ys ++ zs)) o n ∙ slice-append xs ys zs o n (omega arith) k

-- The bytes behind the name and the extension.
abbrev rest : ShortDirEntry → List ℕ
rest e =
    e.attr
    ∷ e.nt_res
    ∷ e.crt_time_tenth
    ∷ (le_u16 e.crt_time
        ++ le_u16 e.crt_date
        ++ le_u16 e.lst_acc_date
        ++ le_u16 e.fst_clus_hi
        ++ le_u16 e.wrt_time
        ++ le_u16 e.wrt_date
        ++ le_u16 e.fst_clus_lo
        ++ le_u32 e.file_size)

module _ {e : ShortDirEntry} (v : IsEntry e) where
  -- Bytes that agree with those of an entry are read as the entry.
  pub new_from_bytes_eq :
      (b : Bytes)
      → slice b 0 8 ≡ e.name
      → slice b 8 3 ≡ e.extension
      → ((i : ℕ) → i < 21 → b (8 + (3 + i)) ≡ of_list (rest e) i)
      → new_from_bytes b ≡ e
  unfolding new_from_bytes read_le_u16 read_le_u32
  new_from_bytes_eq b n x h = λ i. record {
    name = n i;
    extension = x i;
    attr = h 0 (omega arith) i;
    nt_res = h 1 (omega arith) i;
    crt_time_tenth = h 2 (omega arith) i;
    crt_time = crt_time i;
    crt_date = crt_date i;
    lst_acc_date = lst_acc_date i;
    fst_clus_hi = fst_clus_hi i;
    wrt_time = wrt_time i;
    wrt_date = wrt_date i;
    fst_clus_lo = fst_clus_lo i;
    file_size = file_size i;
  }
    where
      crt_time : b 14 + 256 * b 15 ≡ e.crt_time
      crt_time = omega (arith, h 3 (omega arith), h 4 (omega arith), v.crt_time)

      crt_date : b 16 + 256 * b 17 ≡ e.crt_date
      crt_date = omega (arith, h 5 (omega arith), h 6 (omega arith), v.crt_date)

      lst_acc_date : b 18 + 256 * b 19 ≡ e.lst_acc_date
      lst_acc_date = omega (arith, h 7 (omega arith), h 8 (omega arith), v.lst_acc_date)

      fst_clus_hi : b 20 + 256 * b 21 ≡ e.fst_clus_hi
      fst_clus_hi = omega (arith, h 9 (omega arith), h 10 (omega arith), v.fst_clus_hi)

      wrt_time : b 22 + 256 * b 23 ≡ e.wrt_time
      wrt_time = omega (arith, h 11 (omega arith), h 12 (omega arith), v.wrt_time)

      wrt_date : b 24 + 256 * b 25 ≡ e.wrt_date
      wrt_date = omega (arith, h 13 (omega arith), h 14 (omega arith), v.wrt_date)

      fst_clus_lo : b 26 + 256 * b 27 ≡ e.fst_clus_lo
      fst_clus_lo = omega (arith, h 15 (omega arith), h 16 (omega arith), v.fst_clus_lo)

      file_size : b 28 + 256 * b 29 + 65536 * b 30 + 16777216 * b 31 ≡ e.file_size
      file_size = omega (
        arith,
        h 17 (omega arith),
        h 18 (omega arith),
        h 19 (omega arith),
        h 20 (omega arith),
        v.file_size,
      )

  byte : (i : ℕ) → of_list (as_bytes e) (8 + (3 + i)) ≡ of_list (rest e) i
  unfolding as_bytes
  byte i =
      of_list-append e.name (e.extension ++ rest e) 8 (3 + i) v.name
      ∙ of_list-append e.extension (rest e) 3 i v.extension

  name_slice : slice (of_list (as_bytes e)) 0 8 ≡ e.name
  unfolding as_bytes
  name_slice = slice-append [] e.name (e.extension ++ rest e) 0 8 refl v.name

  extension_slice : slice (of_list (as_bytes e)) 8 3 ≡ e.extension
  unfolding as_bytes
  extension_slice = slice-append e.name e.extension (rest e) 8 3 v.name v.extension

  pub length-as_bytes : length (as_bytes e) ≡ 32
  unfolding as_bytes
  length-as_bytes = omega (
    arith,
    length-append e.name (e.extension ++ rest e),
    length-append e.extension (rest e),
    v.name,
    v.extension,
  )

  -- The 32 bytes of an entry, stored at an offset of a block and read there through a pointer, are
  -- the entry.
  pub new_from_bytes-as_bytes :
      (b : Bytes) (o : ℕ)
      → (length (as_bytes e) ≡ 32) × (new_from_bytes (λ i. patch b o (as_bytes e) (o + i)) ≡ e)
  new_from_bytes-as_bytes b o = (
    length-as_bytes,
    new_from_bytes_eq (λ i. patch b o (as_bytes e) (o + i))
        (slice_ext _ (of_list (as_bytes e)) 0 8 (λ i p q. stored i (omega arith)) ∙ name_slice)
        (slice_ext _ (of_list (as_bytes e)) 8 3 (λ i p q. stored i (omega arith)) ∙ extension_slice)
        λ i p. stored (8 + (3 + i)) (omega arith) ∙ byte i,
  )
    where
      stored : (i : ℕ) → i < 32 → patch b o (as_bytes e) (o + i) ≡ of_list (as_bytes e) i
      stored i h = patch_inside b o (as_bytes e) i (omega (arith, length-as_bytes))
