-- ===== src/Tests/Entry.antt =====
-- Directory entries of src/entry.rs at concrete inputs.
use fat32_rs.Base.{ℕ, ◌+◌, ◌<◌, ◌≡◌, ◌≢◌, refl, arith, List, [], ◌∷◌, length}
use fat32_rs.Bytes.{patch}
use fat32_rs.Entry.{attr_archive}
use fat32_rs.Entry.Short.{ShortDirEntry, gen_check_sum, as_bytes, new_from_bytes}
use fat32_rs.Entry.Short.Fields.{IsEntry, gen_check_sum_lem}
use fat32_rs.Entry.Short.Codec.{new_from_bytes-as_bytes}

-- `HELLO.TXT`, in cluster 0x12345
abbrev hello : ShortDirEntry
hello = record {
  name = b'H' ∷ b'E' ∷ b'L' ∷ b'L' ∷ b'O' ∷ 32 ∷ 32 ∷ 32 ∷ [];
  extension = b'T' ∷ b'X' ∷ b'T' ∷ [];
  attr = attr_archive;
  nt_res = 0;
  crt_time_tenth = 0;
  crt_time = 0;
  crt_date = 0;
  lst_acc_date = 0;
  fst_clus_hi = 1;
  wrt_time = 0;
  wrt_date = 0;
  fst_clus_lo = 0x2345;
  file_size = 100;
}

hello-IsEntry : IsEntry hello
hello-IsEntry = omega arith

abbrev jello : ShortDirEntry
jello = record hello { name = b'J' ∷ b'E' ∷ b'L' ∷ b'L' ∷ b'O' ∷ 32 ∷ 32 ∷ 32 ∷ [] }

abbrev ello : List ℕ
ello = b'E' ∷ b'L' ∷ b'L' ∷ b'O' ∷ 32 ∷ 32 ∷ 32 ∷ b'T' ∷ b'X' ∷ b'T' ∷ []

gen_check_sum_example : (gen_check_sum hello < 256) × (gen_check_sum hello ≢ gen_check_sum jello)
gen_check_sum_example =
    gen_check_sum_lem hello jello [] ello b'H' b'J' refl refl (omega arith) (omega arith)
      (omega arith)

new_from_bytes-as_bytes_example :
    (length (as_bytes hello) ≡ 32)
    × (new_from_bytes (λ i. patch (λ _. 7) 64 (as_bytes hello) (64 + i)) ≡ hello)
new_from_bytes-as_bytes_example = new_from_bytes-as_bytes hello-IsEntry (λ _. 7) 64
