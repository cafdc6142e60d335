-- ===== src/Vfs/Grow/Run.antt =====
-- src/vfs.rs: the run of `incerase_size`, and the new size in the entry.
use fat32_rs.Base.{
  ◌∷◌, ◌++◌, length, ◌⊎◌, inl, inr, ◌-◌, ◌+◌, ◌∙◌, ℕ, suc, ◌*◌, ◌^◌, ◌%◌, ◌≤◌, ◌<◌, ◌≡◌, [], ◌≢◌,
  refl, arith, ne→==, lt→leb, sym, List, some, done,
}
use native.Mathlib.Decide.{dec_lt}
use fat32_rs.Bytes.{Bytes, patch, patch_inside, patch_outside, IsBytes, patch_bytes}
use mathlib.Core.Path.{subst}
use fat32_rs.Bpb.Geometry.{data_start}
use fat32_rs.Entry.{file}
use fat32_rs.Entry.Short as Short
use fat32_rs.Fs.{FileSystem, alloc_cluster, count_needed_clusters}
use fat32_rs.Vfs.{VirtFile, is_dir, sde_pos, first_cluster, file_size, set_file_size}
use fat32_rs.Vfs.Chain.{incerase_size, grow, attach, resize, extend_chain}
use fat32_rs.Vfs.Io.Stored.{IsStored}
use fat32_rs.File.Write.{sized, sized-IsOpen}
use fat32_rs.Vfs.Grow.Lists.{as_bytes-All}
use fat32_rs.Disk.{store_self}
use fat32_rs.Vfs.Fields.{entry_of, entry_of-IsEntry, set_file_size-IsEntry}

pub incerase_size_run :
    (fs fs1 fs2 fs3 : FileSystem) (self : VirtFile) (fuel new_size c size n start : ℕ)
    → first_cluster fs self ≡ done c
    → file_size fs self ≡ done size
    → size < new_size
    → count_needed_clusters fuel fs new_size c ≡ done (suc n)
    → alloc_cluster fuel fs (suc n) c ≡ done (some start, fs1)
    → c ≢ 0
    → extend_chain fs1 self fuel c start ≡ done (fs2, self)
    → resize fs2 self new_size ≡ done fs3
    → incerase_size fs self fuel new_size ≡ done (fs3, self)
unfolding incerase_size grow attach
incerase_size_run fs fs1 fs2 fs3 self fuel new_size c size n start e e' l e'' a ne x r =
    rw
      (
        e,
        e',
        lt→leb new_size size l,
        e'',
        ne→== (suc n) 0 (λ z. absurd (omega (arith, z))),
        a,
        ne→== c 0 ne,
        x,
        r,
      )
      refl

pub resize-file :
    (fs : FileSystem) (self : VirtFile) (new_size : ℕ)
    → self.attr ≡ file
    → resize fs self new_size ≡ set_file_size fs self new_size
unfolding resize set_file_size is_dir
resize-file fs self new_size e = rw e refl

pub done-inj : {x y : ℕ} → done x ≡ done y → x ≡ y
done-inj e = cc

pub capacity_more : (a b t size : ℕ) → t ≡ a + b → a * size ≤ t * size
capacity_more a b t size e = rw e (grind arith)

-- A file with another size is stored as before.
pub sized_IsStored :
    (fs : FileSystem) (self : VirtFile) (c : ℕ) (cs : List ℕ) (block pos : ℕ)
    (s : IsStored fs self c cs block pos) (low : data_start fs.bpb ≤ block) (n : ℕ)
    → IsStored (sized fs self c cs block pos s low n) self c cs block pos
unfolding sde_pos
sized_IsStored fs self c cs block pos s low n =
    let e = Short.set_file_size (entry_of fs self block pos s.entry) (n % 2 ^ 32) in
    let v =
      set_file_size-IsEntry (entry_of fs self block pos s.entry) (n % 2 ^ 32)
        (entry_of-IsEntry fs self block pos s.entry) (omega arith) in
    record {
      opened = sized-IsOpen fs self c cs block pos s low n;
      in_table = s.in_table;
      distinct = s.distinct;
      entry = record {
        not_root = s.entry.not_root;
        position = s.entry.position;
        inside = s.entry.inside;
        bytes =
            subst IsBytes (sym (store_self fs.disk block _))
              (patch_bytes (fs.disk block) pos (Short.as_bytes e) s.entry.bytes (as_bytes-All e v));
      };
      apart = s.apart;
    }

pub incerase_size-slack :
    (fs fs' : FileSystem) (self : VirtFile) (fuel new_size c size : ℕ)
    → first_cluster fs self ≡ done c
    → file_size fs self ≡ done size
    → size < new_size
    → count_needed_clusters fuel fs new_size c ≡ done 0
    → resize fs self new_size ≡ done fs'
    → incerase_size fs self fuel new_size ≡ done (fs', self)
unfolding incerase_size
incerase_size-slack fs fs' self fuel new_size c size e e' l e'' r =
    rw (e, e', lt→leb new_size size l, e'', r) refl

pub append_nil : (xs : List ℕ) → xs ++ [] ≡ xs
append_nil [] = refl
append_nil (x ∷ xs) = rw (append_nil xs) refl

-- A patch of two files that agree beside it.
pub patch_agree :
    (f g : Bytes) (place i : ℕ) (buf : List ℕ)
    → ((i < place) ⊎ (place + length buf ≤ i) → f i ≡ g i)
    → patch f place buf i ≡ patch g place buf i
patch_agree f g place i buf h = elim (dec_lt i place) [
  | yes l ↦
      patch_outside f place buf i (inl l) ∙ h (inl l) ∙ sym (patch_outside g place buf i (inl l))
  | no n ↦ elim (dec_lt i (place + length buf)) [
    | yes l ↦
        let e : place + (i - place) ≡ i = omega arith in
        subst (λ z. patch f place buf z ≡ patch g place buf z) e
          (patch_inside f place buf (i - place) (omega arith)
            ∙ sym (patch_inside g place buf (i - place) (omega arith)))
    | no m ↦
        let o : (i < place) ⊎ (place + length buf ≤ i) = inr (omega arith) in
        patch_outside f place buf i o ∙ h o ∙ sym (patch_outside g place buf i o)
  ]
]
