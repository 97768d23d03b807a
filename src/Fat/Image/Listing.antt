-- ===== src/Fat/Image/Listing.antt =====
-- Which root directory entries `FATData::addRootEntry` lists, and how the two vectors go together.
use proj.Base.{
  ℕ, zero, suc, ◌+◌, ◌%◌, List, [], ◌∷◌, ◌++◌, some, length, length-append, get_or, drop, ◌≡◌, ◌≢◌,
  refl, subst, ◌↔◌, true, Bool-cases, ◌==◌, arith, inl, inr,
}
use mathlib.Core.Option.{some-injective}
use proj.Fat.Bytes.{bytes_to_unsigned}
use proj.Fat.Entries.{DirEntry, fill_dir_ent}
use proj.Fat.Image.{
  FatData, is_listed, add_root_entry, add_root_entries, read_bpb, load_tables, new_fat_data,
}

-- The test of addRootEntry passes exactly the entries whose first byte is not 0 and that hold no
-- long name. The comparison with `char(0xE5)`, the mark of a deleted entry, never fails.
pub is_listed_iff :
    (ent : List ℕ) → (is_listed ent ≡ true) ↔ ((get_or ent 0 0 ≢ 0) × (get_or ent 11 0 % 16 ≢ 15))
unfolding is_listed
is_listed_iff ent = ground arith

-- A deleted entry, whose first byte is 0xE5, is added to the root entries unless it holds a long
-- name.
pub add_root_entry-deleted :
    (blank : DirEntry) (f : FatData) (offset : ℕ)
    → get_or (drop offset f.root) 0 0 ≡ 0xe5
    → get_or (drop offset f.root) 11 0 % 16 ≢ 15
    → (add_root_entry blank f offset).root_ents
      ≡ f.root_ents ++ (fill_dir_ent blank (drop offset f.root) ∷ [])
unfolding add_root_entry
add_root_entry-deleted blank f offset e n =
    let listed = (is_listed_iff (drop offset f.root)).1 ((λ z. absurd (omega (arith, e, z))), n) in
    rw listed

abbrev pub IsParallel : FatData → Type 0
IsParallel f = length f.root_ents ≡ length f.file_starts

add_root_entry-IsParallel :
    (blank : DirEntry) (f : FatData) (offset : ℕ)
    → IsParallel f
    → IsParallel (add_root_entry blank f offset)
unfolding add_root_entry
add_root_entry-IsParallel blank f offset h = elim (Bool-cases (is_listed (drop offset f.root))) [
  | inl e ↦ rw e (
      omega (
        arith,
        h,
        length-append {0} f.root_ents (fill_dir_ent blank (drop offset f.root) ∷ []),
        length-append {0} f.file_starts (bytes_to_unsigned (drop 26 (drop offset f.root)) 2 ∷ []),
      ))
  | inr e ↦ rw e h
]

pub add_root_entries-IsParallel :
    (blank : DirEntry) (n offset : ℕ) (f : FatData)
    → IsParallel f
    → IsParallel (add_root_entries blank n offset f)
unfolding add_root_entries
add_root_entries-IsParallel blank zero offset f h = h
add_root_entries-IsParallel blank (suc n) offset f h =
    add_root_entries-IsParallel blank n (offset + 32) (add_root_entry blank f offset)
      (add_root_entry-IsParallel blank f offset h)

module _ (read_at : ℕ → ℕ → List ℕ) (blank : DirEntry) where
  -- In an image that was loaded there are as many first clusters as root entries.
  pub new_fat_data-IsParallel : (f : FatData) → new_fat_data read_at blank ≡ some f → IsParallel f
  unfolding new_fat_data load_tables read_bpb
  new_fat_data-IsParallel f e =
      let g = load_tables read_at (read_bpb (read_at 0 62)) in
      elim (Bool-cases (g.sectors_per_cluster == 0)) [
        | inl z ↦ cc (rw z at e)
        | inr n ↦
            subst IsParallel (some-injective _ _ (rw n at e))
              (add_root_entries-IsParallel blank g.root_entry_count 0 g refl)
      ]
