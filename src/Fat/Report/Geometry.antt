-- ===== src/Fat/Report/Geometry.antt =====
-- The numbers of `fatvol` and `fatout` (FATData.cpp) against those of the constructor.
use proj.Base.{[], ap, leb, length, none, ◌<◌, ◌∙◌, ◌∷◌, ◌≤◌}
use proj.Fat.Image.{words16}
use proj.Fat.Report.{fatout, volume_of}
use mathlib.Core.Option.{some-injective}
use proj.Base.{Bool-cases, List, false, inl, inr, refl, some, subst, sym, ◌/◌, ◌==◌}
use proj.Base.Words.{add32, mul32, sub32}
use proj.Fat.Image.{load_tables, new_fat_data, read_bpb}
use proj.Fat.Report.{fatvol}
use proj.Machine.Flight.{count}
use proj.Base.{arith, suc, zero, ℕ, ◌+◌, ◌≡◌}
use proj.Fat.Entries.{DirEntry}
use proj.Fat.Image.{FatData, add_root_entries, add_root_entry}

length-words16 : (bs : List ℕ) → length (words16 bs) ≤ length bs / 2
unfolding words16
length-words16 [] = omega arith
length-words16 (lo ∷ []) = omega arith
length-words16 (lo ∷ hi ∷ bs) = omega (arith, length-words16 bs)

-- The root directory's loop leaves the numbers of the parameter block alone.
abbrev pub SameGeometry : FatData → FatData → Type 0
SameGeometry f g =
    (f.sectors_per_cluster ≡ g.sectors_per_cluster)
    × (f.reserved_sector_count ≡ g.reserved_sector_count)
    × (f.root_entry_count ≡ g.root_entry_count)
    × (f.fat_sz16 ≡ g.fat_sz16)
    × (f.total_sectors32 ≡ g.total_sectors32)
    × (f.data_start ≡ g.data_start)
    × (f.num_clusters ≡ g.num_clusters)
    × (f.fat ≡ g.fat)
    × (f.bytes_per_sector ≡ g.bytes_per_sector)
    × (f.total_sectors16 ≡ g.total_sectors16)
    × (f.bpb ≡ g.bpb)

add_root_entry-SameGeometry :
    (blank : DirEntry) (f : FatData) (offset : ℕ) → SameGeometry (add_root_entry blank f offset) f
unfolding add_root_entry
add_root_entry-SameGeometry blank f offset = ground arith

add_root_entries-SameGeometry :
    (blank : DirEntry) (n offset : ℕ) (f : FatData)
    → SameGeometry (add_root_entries blank n offset f) f
unfolding add_root_entries
add_root_entries-SameGeometry blank zero offset f = ground arith
add_root_entries-SameGeometry blank (suc n) offset f = ground (
  arith,
  add_root_entry-SameGeometry blank f offset,
  add_root_entries-SameGeometry blank n (offset + 32) (add_root_entry blank f offset),
)

-- The place of the data, and the number of clusters, by the numbers of the parameter block.
abbrev IsLaidOut : FatData → Type 0
IsLaidOut f =
    let first_root = add32 f.reserved_sector_count (mul32 2 f.fat_sz16) in
    (f.data_start ≡ add32 first_root (mul32 f.root_entry_count 32 / 512))
    × (f.num_clusters ≡ sub32 f.total_sectors32 f.data_start / f.sectors_per_cluster)

SameGeometry-IsLaidOut : (f g : FatData) → SameGeometry f g → IsLaidOut g → IsLaidOut f
SameGeometry-IsLaidOut f g
      (spc, reserved, count, sz, total32, start, clusters, fat_, bps, total, bpb_) (d, n) =
    (cc (reserved, count, sz, start, d), cc (spc, total32, start, clusters, n))

-- What the constructor makes, where it makes anything.
module _ (read_at : ℕ → ℕ → List ℕ) (blank : DirEntry) (f : FatData) where
  abbrev pub loaded : FatData
  unfolding load_tables read_bpb
  loaded = load_tables read_at (read_bpb (read_at 0 62))

  pub made_lem :
      new_fat_data read_at blank ≡ some f
      → SameGeometry f loaded × ((f.sectors_per_cluster == 0) ≡ false)
  unfolding new_fat_data
  made_lem e = elim (Bool-cases (loaded.sectors_per_cluster == 0)) [
    | inl stop ↦ cc (rw (new_fat_data, stop) at e)
    | inr go ↦
        let same : add_root_entries blank loaded.root_entry_count 0 loaded ≡ f =
          some-injective _ _ (rw (new_fat_data, go) at e) in
        let kept =
          subst (λ g. SameGeometry g loaded) same
            (add_root_entries-SameGeometry blank loaded.root_entry_count 0 loaded) in
        (kept, rw kept.0 go)
  ]

  -- What fatvol prints is what it takes from the fields, which are those that were loaded.
  pub fatvol_made :
      new_fat_data read_at blank ≡ some f
      → (fatvol f ≡ some (volume_of f))
        × ((volume_of f).first_data_sector ≡ f.data_start)
        × ((volume_of f).cluster_count ≡ f.num_clusters)
  unfolding fatvol volume_of load_tables read_bpb
  fatvol_made e =
      let (same, go) = made_lem e in
      let (start, clusters) = SameGeometry-IsLaidOut f loaded same (refl, refl) in
      (
        rw (fatvol, go) refl,
        sym start,
        ap (λ d. sub32 f.total_sectors32 d / f.sectors_per_cluster) (sym start) ∙ sym clusters,
      )

  -- Where the constructor accepts an image of 512 bytes a sector with a FAT, and reading the file
  -- never gives more bytes than are asked for, fatout reads behind the entries of the FAT that
  -- were loaded.
  pub fatout-new_fat_data :
      new_fat_data read_at blank ≡ some f
      → f.bytes_per_sector ≡ 512
      → 0 < f.fat_sz16
      → f.fat_sz16 < 65536
      → ((o n : ℕ) → length (read_at o n) ≤ n)
      → fatout f ≡ none
  unfolding fatout load_tables read_bpb
  fatout-new_fat_data e sector some_ small exact =
      let same = (made_lem e).0 in
      let fat_size = mul32 (mul32 2 loaded.fat_sz16) loaded.bytes_per_sector / 2 in
      let fat_pos = mul32 loaded.bytes_per_sector loaded.reserved_sector_count in
      let entries : length f.fat ≡ length (words16 (read_at fat_pos fat_size)) = ap length same.7 in
      let read : length f.fat ≤ fat_size / 2 =
        omega (arith, entries, exact fat_pos fat_size, length-words16 (read_at fat_pos fat_size)) in
      let size : fat_size ≡ mul32 (mul32 2 f.fat_sz16) 512 / 2 =
        ap (λ z. mul32 (mul32 2 z) loaded.bytes_per_sector / 2) (sym same.3)
        ∙ ap (λ b. mul32 (mul32 2 f.fat_sz16) b / 2) (sym same.8 ∙ sector) in
      let out : leb (mul32 (mul32 2 f.fat_sz16) 512) (length f.fat) ≡ false =
        ground (arith, read, size, some_, small) in
      rw (fatout, out) (ground arith)
