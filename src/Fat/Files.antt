-- ===== src/Fat/Files.antt =====
-- `FATData::readFromFile`. `read_at` is the image file, as in `Image`.
pub mod Chains
pub mod Reading
pub mod Bounds
pub mod Placement
use proj.Base.Strings.{c_string, string_eq}
use proj.Base.{
  ℕ, zero, suc, ◌+◌, ◌-◌, ◌/◌, Bool, true, false, ◌&&◌, List, [], ◌∷◌, ◌++◌, Option, none, some,
  ◌==◌, leb, ltb, min, if◌then◌else◌, get_elem?, take,
}
use proj.Base.Words.{add32, mul32}
use proj.Fat.Entries.{DirEntry}
use proj.Fat.Image.{FatData, get_cluster_size}

-- `failed` is the result false, `contents` true with the bytes that `*ret` is given. `unset` stands
-- for a read of a vector or array where nothing was stored, `endless` for fuel that ran out.
pub data ReadResult : Type 0 where
  contents : List ℕ → ReadResult
  failed unset endless : ReadResult

-- The search of the root entries: position and entry of the first one with the name.
unfoldable pub find_entry : List ℕ → (i : ℕ) → List DirEntry → Option (ℕ × DirEntry)
unfolding c_string string_eq
find_entry name i [] = none
find_entry name i (e ∷ es) =
    let rest = find_entry name (i + 1) es in
    if string_eq name (c_string e.d_short_file_name) then some (i, e) else rest

abbrev pub fat_chain_end : ℕ
fat_chain_end = 0xfff8

module _ (read_at : ℕ → ℕ → List ℕ) (f : FatData) (cluster_size : ℕ) where
  -- The `while (true)` loop.
  unfoldable pub read_chain : (fuel lenleft data_offset fat_offset : ℕ) → List ℕ → ReadResult
  read_chain zero lenleft data_offset fat_offset ret = endless
  read_chain (suc fuel) lenleft data_offset fat_offset ret =
      let cluster =
        read_at (add32 (mul32 f.data_start f.bytes_per_sector) data_offset) cluster_size in
      if ltb lenleft cluster_size
      then contents (ret ++ take lenleft cluster)
      else elim (get_elem? f.fat fat_offset) [
        | none ↦ unset
        | some next ↦
            let whole = ret ++ take cluster_size cluster in
            let rest =
              read_chain fuel (lenleft - cluster_size) (mul32 next cluster_size) next whole in
            if next == 0 then failed else if leb fat_chain_end next then contents whole else rest
      ]

-- The loop takes a round for each whole cluster of `lenleft` at most, so this is fuel enough
-- unless the clusters are empty.
abbrev pub chain_fuel : (lenleft cluster_size : ℕ) → ℕ
chain_fuel lenleft cluster_size = suc (lenleft / cluster_size)

unfoldable pub read_entry : (ℕ → ℕ → List ℕ) → FatData → (length_ : ℕ) → ℕ × DirEntry → ReadResult
read_entry read_at f length_ (i, e) = elim (get_elem? f.file_starts i) [
  | none ↦ unset
  | some start ↦
      let size = get_cluster_size f in
      let lenleft = min (mul32 (mul32 e.d_size f.bytes_per_sector) f.sectors_per_cluster) length_ in
      read_chain read_at f size (chain_fuel lenleft size) lenleft (mul32 start size) start []
]

unfoldable pub read_from_file :
    (ℕ → ℕ → List ℕ) → FatData → (f_name : List ℕ) (length_ : ℕ) → ReadResult
unfolding find_entry read_entry
read_from_file read_at f f_name length_ = elim (find_entry f_name 0 f.root_ents) [
  | none ↦ failed
  | some found ↦ read_entry read_at f length_ found
]
