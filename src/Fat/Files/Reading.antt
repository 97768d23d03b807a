-- ===== src/Fat/Files/Reading.antt =====
-- `readFromFile` as a whole (FATData.cpp): it ends, returns no more than was asked for, and returns
-- the first bytes of the file's chain.
use proj.Base.{
  ℕ, zero, suc, ◌-◌, ◌*◌, ◌≤◌, ◌<◌, List, [], some, length, take, get_elem?, ◌≡◌, ◌≢◌, inl, inr,
  Bool-cases, Option-cases, ◌==◌, ltb, leb, arith, min,
}
use proj.Base.Words.{mul32}
use proj.Fat.Entries.{DirEntry}
use proj.Fat.Image.{FatData, get_cluster_size}
use proj.Fat.Files.{
  contents, endless, fat_chain_end, read_chain, chain_fuel, find_entry, read_entry, read_from_file,
}
use proj.Fat.Files.Chains.{Chain, chain_bytes, read_chain-Chain}

chain_fuel_enough : (len size : ℕ) → 0 < size → len < chain_fuel len size * size
chain_fuel_enough len size pos = grind arith

-- The bytes asked for: at most the length, and at most what the entry's size comes to.
abbrev pub wanted : FatData → DirEntry → ℕ → ℕ
wanted f e len = min (mul32 (mul32 e.d_size f.bytes_per_sector) f.sectors_per_cluster) len

module _ (read_at : ℕ → ℕ → List ℕ) (f : FatData) where
  read_chain-ne-endless :
      (size fuel len data_offset c : ℕ) (ret : List ℕ)
      → 0 < size
      → len < fuel * size
      → read_chain read_at f size fuel len data_offset c ret ≢ endless
  unfolding read_chain
  read_chain-ne-endless size zero len data_offset c ret pos enough = absurd (omega (arith, enough))
  read_chain-ne-endless size (suc fuel) len data_offset c ret pos enough =
      elim (Bool-cases (ltb len size)) [
        | inl lt ↦ rw lt (λ h. cc)
        | inr ge ↦ elim (Option-cases (get_elem? f.fat c)) [
          | inl e ↦ rw (ge, e) (λ h. cc)
          | inr (n, e) ↦ elim (Bool-cases (n == 0)) [
            | inl z ↦ rw (ge, e, z) (λ h. cc)
            | inr nz ↦ elim (Bool-cases (leb fat_chain_end n)) [
              | inl fin ↦ rw (ge, e, nz, fin) (λ h. cc)
              | inr more ↦
                  let full : size ≤ len = ground arith in
                  rw (ge, e, nz, more)
                    (read_chain-ne-endless size fuel (len - size) (mul32 n size) n _ pos
                      (omega (arith, enough, full)))
            ]
          ]
        ]
      ]

  -- Unless the clusters are empty the fuel is enough: reading ends on every image, also where the
  -- table leads in a circle.
  pub read_from_file-ne-endless :
      (name : List ℕ) (len : ℕ)
      → 0 < get_cluster_size f
      → read_from_file read_at f name len ≢ endless
  unfolding read_from_file read_entry
  read_from_file-ne-endless name len pos = elim (Option-cases (find_entry name 0 f.root_ents)) [
    | inl e ↦ rw (e, read_from_file) (λ h. cc)
    | inr ((i, ent), e) ↦ elim (Option-cases (get_elem? f.file_starts i)) [
      | inl e₁ ↦ rw (e, read_from_file, e₁, read_entry) (λ h. cc)
      | inr (start, e₁) ↦
          rw (e, read_from_file, e₁, read_entry)
            (read_chain-ne-endless (get_cluster_size f) _ (wanted f ent len) _ start [] pos
              (chain_fuel_enough (wanted f ent len) (get_cluster_size f) pos))
    ]
  ]

  module _ (whole : (o n : ℕ) → length (read_at o n) ≡ n) where
    -- Where reads of the image deliver as many bytes as are asked for and clusters are not empty, a
    -- file that is found, and whose first cluster begins a chain, is read as the first bytes of what
    -- the program takes for the clusters of the chain (Fat/Files/Placement compares their places with
    -- the layout's): as many as are wanted, or all.
    pub read_from_file-Chain :
        (name : List ℕ) (len i start : ℕ) (ent : DirEntry) (cs : List ℕ)
        → 0 < get_cluster_size f
        → find_entry name 0 f.root_ents ≡ some (i, ent)
        → get_elem? f.file_starts i ≡ some start
        → Chain f.fat start cs
        → read_from_file read_at f name len
          ≡ contents (take (wanted f ent len) (chain_bytes read_at f (get_cluster_size f) cs))
    unfolding read_from_file read_entry
    read_from_file-Chain name len i start ent cs pos found at_i ch =
        rw (found, read_from_file, at_i, read_entry)
          (read_chain-Chain read_at f (get_cluster_size f) whole _ (wanted f ent len) start cs []
            pos (chain_fuel_enough (wanted f ent len) (get_cluster_size f) pos) ch)
