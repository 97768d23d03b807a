-- ===== src/Fat/Files/Placement.antt =====
-- Where `readFromFile` (FATData.cpp) looks for a cluster, against the FAT layout (fatgen103.pdf), by
-- which the data region begins with cluster 2.
use native.Mathlib.Nat.{mod-eq_of_lt}
use proj.Base.{[]}
use proj.Base.{
  All, List, ap, arith, get_elem?, length, refl, some, take, ℕ, ◌*◌, ◌++◌, ◌+◌, ◌-◌, ◌<◌, ◌∙◌, ◌∷◌,
  ◌≡◌,
}
use proj.Base.Words.{add32, mul32, u32_mod}
use proj.Fat.Entries.{DirEntry}
use proj.Fat.Files.{contents, find_entry, read_from_file}
use proj.Fat.Files.Chains.{Chain, chain_bytes}
use proj.Fat.Files.Reading.{read_from_file-Chain, wanted}
use proj.Fat.Image.{FatData, get_cluster_size}

-- The first byte of a cluster.
abbrev pub cluster_start : FatData → (cluster_size n : ℕ) → ℕ
cluster_start f cluster_size n = f.data_start * f.bytes_per_sector + (n - 2) * cluster_size

-- Every place is within the range of an `unsigned int`.
abbrev pub IsNarrow : FatData → (cluster_size : ℕ) → List ℕ → Type 0
IsNarrow f cluster_size = All (λ c. f.data_start * f.bytes_per_sector + c * cluster_size < u32_mod)

module _ (read_at : ℕ → ℕ → List ℕ) (f : FatData) where
  -- What the layout stores in the clusters that are `late` behind those named.
  abbrev pub stored : (cluster_size late : ℕ) → List ℕ → List ℕ
  stored cluster_size late [] = []
  stored cluster_size late (c ∷ cs) =
      read_at (cluster_start f cluster_size (c + late)) cluster_size ++ stored cluster_size late cs

  chain_bytes-stored :
      (size : ℕ) (cs : List ℕ)
      → IsNarrow f size cs
      → chain_bytes read_at f size cs ≡ stored size 2 cs
  chain_bytes-stored size [] h = refl
  chain_bytes-stored size (c ∷ cs) h =
      let base : mul32 f.data_start f.bytes_per_sector ≡ f.data_start * f.bytes_per_sector =
        mod-eq_of_lt (omega (arith, h.0)) in
      let offset : mul32 c size ≡ c * size = mod-eq_of_lt (omega (arith, h.0)) in
      let back : c + 2 - 2 ≡ c = omega arith in
      let place : add32 (mul32 f.data_start f.bytes_per_sector) (mul32 c size)
          ≡ cluster_start f size (c + 2) =
        rw (base, offset, back) (mod-eq_of_lt h.0) in
      rw (place, chain_bytes-stored size cs h.1) refl

  module _ (whole : (o n : ℕ) → length (read_at o n) ≡ n) where
    -- Where reads of the image are whole, clusters are not empty and the places of the clusters of
    -- a chain lie within 32 bits, a file that is found, and whose first cluster begins the chain,
    -- is read as the first bytes of what the FAT layout stores two clusters behind each cluster of
    -- the chain: as many bytes as are wanted, or all.
    pub read_from_file-stored :
        (name : List ℕ) (len i start : ℕ) (ent : DirEntry) (cs : List ℕ)
        → 0 < get_cluster_size f
        → find_entry name 0 f.root_ents ≡ some (i, ent)
        → get_elem? f.file_starts i ≡ some start
        → Chain f.fat start cs
        → IsNarrow f (get_cluster_size f) cs
        → read_from_file read_at f name len
          ≡ contents (take (wanted f ent len) (stored (get_cluster_size f) 2 cs))
    read_from_file-stored name len i start ent cs pos found at_i ch narrow =
        read_from_file-Chain read_at f whole name len i start ent cs pos found at_i ch
        ∙ ap (λ s. contents (take (wanted f ent len) s))
            (chain_bytes-stored (get_cluster_size f) cs narrow)
