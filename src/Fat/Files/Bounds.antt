-- ===== src/Fat/Files/Bounds.antt =====
-- How many bytes `readFromFile` (FATData.cpp) returns.
use proj.Base.{
  ℕ, zero, suc, ◌+◌, ◌-◌, ◌*◌, ◌≤◌, ◌<◌, List, [], ◌∷◌, ◌++◌, some, length, length-append,
  length-take-le, length-take_of_le, take, get_elem?, ◌≡◌, inl, inr, Bool-cases, Option-cases, ◌==◌,
  ltb, leb, arith, min,
}
use native.Mathlib.Nat.{mod-eq_of_lt}
use proj.Base.Words.{mul32, u32_mod}
use proj.Fat.Entries.{DirEntry}
use proj.Fat.Image.{FatData, get_cluster_size}
use proj.Fat.Files.{
  ReadResult, contents, failed, unset, endless, fat_chain_end, read_chain, find_entry, read_entry,
  read_from_file,
}
use proj.Fat.Files.Chains.{Chain, chain_bytes}
use proj.Fat.Files.Reading.{wanted, read_from_file-Chain}

abbrev pub IsBounded : ℕ → ReadResult → Type 0
IsBounded n (contents s) = length s ≤ n
IsBounded n failed = Unit {0}
IsBounded n unset = Unit {0}
IsBounded n endless = Unit {0}

IsBounded-le : (m n : ℕ) (r : ReadResult) → m ≤ n → IsBounded m r → IsBounded n r
IsBounded-le m n (contents s) h b = omega arith
IsBounded-le m n failed h b = tt
IsBounded-le m n unset h b = tt
IsBounded-le m n endless h b = tt

-- Where the product fits into 32 bits, it is not cut.
mul32_exact :
    (a b c len : ℕ) → a * b * c < u32_mod → len ≤ a * b * c → min (mul32 (mul32 a b) c) len ≡ len
mul32_exact a b zero len h k = omega (arith, h, k)
mul32_exact a b (suc c) len h k =
    let small : a * b < u32_mod = grind arith in
    let inner : mul32 a b ≡ a * b = mod-eq_of_lt small in
    rw inner (rw (mod-eq_of_lt h) (omega (arith, k)))

module _ (read_at : ℕ → ℕ → List ℕ) (f : FatData) where
  length-append-take : (ret xs : List ℕ) (n : ℕ) → length (ret ++ take n xs) ≤ length ret + n
  length-append-take ret xs n =
      omega (arith, length-append {0} ret (take n xs), length-take-le {0} n xs)

  read_chain-IsBounded :
      (size fuel len data_offset c : ℕ) (ret : List ℕ)
      → IsBounded (length ret + len) (read_chain read_at f size fuel len data_offset c ret)
  unfolding read_chain
  read_chain-IsBounded size zero len data_offset c ret = tt
  read_chain-IsBounded size (suc fuel) len data_offset c ret = elim (Bool-cases (ltb len size)) [
    | inl lt ↦ rw (lt, IsBounded) (length-append-take ret _ len)
    | inr ge ↦ elim (Option-cases (get_elem? f.fat c)) [
      | inl e ↦ rw (ge, e, IsBounded) tt
      | inr (n, e) ↦ elim (Bool-cases (n == 0)) [
        | inl z ↦ rw (ge, e, z, IsBounded) tt
        | inr nz ↦
            let full : size ≤ len = ground arith in
            elim (Bool-cases (leb fat_chain_end n)) [
              | inl fin ↦
                  rw (ge, e, nz, fin, IsBounded)
                    (omega (arith, full, length-append-take ret (read_at _ size) size))
              | inr more ↦
                  rw (ge, e, nz, more)
                    (IsBounded-le (length (ret ++ take size _) + (len - size)) (length ret + len) _
                      (omega (arith, full, length-append-take ret (read_at _ size) size))
                      (read_chain-IsBounded size fuel (len - size) (mul32 n size) n
                        (ret ++ take size _)))
            ]
      ]
    ]
  ]

  -- No read returns more bytes than were asked for.
  pub read_from_file-IsBounded :
      (name : List ℕ) (len : ℕ) → IsBounded len (read_from_file read_at f name len)
  unfolding read_from_file read_entry
  read_from_file-IsBounded name len = elim (Option-cases (find_entry name 0 f.root_ents)) [
    | inl e ↦ rw (e, read_from_file, IsBounded) tt
    | inr ((i, ent), e) ↦ elim (Option-cases (get_elem? f.file_starts i)) [
      | inl e₁ ↦ rw (e, read_from_file, e₁, read_entry, IsBounded) tt
      | inr (start, e₁) ↦
          rw (e, read_from_file, e₁, read_entry)
            (IsBounded-le (0 + wanted f ent len) len _ (omega arith)
              (read_chain-IsBounded (get_cluster_size f) _ (wanted f ent len) _ start []))
    ]
  ]

  module _ (whole : (o n : ℕ) → length (read_at o n) ≡ n) where
    length-chain_bytes :
        (size : ℕ) (cs : List ℕ) → length (chain_bytes read_at f size cs) ≡ size * length cs
    length-chain_bytes size [] = omega arith
    length-chain_bytes size (c ∷ cs) = omega (
      arith,
      length-append {0} (read_at _ size) (chain_bytes read_at f size cs),
      whole _ size,
      length-chain_bytes size cs,
    )

    -- Where a file's size times the bytes of a cluster does not wrap, more is asked for than the
    -- file's size and no more than that product, and its chain has that many bytes, all that was
    -- asked for is returned, so bytes behind the end of the file. Clusters are not empty and reads
    -- of the image are not short.
    pub read_from_file-overrun :
        (name : List ℕ) (len i start : ℕ) (ent : DirEntry) (cs : List ℕ)
        → 0 < get_cluster_size f
        → find_entry name 0 f.root_ents ≡ some (i, ent)
        → get_elem? f.file_starts i ≡ some start
        → Chain f.fat start cs
        → ent.d_size * f.bytes_per_sector * f.sectors_per_cluster < u32_mod
        → ent.d_size < len
        → len ≤ ent.d_size * f.bytes_per_sector * f.sectors_per_cluster
        → len ≤ get_cluster_size f * length cs
        → (s : List ℕ) × (read_from_file read_at f name len ≡ contents s)
          × (length s ≡ len)
          × (ent.d_size < length s)
    read_from_file-overrun name len i start ent cs pos found at_i ch narrow short within room =
        let all = chain_bytes read_at f (get_cluster_size f) cs in
        let exact : wanted f ent len ≡ len =
          mul32_exact ent.d_size f.bytes_per_sector f.sectors_per_cluster len narrow within in
        let long : length (take (wanted f ent len) all) ≡ len = rw exact (
          length-take_of_le len all
            (omega (arith, room, length-chain_bytes (get_cluster_size f) cs))) in
        (
          take (wanted f ent len) all,
          read_from_file-Chain read_at f whole name len i start ent cs pos found at_i ch,
          long,
          omega (arith, long, short),
        )
