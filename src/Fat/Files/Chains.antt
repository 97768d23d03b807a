-- ===== src/Fat/Files/Chains.antt =====
-- `readFromFile` (FATData.cpp) against the chain of clusters that the table describes.
use proj.Base.{
  ℕ, zero, suc, ◌-◌, ◌*◌, ◌≤◌, ◌<◌, List, [], ◌∷◌, ◌++◌, some, length, take, take_all,
  take-append_lt, take-append_ge, get_elem?, ◌≡◌, sym, ap, subst, ◌∙◌, inl, inr, true, false,
  Bool-cases, ◌==◌, ltb, leb, ltb→lt, arith,
}
use mathlib.Core.List.{append-nil, append_assoc}
use proj.Base.Words.{add32, mul32}
use proj.Fat.Image.{FatData}
use proj.Fat.Files.{contents, fat_chain_end, read_chain}

-- The clusters of a file from one on: the table leads from each to the next, and ends the last.
pub data Chain (fat : List ℕ) : ℕ → List ℕ → Type 0 where
  last : (c e : ℕ) → get_elem? fat c ≡ some e → fat_chain_end ≤ e → Chain fat c (c ∷ [])
  link :
      (c n : ℕ) (cs : List ℕ)
      → get_elem? fat c ≡ some n
      → 0 < n
      → n < fat_chain_end
      → Chain fat n cs
      → Chain fat c (c ∷ cs)

module _ (read_at : ℕ → ℕ → List ℕ) (f : FatData) (cluster_size : ℕ) where
  -- The bytes that the program reads for a cluster.
  abbrev pub cluster_bytes : ℕ → List ℕ
  cluster_bytes c =
      read_at (add32 (mul32 f.data_start f.bytes_per_sector) (mul32 c cluster_size)) cluster_size

  abbrev pub chain_bytes : List ℕ → List ℕ
  chain_bytes [] = []
  chain_bytes (c ∷ cs) = cluster_bytes c ++ chain_bytes cs

  module _ (whole : (o n : ℕ) → length (read_at o n) ≡ n) where
    take-cluster : (c : ℕ) → take cluster_size (cluster_bytes c) ≡ cluster_bytes c
    take-cluster c = take_all cluster_size (cluster_bytes c) (omega (arith, whole _ cluster_size))

    take-chain_lt :
        (len c : ℕ) (cs : List ℕ)
        → len < cluster_size
        → take len (cluster_bytes c ++ chain_bytes cs) ≡ take len (cluster_bytes c)
    take-chain_lt len c cs h = take-append_lt len (cluster_bytes c) (chain_bytes cs) (
        omega (
          arith,
          whole (add32 (mul32 f.data_start f.bytes_per_sector) (mul32 c cluster_size)) cluster_size,
        ))

    take-chain_ge :
        (len c : ℕ) (cs : List ℕ)
        → cluster_size ≤ len
        → take len (cluster_bytes c ++ chain_bytes cs)
          ≡ cluster_bytes c ++ take (len - cluster_size) (chain_bytes cs)
    take-chain_ge len c cs h =
        let l =
          whole (add32 (mul32 f.data_start f.bytes_per_sector) (mul32 c cluster_size))
            cluster_size in
        subst
          (λ n.
            take len (cluster_bytes c ++ chain_bytes cs)
            ≡ cluster_bytes c ++ take (len - n) (chain_bytes cs))
          l (take-append_ge len (cluster_bytes c) (chain_bytes cs) (omega (arith, l)))

    -- Along a chain the loop collects the first `len` bytes of its clusters.
    pub read_chain-Chain :
        (fuel len c : ℕ) (cs : List ℕ) (ret : List ℕ)
        → 0 < cluster_size
        → len < fuel * cluster_size
        → Chain f.fat c cs
        → read_chain read_at f cluster_size fuel len (mul32 c cluster_size) c ret
          ≡ contents (ret ++ take len (chain_bytes cs))
    unfolding read_chain
    read_chain-Chain zero len c cs ret pos enough ch = absurd (omega (arith, enough))
    read_chain-Chain (suc fuel) len _ _ ret pos enough (last c e at_c fin) =
        let zero_no : (e == 0) ≡ false = ground arith in
        let end_yes : leb fat_chain_end e ≡ true = ground arith in
        elim (Bool-cases (ltb len cluster_size)) [
          | inl lt ↦
              rw lt (ap (λ l. contents (ret ++ l)) (sym (take-chain_lt len c [] (ltb→lt _ _ lt))))
          | inr ge ↦
              rw (ge, at_c, zero_no, end_yes, take-chain_ge len c [] (ground arith), take-cluster c)
                (ap (λ l. contents (ret ++ l))
                  (sym (ap (◌++◌ (cluster_bytes c)) (take_all _ [] (omega arith)) ∙ append-nil _)))
        ]
    read_chain-Chain (suc fuel) len _ _ ret pos enough (link c n cs at_c nz more ch) =
        let zero_no : (n == 0) ≡ false = ground arith in
        let end_no : leb fat_chain_end n ≡ false = ground arith in
        elim (Bool-cases (ltb len cluster_size)) [
          | inl lt ↦
              rw lt (ap (λ l. contents (ret ++ l)) (sym (take-chain_lt len c cs (ltb→lt _ _ lt))))
          | inr ge ↦
              let full : cluster_size ≤ len = ground arith in
              rw (ge, at_c, zero_no, end_no, take-chain_ge len c cs full, take-cluster c)
                (read_chain-Chain fuel (len - cluster_size) n cs (ret ++ cluster_bytes c) pos
                    (omega (arith, enough, full)) ch
                  ∙ ap contents (
                      append_assoc ret (cluster_bytes c)
                        (take (len - cluster_size) (chain_bytes cs))))
        ]
