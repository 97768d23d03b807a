-- ===== src/Memory/Alloc.antt =====
-- MPCB.cpp, method by method: what `allocate`, `deallocate`, `fullyFree` and `countFree` do to a
-- valid pool.
use proj.Base.{ℕ, ◌+◌, ◌≤◌, ◌<◌, ◌≡◌, ◌⊎◌, inl, inr, refl, List, [], ◌∷◌, arith}
use proj.Base.Words.{null, u32_mod, u64_mod, ptr_diff_le}
use proj.Memory.{MemBlock, Mpcb, place, place_first, allocate, deallocate}
use proj.Memory.Fit.{Fits, IsGap, place-Fits, place-IsGap, place-null, erase_block-Fits}
use proj.Memory.{is_empty}
use proj.Memory.{num_allocated}
use proj.Base.{◌≢◌}
use proj.Memory.{fully_free}
use proj.Memory.{count_free}
use proj.Base.{true}
use proj.Memory.Fit.{place_first_fit}
use proj.Base.Words.{add32}
use proj.Base.{◌↔◌}
use proj.Memory.Fit.{erase_block-place}
use proj.Memory.{mem_block}

-- A pool lies at an address other than NULL, within the address space, and holds fewer than
-- 2 ^ 32 bytes; its blocks are in order, apart, not empty and inside the pool.
pub record IsValid (p : Mpcb) : Type 0 where
  pub nonnull : 0 < p.start
  pub addressable : p.start + p.size ≤ u64_mod
  pub narrow : p.size < u32_mod
  pub fits : Fits p.start (p.start + p.size) p.allocated

abbrev pub IsGapOf : Mpcb → ℕ → ℕ → Type 0
IsGapOf p a n = IsGap p.start (p.start + p.size) a n p.allocated

place_first-place :
    (start size n : ℕ) (bs : List MemBlock)
    → size < u32_mod
    → place_first start size n bs ≡ place start (start + size) n bs
unfolding place_first place
place_first-place start size n [] narrow = ground (arith, ptr_diff_le (start + size) start)
place_first-place start size n (b ∷ bs) narrow = refl

allocate-place :
    (p : Mpcb) (n : ℕ)
    → IsValid p
    → allocate p n ≡ (
      (place p.start (p.start + p.size) n p.allocated).0,
      record p { allocated = (place p.start (p.start + p.size) n p.allocated).1 },
    )
unfolding allocate
allocate-place p n v = rw (place_first-place p.start p.size n p.allocated v.narrow)

-- A pool that is valid before a positive number of bytes is asked for is valid afterwards, whether
-- the succeeds or not.
pub allocate-IsValid : (p : Mpcb) (n : ℕ) → 0 < n → IsValid p → IsValid (allocate p n).1
allocate-IsValid p n pos v =
    rw (allocate-place p n v)
      (ground (arith, v.fits, place-Fits p.start (p.start + p.size) n p.allocated))

-- A pool that is valid before an address is given back is valid afterwards, whether a block began
-- there or not.
pub deallocate-IsValid : (p : Mpcb) (strt : ℕ) → IsValid p → IsValid (deallocate p strt).1
unfolding deallocate
deallocate-IsValid p strt v =
    ground (arith, erase_block-Fits strt p.start (p.start + p.size) p.allocated)

-- In a valid pool, either nothing is handed out and nothing changes, or the bytes handed out lie
-- in the pool and were in no block.
pub allocate_gap :
    (p : Mpcb) (n : ℕ) → IsValid p → (allocate p n ≡ (null, p)) ⊎ (IsGapOf p (allocate p n).0 n)
allocate_gap p n v =
    rw (allocate-place p n v)
      (elim (place-IsGap p.start (p.start + p.size) n p.allocated v.addressable (omega arith)
        v.fits) [
          | inl e ↦ inl (ground (arith, e, place-null p.start (p.start + p.size) n p.allocated))
          | inr g ↦ inr g
        ])

-- First fit: where a positive number of bytes is free somewhere in a valid pool the call succeeds,
-- at an address no higher than that.
pub allocate_first_fit :
    (p : Mpcb) (n a : ℕ)
    → 0 < n
    → IsValid p
    → IsGapOf p a n
    → ((allocate p n).0 ≢ null) × ((allocate p n).0 ≤ a)
allocate_first_fit p n a pos v g = rw (allocate-place p n v) (
    ground (
      arith,
      v.fits,
      place_first_fit p.start (p.start + p.size) n a p.allocated v.nonnull pos v.addressable,
    ))

-- In a valid pool, giving back what a successful request for a positive number of bytes just
-- handed out restores the pool.
pub deallocate-allocate :
    (p : Mpcb) (n : ℕ)
    → 0 < n
    → IsValid p
    → (allocate p n).0 ≢ null
    → deallocate (allocate p n).1 (allocate p n).0 ≡ (true, p)
unfolding deallocate
deallocate-allocate p n pos v = rw (allocate-place p n v) λ ok. ground (
  arith,
  v.fits,
  erase_block-place p.start (p.start + p.size) n p.allocated pos v.addressable (omega arith) v.fits
      ok,
)

-- The bytes in blocks.
abbrev pub total : List MemBlock → ℕ
total [] = 0
total (b ∷ bs) = b.size + total bs

total-le : (lo hi : ℕ) (bs : List MemBlock) → Fits lo hi bs → lo + total bs ≤ hi
total-le lo hi [] f = omega arith
total-le lo hi (b ∷ bs) f = omega (arith, total-le (b.start + b.size) hi bs f.2)

num_allocated_lem :
    (acc : ℕ) (bs : List MemBlock)
    → acc + total bs < u32_mod
    → num_allocated acc bs ≡ acc + total bs
unfolding num_allocated
num_allocated_lem acc [] h = omega arith
num_allocated_lem acc (b ∷ bs) h =
    omega (arith, num_allocated_lem (add32 acc b.size) bs (omega arith))

-- In a valid pool the 32-bit sum and difference of `countFree` do not wrap: the bytes free and the
-- bytes in blocks make up the size.
pub count_free_lem : (p : Mpcb) → IsValid p → count_free p + total p.allocated ≡ p.size
unfolding count_free
count_free_lem p v =
    let room = total-le p.start (p.start + p.size) p.allocated v.fits in
    omega (arith, v.narrow, room, num_allocated_lem 0 p.allocated (omega (arith, v.narrow, room)))

pub total-place :
    (c hi n : ℕ) (bs : List MemBlock)
    → 0 < c
    → Fits c hi bs
    → (place c hi n bs).0 ≢ null
    → total (place c hi n bs).1 ≡ n + total bs
unfolding place
total-place c hi n [] start f ok = ground arith
total-place c hi n (b ∷ bs) start f ok = ground (arith, total-place (b.start + b.size) hi n bs)

-- A successful request of a valid pool takes exactly the positive number of bytes that it asks
-- for.
pub count_free-allocate :
    (p : Mpcb) (n : ℕ)
    → 0 < n
    → IsValid p
    → (allocate p n).0 ≢ null
    → count_free (allocate p n).1 + n ≡ count_free p
count_free-allocate p n pos v ok =
    let before = count_free_lem p v in
    let after = count_free_lem (allocate p n).1 (allocate-IsValid p n pos v) in
    let grown : total (allocate p n).1.allocated ≡ n + total p.allocated =
      rw (allocate-place p n v) (
        total-place p.start (p.start + p.size) n p.allocated v.nonnull v.fits
          (rw (allocate-place p n v) at ok)) in
    let same : (allocate p n).1.size ≡ p.size = rw (allocate-place p n v) in
    omega (arith, before, after, grown, same)

fully_free_lem :
    (bs : List MemBlock) (lo hi : ℕ) → Fits lo hi bs → (is_empty bs ≡ true) ↔ (total bs ≡ 0)
unfolding is_empty
fully_free_lem [] lo hi f = (λ _. refl, λ _. refl)
fully_free_lem (b ∷ bs) lo hi f = (λ e. cc, λ e. absurd (omega arith))

-- For a valid pool `fullyFree` holds exactly when `countFree` gives the size of the pool.
pub fully_free_iff : (p : Mpcb) → IsValid p → (fully_free p ≡ true) ↔ (count_free p ≡ p.size)
unfolding fully_free
fully_free_iff p v =
    let e = fully_free_lem p.allocated p.start (p.start + p.size) v.fits in
    let s = count_free_lem p v in (λ h. omega (arith, s, e.0 h), λ h. e.1 (omega (arith, s)))

place_first-zero :
    (start size : ℕ) (bs : List MemBlock)
    → place_first start size 0 bs ≡ (start, mem_block start 0 ∷ bs)
unfolding place_first place
place_first-zero start size [] = ground arith
place_first-zero start size (b ∷ bs) = ground arith

-- A request for no bytes gets the start of the pool, in front of the blocks that are there.
pub allocate-zero :
    (p : Mpcb)
    → allocate p 0 ≡ (p.start, record p { allocated = mem_block p.start 0 ∷ p.allocated })
unfolding allocate
allocate-zero p = rw (place_first-zero p.start p.size p.allocated)
