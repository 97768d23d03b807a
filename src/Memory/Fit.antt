-- ===== src/Memory/Fit.antt =====
-- The block list of a pool (MPCB.cpp): blocks in address order, apart from one another and inside
-- the pool, and what the loop of `MPCB::allocate` does to such a list.
use proj.Base.{ℕ, ◌+◌, ◌≤◌, ◌<◌, ◌≡◌, ◌≢◌, ◌⊎◌, inl, List, [], ◌∷◌, All, true, arith}
use proj.Base.Words.{null, u32_mod, u64_mod, ptr_diff_le}
use proj.Memory.{MemBlock, place, erase_block}

abbrev pub Fits : ℕ → ℕ → List MemBlock → Type 0
Fits lo hi [] = lo ≤ hi
Fits lo hi (b ∷ bs) = (lo ≤ b.start) × (0 < b.size) × Fits (b.start + b.size) hi bs

-- The `n` bytes at `a` lie between the bounds and meet no block.
abbrev pub Apart : ℕ → ℕ → List MemBlock → Type 0
Apart a n = All (λ b. (a + n ≤ b.start) ⊎ (b.start + b.size ≤ a))

pub record IsGap (lo hi a n : ℕ) (bs : List MemBlock) : Type 0 where
  pub above : lo ≤ a
  pub below : a + n ≤ hi
  pub apart : Apart a n bs

pub Fits-le : (lo hi : ℕ) (bs : List MemBlock) → Fits lo hi bs → lo ≤ hi
Fits-le lo hi [] f = f
Fits-le lo hi (b ∷ bs) f = omega (arith, Fits-le (b.start + b.size) hi bs f.2)

pub Fits-lower : (lo mid hi : ℕ) (bs : List MemBlock) → lo ≤ mid → Fits mid hi bs → Fits lo hi bs
Fits-lower lo mid hi [] h f = omega arith
Fits-lower lo mid hi (b ∷ bs) h f = (omega arith, f.1, f.2)

pub place-Fits :
    (c hi n : ℕ) (bs : List MemBlock)
    → 0 < n
    → hi ≤ u64_mod
    → hi < c + u32_mod
    → Fits c hi bs
    → Fits c hi (place c hi n bs).1
unfolding place
place-Fits c hi n [] pos top wide f = ground (arith, ptr_diff_le hi c f)
place-Fits c hi n (b ∷ bs) pos top wide f = ground (
  arith,
  Fits-le (b.start + b.size) hi bs f.2,
  ptr_diff_le b.start c f.0,
  place-Fits (b.start + b.size) hi n bs pos top,
)

pub Apart-below : (a n lo hi : ℕ) (bs : List MemBlock) → a + n ≤ lo → Fits lo hi bs → Apart a n bs
Apart-below a n lo hi [] h f = tt
Apart-below a n lo hi (b ∷ bs) h f =
    (inl (omega arith), Apart-below a n (b.start + b.size) hi bs (omega arith) f.2)

-- What the loop returns is null or the start of a gap.
pub place-IsGap :
    (c hi n : ℕ) (bs : List MemBlock)
    → hi ≤ u64_mod
    → hi < c + u32_mod
    → Fits c hi bs
    → ((place c hi n bs).0 ≡ null) ⊎ IsGap c hi (place c hi n bs).0 n bs
unfolding place
place-IsGap c hi n [] top wide f = ground (arith, ptr_diff_le hi c f)
place-IsGap c hi n (b ∷ bs) top wide f = ground (
  arith,
  Fits-le (b.start + b.size) hi bs f.2,
  ptr_diff_le b.start c f.0,
  Apart-below c n (b.start + b.size) hi bs,
  place-IsGap (b.start + b.size) hi n bs top,
)

-- Where there is a gap, the loop finds one, and none lies below it.
pub place_first_fit :
    (c hi n a : ℕ) (bs : List MemBlock)
    → 0 < c
    → 0 < n
    → hi ≤ u64_mod
    → hi < c + u32_mod
    → Fits c hi bs
    → IsGap c hi a n bs
    → (0 < (place c hi n bs).0) × ((place c hi n bs).0 ≤ a)
unfolding place
place_first_fit c hi n a [] start pos top wide f g = ground (arith, ptr_diff_le hi c f)
place_first_fit c hi n a (b ∷ bs) start pos top wide f g = ground (
  arith,
  Fits-le (b.start + b.size) hi bs f.2,
  ptr_diff_le b.start c f.0,
  place_first_fit (b.start + b.size) hi n a bs,
)

pub place-null :
    (c hi n : ℕ) (bs : List MemBlock)
    → 0 < c
    → Fits c hi bs
    → (place c hi n bs).0 ≡ null
    → (place c hi n bs).1 ≡ bs
unfolding place
place-null c hi n [] start f e = ground arith
place-null c hi n (b ∷ bs) start f e = ground (arith, place-null (b.start + b.size) hi n bs)

-- Erasing what was placed gives the list back.
pub erase_block-place :
    (c hi n : ℕ) (bs : List MemBlock)
    → 0 < n
    → hi ≤ u64_mod
    → hi < c + u32_mod
    → Fits c hi bs
    → (place c hi n bs).0 ≢ null
    → erase_block (place c hi n bs).0 (place c hi n bs).1 ≡ (true, bs)
unfolding place erase_block
erase_block-place c hi n [] pos top wide f ok = ground arith
erase_block-place c hi n (b ∷ bs) pos top wide f ok = ground (
  arith,
  Fits-le (b.start + b.size) hi bs f.2,
  ptr_diff_le b.start c f.0,
  place-IsGap (b.start + b.size) hi n bs top,
  erase_block-place (b.start + b.size) hi n bs pos top,
)

pub erase_block-Fits :
    (strt lo hi : ℕ) (bs : List MemBlock) → Fits lo hi bs → Fits lo hi (erase_block strt bs).1
unfolding erase_block
erase_block-Fits strt lo hi [] f = f
erase_block-Fits strt lo hi (b ∷ bs) f =
    ground (
      arith,
      erase_block-Fits strt (b.start + b.size) hi bs,
      Fits-lower lo (b.start + b.size) hi bs,
    )
