-- ===== src/Memory.antt =====
-- MPCB.cpp and MemBlock.cpp: a memory pool control block and its list of allocated blocks.
pub mod Fit
pub mod Alloc
use proj.Base.{ℕ, ◌+◌, Bool, true, false, List, [], ◌∷◌, leb, ◌==◌, if◌then◌else◌}
use proj.Base.Words.{null, add32, sub32, ptr_diff}

pub record MemBlock : Type 0 where
  pub start : ℕ
  pub size : ℕ

pub record Mpcb : Type 0 where
  pub id : ℕ
  pub start : ℕ
  pub size : ℕ
  pub allocated : List MemBlock

abbrev pub mem_block : ℕ → ℕ → MemBlock
mem_block strt sz = record { start = strt; size = sz }

-- The constructor; `id_inc` is the static counter `idInc`, which it also advances.
abbrev pub new_pool : (id_inc pl_strt pl_sz : ℕ) → Mpcb × ℕ
new_pool id_inc pl_strt pl_sz =
    (record { id = id_inc; start = pl_strt; size = pl_sz; allocated = [] }, add32 id_inc 1)

-- The loop over the blocks and the test behind it: `candidate` is `candidateStart` and `limit` is
-- `start + size`. The results are the pointer that is returned and the new list.
unfoldable pub place : (candidate limit space_size : ℕ) → List MemBlock → ℕ × List MemBlock
place candidate limit space_size [] =
    if leb space_size (ptr_diff limit candidate)
    then (candidate, mem_block candidate space_size ∷ [])
    else (null, [])
place candidate limit space_size (b ∷ bs) =
    let rest = place (b.start + b.size) limit space_size bs in
    if leb space_size (ptr_diff b.start candidate)
    then (candidate, mem_block candidate space_size ∷ b ∷ bs)
    else (rest.0, b ∷ rest.1)

unfoldable pub place_first : (start size space_size : ℕ) → List MemBlock → ℕ × List MemBlock
unfolding place
place_first start size space_size [] =
    if leb space_size size then (start, mem_block start space_size ∷ []) else (null, [])
place_first start size space_size (b ∷ bs) = place start (start + size) space_size (b ∷ bs)

unfoldable pub allocate : Mpcb → ℕ → ℕ × Mpcb
unfolding place_first
allocate p space_size =
    let placed = place_first p.start p.size space_size p.allocated in
    (placed.0, record p { allocated = placed.1 })

-- The search of `MPCB::deallocate`: whether a block starts at the address, and the list without it.
unfoldable pub erase_block : ℕ → List MemBlock → Bool × List MemBlock
erase_block strt [] = (false, [])
erase_block strt (b ∷ bs) =
    let rest = erase_block strt bs in if b.start == strt then (true, bs) else (rest.0, b ∷ rest.1)

unfoldable pub deallocate : Mpcb → ℕ → Bool × Mpcb
unfolding erase_block
deallocate p strt =
    let erased = erase_block strt p.allocated in (erased.0, record p { allocated = erased.1 })

unfoldable pub is_empty : List MemBlock → Bool
is_empty [] = true
is_empty (b ∷ bs) = false

unfoldable pub fully_free : Mpcb → Bool
unfolding is_empty
fully_free p = is_empty p.allocated

unfoldable pub num_allocated : ℕ → List MemBlock → ℕ
num_allocated acc [] = acc
num_allocated acc (b ∷ bs) = num_allocated (add32 acc b.size) bs

unfoldable pub count_free : Mpcb → ℕ
unfolding num_allocated
count_free p = sub32 p.size (num_allocated 0 p.allocated)
