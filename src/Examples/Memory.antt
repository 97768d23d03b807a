-- ===== src/Examples/Memory.antt =====
-- A pool of MPCB.cpp with two blocks and two gaps.
use proj.Memory.{place_first}
use proj.Base.{arith, false, inr, refl, true, ◌∷◌, ◌≡◌, ◌≢◌}
use proj.Base.Words.{null}
use proj.Memory.{
  Mpcb, allocate, count_free, deallocate, erase_block, mem_block, num_allocated, place,
}
use proj.Memory.Alloc.{IsGapOf, IsValid}
use proj.Base.{[]}

abbrev pool : Mpcb
pool = record {
  id = 7;
  start = 4096;
  size = 1024;
  allocated = mem_block 4096 64 ∷ mem_block 4224 128 ∷ [];
}

pool-IsValid : IsValid pool
pool-IsValid = record {
  nonnull = omega arith;
  addressable = omega arith;
  narrow = omega arith;
  fits = (omega arith, omega arith, (omega arith, omega arith, omega arith));
}

gap : IsGapOf pool 4352 256
gap = record {
  above = omega arith;
  below = omega arith;
  apart = (inr (omega arith), (inr (omega arith), tt));
}

-- Small requests go between the blocks, larger ones behind them; none is larger than the pool.
run-between : (allocate pool 64).0 ≡ 4160
unfolding allocate place_first place
run-between = refl

run-behind : (allocate pool 65).0 ≡ 4352
unfolding allocate place_first place
run-behind = refl

run-full : allocate pool 2000 ≡ (null, pool)
unfolding allocate place_first place
run-full = refl

run-free : deallocate pool 4224 ≡ (true, record pool { allocated = mem_block 4096 64 ∷ [] })
unfolding deallocate erase_block
run-free = refl

run-stray : deallocate pool 4160 ≡ (false, pool)
unfolding deallocate erase_block
run-stray = refl

run-count : count_free pool ≡ 832
unfolding count_free num_allocated
run-count = refl

some_bytes : (allocate pool 64).0 ≢ null
some_bytes e = absurd (omega (arith, e, run-between))
