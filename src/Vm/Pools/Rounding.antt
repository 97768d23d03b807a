-- ===== src/Vm/Pools/Rounding.antt =====
-- The rounding of a request to 64 bytes in `VMMemoryPoolAllocate` (VirtualMachine.cpp).
use proj.Base.{ℕ, ◌+◌, ◌%◌, ◌≤◌, ◌<◌, ◌≡◌, arith}
use proj.Base.Words.{u32_mod}
use proj.Vm.Pools.{round_up}

-- A size that leaves room for the rounding is rounded up to the next multiple of 64, within 32
-- bits.
pub round_up_lem :
    (size : ℕ)
    → size + 63 < u32_mod
    → (size ≤ round_up size)
      × (round_up size < size + 64)
      × (round_up size % 64 ≡ 0)
      × (round_up size < u32_mod)
unfolding round_up
round_up_lem size h = omega arith

-- One of the 63 largest requests is rounded to 0, since the sum wraps.
pub round_up_wraps : (size : ℕ) → size < u32_mod → u32_mod ≤ size + 63 → round_up size ≡ 0
unfolding round_up
round_up_wraps size h k = omega arith
