-- ===== src/Machine/Wire/Laws.antt =====
-- What is written into a message (Machine.cpp) is what is read from it.
use proj.Base.{ap, get_or-set_same, get_or-take, suc, zero, ◌-◌}
use proj.Base.Int.{IsInt, bits32, bits32-lt, signed32, signed32-bits32}
use proj.Base.{
  List, arith, get_or, get_or-set_other, length, length-set, take, take-set, ℕ, ◌%◌, ◌*◌, ◌+◌, ◌/◌,
  ◌<◌, ◌^◌, ◌∙◌, ◌≡◌, ◌≤◌, ◌⊎◌,
}
use proj.Base.Int.{ℤ}
use proj.Base.Words.{u32_mod}
use proj.Machine.Wire.{get_int_loop, machine_get_int, machine_set_int, set_int_loop}

module _ (buf : List ℕ) (ptr : ℕ) (val : ℤ) where
  pub length-machine_set_int : length (machine_set_int buf ptr val) ≡ length buf
  unfolding machine_set_int set_int_loop
  length-machine_set_int = simp length-set

  pub take-machine_set_int : (n : ℕ) → n ≤ ptr → take n (machine_set_int buf ptr val) ≡ take n buf
  unfolding machine_set_int set_int_loop
  take-machine_set_int n h =
      take-set n _ (ptr + 3) _ (omega arith)
      ∙ take-set n _ (ptr + 2) _ (omega arith)
      ∙ take-set n _ (ptr + 1) _ (omega arith)
      ∙ take-set n _ (ptr + 0) _ (omega arith)

  pub get_or-machine_set_int :
      (j : ℕ)
      → (j < ptr) ⊎ (ptr + 4 ≤ j)
      → get_or (machine_set_int buf ptr val) j 0 ≡ get_or buf j 0
  unfolding machine_set_int set_int_loop
  get_or-machine_set_int j h =
      get_or-set_other _ (ptr + 3) j _ 0 (λ e. absurd (ground arith))
      ∙ get_or-set_other _ (ptr + 2) j _ 0 (λ e. absurd (ground arith))
      ∙ get_or-set_other _ (ptr + 1) j _ 0 (λ e. absurd (ground arith))
      ∙ get_or-set_other _ (ptr + 0) j _ 0 (λ e. absurd (ground arith))

-- Only the four bytes at `ptr` matter.
pub machine_get_int_ext :
    (a b : List ℕ) (ptr : ℕ)
    → ((j : ℕ) → ptr ≤ j → j < ptr + 4 → get_or a j 0 ≡ get_or b j 0)
    → machine_get_int a ptr ≡ machine_get_int b ptr
unfolding machine_get_int get_int_loop
machine_get_int_ext a b ptr h = rw (
  h (ptr + 0) (omega arith) (omega arith),
  h (ptr + 1) (omega arith) (omega arith),
  h (ptr + 2) (omega arith) (omega arith),
  h (ptr + 3) (omega arith) (omega arith),
)

bytes_of_int :
    (v : ℕ)
    → v < u32_mod
    → ((v / 2 ^ 24 % 256 * 256 % u32_mod + v / 2 ^ 16 % 256) * 256 % u32_mod + v / 2 ^ 8 % 256)
          * 256
          % u32_mod
        + v % 256
      ≡ v
bytes_of_int v h = omega arith

module _ (buf : List ℕ) (ptr : ℕ) (val : ℤ) (room : ptr + 4 ≤ length buf) where
  byte_at :
      (k : ℕ)
      → k < 4
      → get_or (machine_set_int buf ptr val) (ptr + k) 0 ≡ bits32 val / 2 ^ ((4 - k - 1) * 8) % 256
  unfolding machine_set_int set_int_loop
  byte_at zero h =
      get_or-set_other _ (ptr + 3) (ptr + 0) _ 0 (λ e. absurd (omega (arith, e)))
      ∙ get_or-set_other _ (ptr + 2) (ptr + 0) _ 0 (λ e. absurd (omega (arith, e)))
      ∙ get_or-set_other _ (ptr + 1) (ptr + 0) _ 0 (λ e. absurd (omega (arith, e)))
      ∙ get_or-set_same buf (ptr + 0) _ 0 (omega (arith, room))
  byte_at (suc zero) h =
      get_or-set_other _ (ptr + 3) (ptr + 1) _ 0 (λ e. absurd (omega (arith, e)))
      ∙ get_or-set_other _ (ptr + 2) (ptr + 1) _ 0 (λ e. absurd (omega (arith, e)))
      ∙ get_or-set_same _ (ptr + 1) _ 0 (rw length-set (omega (arith, room)))
  byte_at (suc (suc zero)) h =
      get_or-set_other _ (ptr + 3) (ptr + 2) _ 0 (λ e. absurd (omega (arith, e)))
      ∙ get_or-set_same _ (ptr + 2) _ 0 (rw (length-set, length-set) (omega (arith, room)))
  byte_at (suc (suc (suc zero))) h =
      get_or-set_same _ (ptr + 3) _ 0
        (rw (length-set, length-set, length-set) (omega (arith, room)))
  byte_at (suc (suc (suc (suc k)))) h = absurd (omega (arith, h))

  -- An int that MachineSetInt stores in a buffer with room for it is read back by MachineGetInt.
  pub get_int-set_int : IsInt val → machine_get_int (machine_set_int buf ptr val) ptr ≡ val
  unfolding machine_get_int get_int_loop
  get_int-set_int small =
      rw
        (
          byte_at 0 (omega arith),
          byte_at 1 (omega arith),
          byte_at 2 (omega arith),
          byte_at 3 (omega arith),
        )
        (ap signed32 (omega (arith, bytes_of_int (bits32 val) (bits32-lt val)))
          ∙ signed32-bits32 val small)

-- An `int` that was written elsewhere leaves it as it was.
pub get_int-set_int_other :
    (buf : List ℕ) (p q : ℕ) (val : ℤ)
    → (q + 4 ≤ p) ⊎ (p + 4 ≤ q)
    → machine_get_int (machine_set_int buf p val) q ≡ machine_get_int buf q
get_int-set_int_other buf p q val h =
    machine_get_int_ext (machine_set_int buf p val) buf q
      (λ j lo hi. get_or-machine_set_int buf p val j (ground arith))

pub get_int-take :
    (buf : List ℕ) (n p : ℕ) → p + 4 ≤ n → machine_get_int (take n buf) p ≡ machine_get_int buf p
get_int-take buf n p h =
    machine_get_int_ext (take n buf) buf p (λ j lo hi. get_or-take n buf j 0 (omega arith))
