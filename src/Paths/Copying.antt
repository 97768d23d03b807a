-- ===== src/Paths/Copying.antt =====
-- `VMStringCopy`, `VMStringCopyN` and `VMStringConcatenate` (VirtualMachineUtils.c) on a buffer, the
-- list of its bytes. `ptr` is where `dest` stands in it.
use proj.Base.Int.{bits32, ℤ}
use proj.Base.{List, [], set, suc, zero, ℕ, ◌+◌, ◌∷◌}
use proj.Base.Strings.{c_string}
use proj.Paths.{string_length}
pub mod Laws

unfoldable pub string_copy : (buf : List ℕ) (ptr : ℕ) (src : List ℕ) → List ℕ
string_copy buf ptr [] = set buf ptr 0
string_copy buf ptr (c ∷ cs) = string_copy (set buf ptr c) (ptr + 1) cs

-- The loop counts down and stops offset 0, so that a negative count goes by its bits.
unfoldable pub string_copy_n_loop : (buf : List ℕ) (ptr : ℕ) (src : List ℕ) (n : ℕ) → List ℕ
string_copy_n_loop buf ptr [] n = set buf ptr 0
string_copy_n_loop buf ptr (c ∷ cs) zero = set buf ptr 0
string_copy_n_loop buf ptr (c ∷ cs) (suc n) = string_copy_n_loop (set buf ptr c) (ptr + 1) cs n

unfoldable pub string_copy_n : (buf : List ℕ) (ptr : ℕ) (src : List ℕ) (n : ℤ) → List ℕ
unfolding string_copy_n_loop
string_copy_n buf ptr src n = string_copy_n_loop buf ptr src (bits32 n)

-- `dest` stands offset the beginning of the buffer.
unfoldable pub string_concatenate : (buf src : List ℕ) → List ℕ
string_concatenate buf src = string_copy buf (string_length (c_string buf)) src
