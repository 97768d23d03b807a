-- ===== src/Fat/Bytes.antt =====
-- `bytesToUnsigned` of FATData.cpp. A `uint8_t *` into an array is the list of the bytes from there
-- on; a read past the end is given the value 0.
pub mod Laws
use proj.Base.{ℕ, zero, suc, ◌+◌, ◌*◌, ◌%◌, ◌^◌, List, get_or}
use proj.Base.Words.{u32_mod, add32}

-- `rounds` counts the rounds left, `i` is the loop's index.
unfoldable pub bytes_loop : List ℕ → (rounds i accum : ℕ) → ℕ
bytes_loop start zero i accum = accum
bytes_loop start (suc n) i accum =
    bytes_loop start n (i + 1) (add32 accum (get_or start i 0 * 2 ^ (8 * i) % u32_mod))

unfoldable pub bytes_to_unsigned : List ℕ → ℕ → ℕ
unfolding bytes_loop
bytes_to_unsigned start size = bytes_loop start size 0 0
