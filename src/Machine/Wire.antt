-- ===== src/Machine/Wire.antt =====
-- `MachineSetInt`, `MachineGetInt`, `MachineSetPointer`, `MachineGetPointer` and
-- `MachineValidSharePointer`. A buffer is the list of its bytes, and `ptr` the position in it. An
-- `int` goes by its bits, on a target with an `int` of four bytes and pointers of eight, the lowest
-- byte first.
use proj.Base.{
  Bool, List, false, get_or, if◌then◌else◌, leb, ltb, set, suc, true, zero, ℕ, ◌%◌, ◌*◌, ◌+◌, ◌-◌,
  ◌/◌, ◌^◌, ◌∷◌,
}
use proj.Base.Bytes.{little_endian, to_bytes}
use proj.Base.Int.{bits32, signed32, ℤ}
use proj.Base.Words.{u32_mod}
pub mod Laws
pub mod Pointers
use proj.Base.{[]}

-- The loop of `MachineGetInt`: the shift of `Value`, cut to 32 bits, leaves its last eight bits 0.
unfoldable pub get_int_loop : List ℕ → (ptr rounds index value : ℕ) → ℕ
get_int_loop buf ptr zero index value = value
get_int_loop buf ptr (suc n) index value =
    get_int_loop buf ptr n (index + 1) (value * 256 % u32_mod + get_or buf (ptr + index) 0)

unfoldable pub machine_get_int : List ℕ → (ptr : ℕ) → ℤ
unfolding get_int_loop
machine_get_int buf ptr = signed32 (get_int_loop buf ptr 4 0 0)

-- The loop of `MachineSetInt`: `val` shifted by three bytes, by two, by one and by none.
unfoldable pub set_int_loop : List ℕ → (ptr rounds index val : ℕ) → List ℕ
set_int_loop buf ptr zero index val = buf
set_int_loop buf ptr (suc n) index val =
    set_int_loop (set buf (ptr + index) (val / 2 ^ ((4 - index - 1) * 8) % 256)) ptr n (index + 1)
      val

unfoldable pub machine_set_int : List ℕ → (ptr : ℕ) → (val : ℤ) → List ℕ
unfolding set_int_loop
machine_set_int buf ptr val = set_int_loop buf ptr 4 0 (bits32 val)

-- The loops over the bytes that a pointer is stored in: `Value` in `MachineGetPointer` and `val` in
-- `MachineSetPointer` are numbers, whose bytes are read and written in order.
unfoldable pub get_bytes : List ℕ → (ptr rounds index : ℕ) → List ℕ
get_bytes buf ptr zero index = []
get_bytes buf ptr (suc n) index = get_or buf (ptr + index) 0 ∷ get_bytes buf ptr n (index + 1)

unfoldable pub machine_get_pointer : List ℕ → (ptr : ℕ) → ℕ
unfolding get_bytes
machine_get_pointer buf ptr = little_endian (get_bytes buf ptr 8 0)

unfoldable pub set_bytes : List ℕ → (ptr index : ℕ) → List ℕ → List ℕ
set_bytes buf ptr index [] = buf
set_bytes buf ptr index (b ∷ bs) = set_bytes (set buf (ptr + index) b) ptr (index + 1) bs

unfoldable pub machine_set_pointer : List ℕ → (ptr val : ℕ) → List ℕ
unfolding set_bytes
machine_set_pointer buf ptr val = set_bytes buf ptr 0 (to_bytes 8 val)

unfoldable pub machine_valid_share_pointer : (shared_base shared_size ptr : ℕ) → Bool
machine_valid_share_pointer shared_base shared_size ptr =
    if ltb ptr shared_base
    then false
    else if leb (shared_base + shared_size) ptr
    then false
    else true
