-- ===== src/Machine/Wire/Pointers.antt =====
-- Pointers in messages (Machine.cpp) are read as they were written.
use proj.Base.{[]}
use proj.Base.{
  List, ap, arith, get_or, get_or-set_other, get_or-set_same, get_or-take, inl, length, length-set,
  refl, set, subst, suc, take, zero, ℕ, ◌+◌, ◌<◌, ◌∙◌, ◌∷◌, ◌∷◌, ◌≡◌, ◌≤◌, ◌⊎◌,
}
use proj.Base.Bytes.{length-to_bytes, little_endian, little_endian-to_bytes, to_bytes}
use proj.Base.Words.{u64_mod}
use proj.Machine.Wire.{
  get_bytes, machine_get_int, machine_get_pointer, machine_set_pointer, set_bytes,
}
use proj.Machine.Wire.Laws.{machine_get_int_ext}

get_or-set_bytes :
    (buf : List ℕ) (ptr index : ℕ) (bs : List ℕ) (j : ℕ)
    → (j < ptr + index) ⊎ (ptr + index + length bs ≤ j)
    → get_or (set_bytes buf ptr index bs) j 0 ≡ get_or buf j 0
unfolding set_bytes
get_or-set_bytes buf ptr index [] j h = refl
get_or-set_bytes buf ptr index (b ∷ bs) j h =
    get_or-set_bytes (set buf (ptr + index) b) ptr (index + 1) bs j (ground arith)
    ∙ get_or-set_other buf (ptr + index) j b 0 (λ e. absurd (ground arith))

length-set_bytes :
    (buf : List ℕ) (ptr index : ℕ) (bs : List ℕ) → length (set_bytes buf ptr index bs) ≡ length buf
unfolding set_bytes
length-set_bytes buf ptr index [] = refl
length-set_bytes buf ptr index (b ∷ bs) =
    length-set_bytes (set buf (ptr + index) b) ptr (index + 1) bs ∙ length-set buf (ptr + index) b

get_bytes-set_bytes :
    (buf : List ℕ) (ptr index : ℕ) (bs : List ℕ)
    → ptr + index + length bs ≤ length buf
    → get_bytes (set_bytes buf ptr index bs) ptr (length bs) index ≡ bs
unfolding get_bytes set_bytes
get_bytes-set_bytes buf ptr index [] h = refl
get_bytes-set_bytes buf ptr index (b ∷ bs) h =
    let buf' = set buf (ptr + index) b in
    let first : get_or (set_bytes buf' ptr (index + 1) bs) (ptr + index) 0 ≡ b =
      get_or-set_bytes buf' ptr (index + 1) bs (ptr + index) (inl (omega arith))
      ∙ get_or-set_same buf (ptr + index) b 0 (omega (arith, h)) in
    rw first (
      ap (◌∷◌ b) (
        get_bytes-set_bytes buf' ptr (index + 1) bs
          (omega (arith, h, length-set buf (ptr + index) b))))

pub get_bytes_ext :
    (a b : List ℕ) (ptr n index : ℕ)
    → ((j : ℕ) → ptr + index ≤ j → j < ptr + index + n → get_or a j 0 ≡ get_or b j 0)
    → get_bytes a ptr n index ≡ get_bytes b ptr n index
unfolding get_bytes
get_bytes_ext a b ptr zero index h = refl
get_bytes_ext a b ptr (suc n) index h = rw (h (ptr + index) (omega arith) (omega arith)) (
    ap (◌∷◌ (get_or b (ptr + index) 0))
      (get_bytes_ext a b ptr n (index + 1) (λ j lo hi. h j (omega arith) (omega arith))))

-- A pointer that was written with room for its eight bytes is read back.
pub get_pointer-set_pointer :
    (buf : List ℕ) (ptr val : ℕ)
    → ptr + 8 ≤ length buf
    → val < u64_mod
    → machine_get_pointer (machine_set_pointer buf ptr val) ptr ≡ val
unfolding machine_get_pointer machine_set_pointer
get_pointer-set_pointer buf ptr val room small =
    ap little_endian (
      subst (λ n. get_bytes (set_bytes buf ptr 0 (to_bytes 8 val)) ptr n 0 ≡ to_bytes 8 val)
        (length-to_bytes 8 val)
        (get_bytes-set_bytes buf ptr 0 (to_bytes 8 val)
          (omega (arith, room, length-to_bytes 8 val))))
    ∙ little_endian-to_bytes 8 val (omega (arith, small))

pub get_int-set_pointer :
    (buf : List ℕ) (ptr val q : ℕ)
    → q + 4 ≤ ptr
    → machine_get_int (machine_set_pointer buf ptr val) q ≡ machine_get_int buf q
unfolding machine_set_pointer
get_int-set_pointer buf ptr val q h =
    machine_get_int_ext (set_bytes buf ptr 0 (to_bytes 8 val)) buf q
      (λ j lo hi. get_or-set_bytes buf ptr 0 (to_bytes 8 val) j (inl (omega arith)))

pub get_pointer-take :
    (buf : List ℕ) (n p : ℕ)
    → p + 8 ≤ n
    → machine_get_pointer (take n buf) p ≡ machine_get_pointer buf p
unfolding machine_get_pointer
get_pointer-take buf n p h =
    ap little_endian
      (get_bytes_ext (take n buf) buf p 8 0 (λ j lo hi. get_or-take n buf j 0 (omega arith)))

pub length-machine_set_pointer :
    (buf : List ℕ) (ptr val : ℕ) → length (machine_set_pointer buf ptr val) ≡ length buf
unfolding machine_set_pointer
length-machine_set_pointer buf ptr val = length-set_bytes buf ptr 0 (to_bytes 8 val)
