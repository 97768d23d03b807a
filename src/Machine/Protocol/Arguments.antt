-- ===== src/Machine/Protocol/Arguments.antt =====
-- The arguments of a request (Machine.cpp), read by the child from the payload that it received.
use mathlib.Core.List.{append_assoc}
use proj.Base.{
  List, [], ap, append-take-drop_all, arith, drop, get_or, get_or-append_lt, get_or-take, inl,
  length, length-append, length-take_of_le, sym, take, take-append_lt, take-take, ℕ, ◌++◌, ◌+◌, ◌<◌,
  ◌∙◌, ◌∷◌, ◌≡◌, ◌≤◌,
}
use proj.Base.Bytes.{little_endian}
use proj.Base.Int.{IsInt, ℤ}
use proj.Base.Strings.{IsString, c_string, c_string-append}
use proj.Base.Words.{u64_mod}
use proj.Machine.Wire.{machine_get_int, machine_get_pointer, machine_set_int, machine_set_pointer}
use proj.Machine.Wire.Laws.{
  get_int-set_int, get_int-set_int_other, length-machine_set_int, machine_get_int_ext,
}
use proj.Machine.Wire.Pointers.{
  get_bytes_ext, get_int-set_pointer, get_pointer-set_pointer, length-machine_set_pointer,
}

module _ (buf old : List ℕ) (n : ℕ) where
  -- The payload in the child's buffer: the bytes sent, and those that stood behind them.
  abbrev pub received : List ℕ
  received = take n buf ++ drop (length (take n buf)) old

module _ (buf old : List ℕ) (n : ℕ) (long : n ≤ length buf) where
  pub length-received : n ≤ length (received buf old n)
  length-received = omega (
    arith,
    length-append {0} (take n buf) (drop (length (take n buf)) old),
    length-take_of_le n buf long,
  )

  get_or-received : (j : ℕ) → j < n → get_or (received buf old n) j 0 ≡ get_or buf j 0
  get_or-received j h =
      get_or-append_lt (take n buf) _ j 0 (omega (arith, length-take_of_le n buf long))
      ∙ get_or-take n buf j 0 h

  pub get_int-received :
      (p : ℕ) → p + 4 ≤ n → machine_get_int (received buf old n) p ≡ machine_get_int buf p
  get_int-received p h =
      machine_get_int_ext (received buf old n) buf p
        (λ j lo hi. get_or-received j (omega (arith, h, hi)))

  pub get_pointer-received :
      (p : ℕ) → p + 8 ≤ n → machine_get_pointer (received buf old n) p ≡ machine_get_pointer buf p
  unfolding machine_get_pointer
  get_pointer-received p h = ap little_endian (
      get_bytes_ext (received buf old n) buf p 8 0
        (λ j lo hi. get_or-received j (omega (arith, h, hi))))

  pub c_string-received :
      (s : List ℕ)
      → IsString s
      → length s + 1 ≤ n
      → take (length s + 1) buf ≡ s ++ (0 ∷ [])
      → c_string (received buf old n) ≡ s
  c_string-received s ok h e =
      let front : take (length s + 1) (received buf old n) ≡ s ++ (0 ∷ []) =
        take-append_lt (length s + 1) (take n buf) _
          (omega (arith, length-take_of_le n buf long, h))
        ∙ take-take (length s + 1) n buf h
        ∙ e in
      let split : (received buf old n)
          ≡ (s ++ (0 ∷ [])) ++ drop (length s + 1) (received buf old n) =
        sym (append-take-drop_all (length s + 1) (received buf old n))
        ∙ ap (λ xs. xs ++ drop (length s + 1) (received buf old n)) front in
      ap c_string (split ∙ append_assoc s (0 ∷ []) _) ∙ c_string-append s _ ok

-- The two integers and the pointer of a transfer, as they stand in the payload.
module _ (junk : List ℕ) (fd : ℤ) (data_ : ℕ) (len : ℤ) where
  abbrev pub transfer_payload : List ℕ
  transfer_payload = machine_set_pointer (machine_set_int (machine_set_int junk 0 fd) 4 len) 8 data_

module _ (junk : List ℕ) (fd : ℤ) (data_ : ℕ) (len : ℤ) (room : 27 ≤ length junk) where
  lengths : length (machine_set_int (machine_set_int junk 0 fd) 4 len) ≡ length junk
  lengths = length-machine_set_int _ 4 len ∙ length-machine_set_int junk 0 fd

  pub length-transfer_payload : length (transfer_payload junk fd data_ len) ≡ length junk
  length-transfer_payload = length-machine_set_pointer _ 8 data_ ∙ lengths

  pub transfer_fd : IsInt fd → machine_get_int (transfer_payload junk fd data_ len) 0 ≡ fd
  transfer_fd ok =
      get_int-set_pointer _ 8 data_ 0 (omega arith)
      ∙ get_int-set_int_other _ 4 0 len (inl (omega arith))
      ∙ get_int-set_int junk 0 fd (omega (arith, room)) ok

  pub transfer_length : IsInt len → machine_get_int (transfer_payload junk fd data_ len) 4 ≡ len
  transfer_length ok =
      get_int-set_pointer _ 8 data_ 4 (omega arith)
      ∙ get_int-set_int _ 4 len (omega (arith, room, length-machine_set_int junk 0 fd)) ok

  pub transfer_pointer :
      data_ < u64_mod → machine_get_pointer (transfer_payload junk fd data_ len) 8 ≡ data_
  transfer_pointer ok = get_pointer-set_pointer _ 8 data_ (omega (arith, room, lengths)) ok
