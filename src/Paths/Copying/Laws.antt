-- ===== src/Paths/Copying/Laws.antt =====
-- The string in a buffer after `VMStringCopy`, `VMStringCopyN` and `VMStringConcatenate`
-- (VirtualMachineUtils.c), where there is room for it.
use proj.Base.Strings.{c_string-IsString}
use mathlib.Core.List.{append_assoc}
use native.Mathlib.Nat.{mod-eq_of_lt}
use proj.Base.{
  List, [], ap, append-take-drop_all, arith, drop, if_intro, length, length-append, length-set,
  refl, set, suc, sym, take, zero, ℕ, ◌++◌, ◌+◌, ◌<◌, ◌==◌, ◌∙◌, ◌∷◌, ◌∷◌, ◌≡◌,
}
use proj.Base.Int.{IsInt, pos}
use proj.Base.Strings.{IsString, c_string, c_string-append}
use proj.Base.Words.{u32_mod}
use proj.Paths.{string_length}
use proj.Paths.Copying.{string_concatenate, string_copy, string_copy_n, string_copy_n_loop}
use proj.Paths.Splitting.{string_length_lem}

take-set_last :
    (buf : List ℕ) (ptr v : ℕ)
    → ptr < length buf
    → take (ptr + 1) (set buf ptr v) ≡ take ptr buf ++ (v ∷ [])
take-set_last [] ptr v h = elim h [ ]
take-set_last (c ∷ cs) zero v h = refl
take-set_last (c ∷ cs) (suc ptr) v h =
    let following : suc ptr + 1 ≡ suc (ptr + 1) = omega arith in
    rw following (ap (◌∷◌ c) (take-set_last cs ptr v (omega (arith, h))))

take-string_copy :
    (buf : List ℕ) (ptr : ℕ) (src : List ℕ)
    → ptr + length src < length buf
    → take (ptr + length src + 1) (string_copy buf ptr src) ≡ take ptr buf ++ (src ++ (0 ∷ []))
unfolding string_copy
take-string_copy buf ptr [] h =
    ap (λ k. take k (set buf ptr 0)) (omega arith) ∙ take-set_last buf ptr 0 (omega (arith, h))
take-string_copy buf ptr (c ∷ cs) h =
    ap (λ k. take k (string_copy (set buf ptr c) (ptr + 1) cs)) (omega arith)
    ∙ take-string_copy (set buf ptr c) (ptr + 1) cs (omega (arith, h, length-set buf ptr c))
    ∙ ap (λ t. t ++ (cs ++ (0 ∷ []))) (take-set_last buf ptr c (omega (arith, h)))
    ∙ append_assoc (take ptr buf) (c ∷ []) (cs ++ (0 ∷ []))

-- A buffer that begins with a string and its NUL.
c_string_front :
    (s buf : List ℕ) → IsString s → take (length s + 1) buf ≡ s ++ (0 ∷ []) → c_string buf ≡ s
c_string_front s buf ok front =
    let split : buf ≡ s ++ (0 ∷ drop (length s + 1) buf) =
      sym (append-take-drop_all (length s + 1) buf)
      ∙ ap (λ t. t ++ drop (length s + 1) buf) front
      ∙ append_assoc s (0 ∷ []) (drop (length s + 1) buf) in
    ap c_string split ∙ c_string-append s _ ok

take-c_string : (buf : List ℕ) → take (length (c_string buf)) buf ≡ c_string buf
unfolding c_string
take-c_string [] = refl
take-c_string (c ∷ cs) =
    if_intro (λ s. take (length s) (c ∷ cs) ≡ s) (c == 0) (λ _. refl)
      (λ _. ap (◌∷◌ c) (take-c_string cs))

IsString-append : (s t : List ℕ) → IsString s → IsString t → IsString (s ++ t)
IsString-append [] t hs ht = ht
IsString-append (c ∷ s) t (hc, hs) ht = (hc, IsString-append s t hs ht)

pub string_copy_lem :
    (buf src : List ℕ)
    → IsString src
    → length src < length buf
    → c_string (string_copy buf 0 src) ≡ src
string_copy_lem buf src ok room = c_string_front src (string_copy buf 0 src) ok (
    ap (λ k. take k (string_copy buf 0 src)) (omega arith)
    ∙ take-string_copy buf 0 src (omega (arith, room)))

-- A count that is not negative limits the string that is copied.
string_copy_n_loop_lem :
    (buf : List ℕ) (ptr : ℕ) (src : List ℕ) (n : ℕ)
    → string_copy_n_loop buf ptr src n ≡ string_copy buf ptr (take n src)
unfolding string_copy string_copy_n_loop
string_copy_n_loop_lem buf ptr [] zero = refl
string_copy_n_loop_lem buf ptr [] (suc n) = refl
string_copy_n_loop_lem buf ptr (c ∷ cs) zero = refl
string_copy_n_loop_lem buf ptr (c ∷ cs) (suc n) =
    string_copy_n_loop_lem (set buf ptr c) (ptr + 1) cs n

pub string_copy_n_lem :
    (buf : List ℕ) (offset : ℕ) (src : List ℕ) (n : ℕ)
    → IsInt (pos n)
    → string_copy_n buf offset src (pos n) ≡ string_copy buf offset (take n src)
unfolding string_copy_n
string_copy_n_lem buf offset src n small =
    ap (string_copy_n_loop buf offset src) (mod-eq_of_lt (omega (arith, small)))
    ∙ string_copy_n_loop_lem buf offset src n

-- For a source without NUL and a buffer with room for both strings and a NUL, VMStringConcatenate
-- leaves the string that stood in the buffer followed by the source.
pub string_concatenate_lem :
    (buf src : List ℕ)
    → IsString src
    → length (c_string buf) + length src < length buf
    → length buf < u32_mod
    → c_string (string_concatenate buf src) ≡ c_string buf ++ src
unfolding string_concatenate
string_concatenate_lem buf src ok room small =
    let s = c_string buf in
    let offset : string_length s ≡ length s = string_length_lem s (omega (arith, room, small)) in
    let front : take (length (s ++ src) + 1) (string_copy buf (length s) src)
        ≡ (s ++ src) ++ (0 ∷ []) =
      ap (λ k. take (k + 1) (string_copy buf (length s) src)) (length-append {0} s src)
      ∙ take-string_copy buf (length s) src room
      ∙ ap (λ t. t ++ (src ++ (0 ∷ []))) (take-c_string buf)
      ∙ sym (append_assoc s src (0 ∷ [])) in
    ap (λ k. c_string (string_copy buf k src)) offset
    ∙ c_string_front (s ++ src) (string_copy buf (length s) src)
        (IsString-append s src (c_string-IsString buf) ok) front
