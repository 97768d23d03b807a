-- ===== src/Fat/Bytes/Laws.antt =====
-- What `bytesToUnsigned` (FATData.cpp) computes: the number that the bytes write in little-endian
-- order.
use proj.Base.{ℕ, ◌^◌, ◌≤◌, ◌<◌, List, [], ◌∷◌, ◌++◌, length, ◌≡◌, refl, ◌∙◌, arith}
use proj.Base.{subst}
use proj.Base.Bytes.{
  little_endian, IsBytes, to_bytes, length-to_bytes, to_bytes-IsBytes, little_endian-to_bytes,
}
use proj.Fat.Bytes.{bytes_loop, bytes_to_unsigned}

-- Up to four bytes are read as the number that they write, whatever follows them.
pub bytes_to_unsigned-little_endian :
    (bs rest : List ℕ)
    → length bs ≤ 4
    → IsBytes bs
    → bytes_to_unsigned (bs ++ rest) (length bs) ≡ little_endian bs
unfolding bytes_to_unsigned bytes_loop
bytes_to_unsigned-little_endian [] rest h b = refl
bytes_to_unsigned-little_endian (x ∷ []) rest h b = omega arith
bytes_to_unsigned-little_endian (x ∷ y ∷ []) rest h b = omega arith
bytes_to_unsigned-little_endian (x ∷ y ∷ z ∷ []) rest h b = omega arith
bytes_to_unsigned-little_endian (x ∷ y ∷ z ∷ w ∷ []) rest h b = omega arith
bytes_to_unsigned-little_endian (x ∷ y ∷ z ∷ w ∷ v ∷ bs) rest h b = absurd (omega arith)

-- Reading a field of at most four bytes gives back the number that was written there, whatever
-- follows.
pub bytes_to_unsigned-to_bytes :
    (n x : ℕ) (rest : List ℕ) → n ≤ 4 → x < 256 ^ n → bytes_to_unsigned (to_bytes n x ++ rest) n ≡ x
bytes_to_unsigned-to_bytes n x rest h k =
    subst (λ l. bytes_to_unsigned (to_bytes n x ++ rest) l ≡ x) (length-to_bytes n x)
      (bytes_to_unsigned-little_endian (to_bytes n x) rest (omega (arith, length-to_bytes n x))
          (to_bytes-IsBytes n x)
        ∙ little_endian-to_bytes n x k)
