-- ===== src/Vm/Files/Rounds.antt =====
-- The rounds of `VMFileWrite` and `VMFileRead` (VirtualMachine.cpp), and what they put together.
use proj.Base.Strings.{c_string-IsString}
use proj.Vm.Calls.{after}
use proj.Base.{none, some, ◌/◌}
use proj.Base.Strings.{IsString}
use proj.Vm.Files.Transfers.{join, transfers, transfers_lem}
use proj.Vm.State.{Vm, resume, returned, success}
use proj.Base.{
  Bool-cases, List, [], ap, append-take-drop, arith, drop, drop-append, drop-drop, inl, inr, length,
  length-append, length-drop, length-take_of_le, ltb, min, refl, suc, sym, take, take-append_lt,
  take-take, take_all, zero, ℕ, ◌*◌, ◌++◌, ◌+◌, ◌-◌, ◌<◌, ◌∙◌, ◌∷◌, ◌≡◌, ◌≤◌,
}
use proj.Base.Int.{pos, pos-add, ℤ, ◌+ℤ◌}
use proj.Base.Strings.{c_string}
use proj.Memory.{place}
use proj.Memory.Alloc.{total}
use proj.Vm.Files.{localdata, read_rounds, store_at}
use mathlib.Core.List.{append_assoc}
use proj.Vm.Files.{file_read}

-- A file that gives every round the bytes it asks for. What stands behind them in the shared memory
-- is `rest i`.
abbrev pub served : (content : List ℕ) (rest : ℕ → List ℕ) (len : ℕ) → ℕ → ℤ × List ℕ
served content rest len i =
    let block = take (min (len - i * 512) 512) (drop (i * 512) content) in
    (pos (length block), block ++ rest i)

-- A prefix of one list before the rest of another, which is `k` bytes on.
abbrev joined : (content retval : List ℕ) (k : ℕ) → List ℕ
joined content retval k = take k content ++ drop k retval

module _ (content retval : List ℕ) (k len : ℕ) (inside : k ≤ len) (whole : len ≤ length content)
    (room : length retval ≡ len + 1) where
  length-front : length (take k content) ≡ k
  length-front = length-take_of_le k content (omega (arith, inside, whole))

  length-joined : length (joined content retval k) ≡ len + 1
  length-joined = omega (
    arith,
    length-append {0} (take k content) (drop k retval),
    length-front,
    length-drop k retval,
    room,
    inside,
  )

  take-joined : take k (joined content retval k) ≡ take k content
  take-joined =
      take-append_lt k (take k content) (drop k retval) (omega (arith, length-front))
      ∙ take-take k k content (omega arith)

  drop-joined : drop len (joined content retval k) ≡ drop len retval
  drop-joined =
      let more : k + (len - k) ≡ len = omega (arith, inside) in
      ap (λ n. drop n (joined content retval k)) (sym more)
      ∙ sym (drop-drop k (len - k) (joined content retval k))
      ∙ ap (drop (len - k)) (
          ap (λ n. drop n (joined content retval k)) (sym length-front)
          ∙ drop-append (take k content) (drop k retval))
      ∙ drop-drop k (len - k) retval
      ∙ ap (λ n. drop n retval) more

-- A round stores the next block, whatever stands behind it in the shared memory.
stored_block :
    (content retval after : List ℕ) (place m : ℕ)
    → place + m ≤ length content
    → take place retval ≡ take place content
    → store_at retval place (take m (take m (drop place content) ++ after))
      ≡ joined content retval (place + m)
stored_block content retval after place m inside same =
    let block = take m (drop place content) in
    let size : length block ≡ m =
      length-take_of_le m (drop place content) (omega (arith, inside, length-drop place content)) in
    let cut : take m (block ++ after) ≡ block =
      take-append_lt m block after (omega (arith, size)) ∙ take_all m block (omega (arith, size)) in
    ap (store_at retval place) cut
    ∙ ap (λ n. take place retval ++ (block ++ drop (place + n) retval)) size
    ∙ ap (λ front. front ++ (block ++ drop (place + m) retval)) same
    ∙ sym (append_assoc (take place content) block (drop (place + m) retval))
    ∙ ap (λ front. front ++ drop (place + m) retval) (append-take-drop place m content)

pub read_rounds_lem :
    (fuel : ℕ) (content : List ℕ) (rest : ℕ → List ℕ) (i len : ℕ) (retval : List ℕ)
    → len - i * 512 < 512 * fuel
    → len ≤ length content
    → i * 512 ≤ len
    → length retval ≡ len + 1
    → take (i * 512) retval ≡ take (i * 512) content
    → read_rounds fuel (served content rest len) i (len - i * 512) (pos (i * 512)) retval
      ≡ (pos len, joined content retval len)
unfolding read_rounds
read_rounds_lem zero content rest i len retval enough whole more room same =
    absurd (omega (arith, enough))
read_rounds_lem (suc n) content rest i len retval enough whole more room same =
    let left = len - i * 512 in
    let m = min left 512 in
    let k = i * 512 + m in
    let block = take m (drop (i * 512) content) in
    let within : k ≤ len = omega (arith, more) in
    let size : length block ≡ m =
      length-take_of_le m (drop (i * 512) content)
        (omega (arith, whole, more, length-drop (i * 512) content)) in
    let cut =
      stored_block content retval (rest i) (i * 512) m (omega (arith, within, whole)) same in
    let total : pos (i * 512) +ℤ pos (length block) ≡ pos k =
      pos-add (i * 512) (length block) ∙ ap (λ j. pos (i * 512 + j)) size in
    elim (Bool-cases (ltb left 512)) [
      | inl e ↦ let end_ : i * 512 + m ≡ len = ground arith in rw (e, total, cut, end_) refl
      | inr e ↦
          let next_ : i * 512 + m ≡ (i + 1) * 512 = ground arith in
          let rest_ : left - 512 ≡ len - (i + 1) * 512 = omega arith in
          let le : (i + 1) * 512 ≤ len = ground arith in
          rw (e, total, cut, next_, rest_)
            (read_rounds_lem n content rest (i + 1) len (joined content retval ((i + 1) * 512))
                (ground arith) whole le
                (length-joined content retval ((i + 1) * 512) len le whole room)
                (take-joined content retval ((i + 1) * 512) len le whole room)
              ∙ ap (λ d. (pos len, take len content ++ d))
                  (drop-joined content retval ((i + 1) * 512) len le whole room))
    ]

-- A string of at most `n` bytes is not cut.
c_string-take :
    (s junk : List ℕ) (n : ℕ)
    → IsString s
    → length s ≤ n
    → c_string (take n (s ++ (0 ∷ junk)) ++ (0 ∷ [])) ≡ s
unfolding c_string
c_string-take [] junk zero h short = refl
c_string-take [] junk (suc n) h short = refl
c_string-take (c ∷ s) junk zero h short = absurd (omega (arith, short))
c_string-take (c ∷ s) junk (suc n) h short =
    ground (arith, c_string-take s junk n h.1 (omega (arith, short)), h.0)

-- Where a string of at most `len` bytes is written, and every round of VMFileRead below descriptor
-- 3 gives the bytes asked for from what VMFileWrite has handed over in its rounds for `len` bytes,
-- VMFileRead of `len` bytes succeeds, stores that string, and reports `len` bytes, whatever stood
-- behind the string, behind the block of each round in the shared memory, and in the buffer up to
-- its last byte, which is 0.
pub read_rounds-transfers :
    (v : Vm) (data_ junk : List ℕ) (rest : ℕ → List ℕ) (len : ℕ) (retval : List ℕ)
    → length (localdata data_ junk) ≡ len + 1
    → length retval ≡ len + 1
    → drop len retval ≡ 0 ∷ []
    → let (total, filled) =
        read_rounds
          (suc (len / 512))
          (served (join (transfers (localdata data_ junk) len)) rest len)
          0
          len
          (pos 0)
          retval in
      file_read total filled v ≡ (some (len, c_string data_), returned success none (resume v))
unfolding file_read
read_rounds-transfers v data_ junk rest len retval size room ends =
    let l = localdata data_ junk in
    let content = join (transfers l len) in
    let same : content ≡ take len l = (transfers_lem l len).0 in
    let full : length content ≡ len =
      ap length same ∙ length-take_of_le len l (omega (arith, size)) in
    let all : take len content ≡ take len l =
      ap (take len) same ∙ take-take len len l (omega arith) in
    let start : len ≡ len - 0 = omega arith in
    let short : length (c_string data_) ≤ len =
      omega (arith, size, length-append {0} (c_string data_) (0 ∷ junk)) in
    let ran =
      ap (λ k. read_rounds (suc (len / 512)) (served content rest len) 0 k (pos 0) retval) start
      ∙ read_rounds_lem (suc (len / 512)) content rest 0 len retval (omega arith)
          (omega (arith, full)) (omega arith) room refl in
    ap (λ r. file_read r.0 r.1 v) ran
    ∙ ap (λ s. file_read (pos len) s v)
        (ap (λ front. front ++ drop len retval) all ∙ ap (λ d. take len l ++ d) ends)
    ∙ ap (λ s. (some (len, s), returned success none (resume v)))
        (c_string-take (c_string data_) junk len (c_string-IsString data_) short)
