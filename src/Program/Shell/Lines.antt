-- ===== src/Program/Shell/Lines.antt =====
-- The lines that the shell (apps/shell.c) understands.
use proj.Base.{ap, sym, take}
use proj.Program.Shell.{space}
use proj.Base.{if◌then◌else◌, ltb, ◌∙◌}
use proj.Program.Shell.{overrun}
use mathlib.Core.List.{append_assoc, append-nil}
use proj.Base.{
  All, List, [], arith, get_or, length, length-append, refl, suc, zero, ℕ, ◌++◌, ◌+◌, ◌<◌, ◌∷◌, ◌≡◌,
  ◌≢◌,
}
use proj.Program.Shell.{line_size, line, read_line, skip_spaces, trim}

abbrev pub spaces : ℕ → List ℕ
spaces zero = []
spaces (suc n) = b' ' ∷ spaces n

-- No character ends the line or the string.
abbrev pub IsTyped : List ℕ → Type 0
IsTyped = All (λ c. (c ≢ 0) × (c ≢ b'\n'))

pub spaces-IsTyped : (n : ℕ) → IsTyped (spaces n)
spaces-IsTyped zero = tt
spaces-IsTyped (suc n) =
    (((λ e. absurd (omega (arith, e))), (λ e. absurd (omega (arith, e)))), spaces-IsTyped n)

read_line-spaces : (i : ℕ) (input : List ℕ) → read_line [] (spaces i ++ input) ≡ read_line [] input
unfolding read_line
read_line-spaces zero input = refl
read_line-spaces (suc i) input = read_line-spaces i input

-- Behind the first character every one is kept, as long as there is room.
read_line-append :
    (text w rest : List ℕ)
    → 0 < length text
    → IsTyped w
    → read_line text (w ++ (b'\n' ∷ rest))
      ≡ (if ltb (length text + length w) line_size then line (text ++ w) rest else overrun)
unfolding read_line
read_line-append text [] rest some_ typed = ground (arith, append-nil text)
read_line-append text (c ∷ w) rest some_ typed =
    let longer : length (text ++ (c ∷ [])) ≡ length text + 1 = length-append text (c ∷ []) in
    let total : length (text ++ (c ∷ [])) + length w ≡ length text + length (c ∷ w) =
      omega (arith, longer) in
    let next : read_line (text ++ (c ∷ [])) (w ++ (b'\n' ∷ rest)) ≡ (
        if ltb (length text + length (c ∷ w)) line_size
        then line (text ++ (c ∷ w)) rest
        else overrun) =
      read_line-append (text ++ (c ∷ [])) w rest (omega (arith, longer)) typed.1
      ∙ cc (append_assoc text (c ∷ []) w, total) in
    ground (arith, typed.0, next)

pub skip_spaces-append :
    (k : ℕ) (p : ℕ) (path : List ℕ) → p ≢ b' ' → skip_spaces (spaces k ++ (p ∷ path)) ≡ p ∷ path
unfolding skip_spaces
skip_spaces-append zero p path h = ground arith
skip_spaces-append (suc k) p path h = skip_spaces-append k p path h

-- Spaces at the end are cut, down to a character that is none.
trim-stop : (n : ℕ) (text : List ℕ) → get_or text n 0 ≢ b' ' → trim (suc n) text ≡ text
unfolding trim
trim-stop n text h = ground arith

-- Spaces before the first character are passed over.
pub read_line_lem :
    (i c : ℕ) (w rest : List ℕ)
    → c ≢ b' '
    → IsTyped (c ∷ w)
    → read_line [] (spaces i ++ (c ∷ (w ++ (b'\n' ∷ rest))))
      ≡ (if ltb (length (c ∷ w)) line_size then line (c ∷ w) rest else overrun)
unfolding read_line
read_line_lem i c w rest h typed =
    let first : read_line [] (c ∷ (w ++ (b'\n' ∷ rest)))
        ≡ read_line (c ∷ []) (w ++ (b'\n' ∷ rest)) =
      ground (arith, typed.0) in
    read_line-spaces i (c ∷ (w ++ (b'\n' ∷ rest)))
    ∙ first
    ∙ read_line-append (c ∷ []) w rest (omega arith) typed.1
    ∙ ap (λ n. if ltb n line_size then line (c ∷ w) rest else overrun) (omega arith)

spaces-snoc : (j : ℕ) → spaces (suc j) ≡ spaces j ++ space
spaces-snoc zero = refl
spaces-snoc (suc j) = ap (◌∷◌ b' ') (spaces-snoc j)

length-spaces : (j : ℕ) → length (spaces j) ≡ j
length-spaces zero = refl
length-spaces (suc j) = omega (arith, length-spaces j)

get_or-append : (xs ys : List ℕ) (d : ℕ) → get_or (xs ++ ys) (length xs) d ≡ get_or ys 0 d
get_or-append [] ys d = refl
get_or-append (x ∷ xs) ys d = get_or-append xs ys d

take-length-append : (xs ys : List ℕ) → take (length xs) (xs ++ ys) ≡ xs
take-length-append [] ys = refl
take-length-append (x ∷ xs) ys = ap (◌∷◌ x) (take-length-append xs ys)

-- A space at the end is cut.
trim-snoc :
    (text : List ℕ) → trim (length (text ++ space)) (text ++ space) ≡ trim (length text) text
unfolding trim
trim-snoc text =
    let n : length (text ++ space) ≡ suc (length text) = omega (arith, length-append text space) in
    rw (n, trim, get_or-append text space 0, take-length-append text space) refl

trim-spaces :
    (j : ℕ) (text : List ℕ)
    → trim (length (text ++ spaces j)) (text ++ spaces j) ≡ trim (length text) text
trim-spaces zero text = rw (append-nil text) refl
trim-spaces (suc j) text =
    let split : text ++ spaces (suc j) ≡ (text ++ spaces j) ++ space =
      ap (λ s. text ++ s) (spaces-snoc j) ∙ sym (append_assoc text (spaces j) space) in
    ap (λ s. trim (length s) s) split ∙ trim-snoc (text ++ spaces j) ∙ trim-spaces j text

-- A text that ends in a character that is no space stays as it is.
pub trim_lem :
    (u : List ℕ) (c j : ℕ)
    → c ≢ b' '
    → let text = u ++ (c ∷ []) in trim (length (text ++ spaces j)) (text ++ spaces j) ≡ text
unfolding trim
trim_lem u c j h =
    let text = u ++ (c ∷ []) in
    let n : length text ≡ suc (length u) = omega (arith, length-append u (c ∷ [])) in
    let last_is : get_or text (length u) 0 ≡ c = get_or-append u (c ∷ []) 0 in
    trim-spaces j text ∙ rw n (trim-stop (length u) text (λ e. h (sym last_is ∙ e)))
