-- ===== src/Paths/Simplify/Entries.antt =====
-- What each kind of entry does to the path that `VMFileSystemSimplifyPath` (VirtualMachineUtils.c)
-- builds.
use proj.Base.{get_or, leb}
use proj.Paths.{delimiter, max_path}
use proj.Paths.Simplify.{close_entry}
use proj.Base.{if_intro}
use proj.Base.{List, Option, [], arith, length, none, some, true, ℕ, ◌+◌, ◌==◌, ◌∷◌, ◌≡◌, ◌≤◌}
use proj.Paths.Simplify.{add_entry, back_to_delimiter, up_directory}

-- The last of the bytes, which is the first of the path, is a delimiter.
abbrev pub IsRooted : List ℕ → Type 0
IsRooted [] = ⊥
IsRooted (c ∷ []) = c ≡ 47
IsRooted (c ∷ d ∷ s) = IsRooted (d ∷ s)

pub IsRooted-cons : (c : ℕ) (s : List ℕ) → IsRooted s → IsRooted (c ∷ s)
IsRooted-cons c [] h = elim h [ ]
IsRooted-cons c (d ∷ s) h = h

abbrev pub Fits : List ℕ → Type 0
Fits s = IsRooted s × (length s ≤ 256)

abbrev FitsIn : (bound : ℕ) → List ℕ → Type 0
FitsIn bound s = IsRooted s × (length s ≤ bound)

back_to_delimiter-FitsIn :
    (c : ℕ) (s : List ℕ) → IsRooted (c ∷ s) → FitsIn (length s + 1) (back_to_delimiter c s)
unfolding back_to_delimiter
back_to_delimiter-FitsIn c [] h =
    let yes_here : (c == 47) ≡ true = ground (arith, h) in rw yes_here (h, omega arith)
back_to_delimiter-FitsIn c (d ∷ s) h =
    let further = back_to_delimiter-FitsIn d s h in
    if_intro (FitsIn (length (d ∷ s) + 1)) (c == 47) (λ _. (h, omega arith))
      (λ _. (further.0, omega (arith, further.1)))

-- What `..` leaves, where it leaves anything.
abbrev pub AllOf : (List ℕ → Type 0) → Option (List ℕ) → Type 0
AllOf P none = Unit
AllOf P (some s) = P s

pub up_directory-Fits : (sim : List ℕ) → Fits sim → AllOf Fits (up_directory sim)
unfolding up_directory
up_directory-Fits [] h = tt
up_directory-Fits (c ∷ []) h =
    let (r, l) = back_to_delimiter-FitsIn c [] h.0 in
    if_intro (AllOf Fits) (c == 47) (λ _. tt) (λ _. (r, omega (arith, l)))
up_directory-Fits (c ∷ d ∷ s) h =
    let (r, l) = back_to_delimiter-FitsIn d s h.0 in
    let (r', l') = back_to_delimiter-FitsIn c (d ∷ s) h.0 in
    if_intro (AllOf Fits) (c == 47) (λ _. (r, omega (arith, l, h.1)))
      (λ _. (r', omega (arith, l', h.1)))

-- An entry that is added fits, and is taken from what was left of the relative path.
abbrev pub Added : (bound : ℕ) → Option (List ℕ × List ℕ) → Type 0
Added bound none = Unit
Added bound (some (sim, rest)) = Fits sim × (length rest ≤ bound)

Added-le : {a b : ℕ} (o : Option (List ℕ × List ℕ)) → a ≤ b → Added a o → Added b o
Added-le none h added = tt
Added-le (some (sim, rest)) h added = (added.0, omega (arith, h, added.1))

pub add_entry-Added :
    (sim : List ℕ) (c : ℕ) (cs : List ℕ) → IsRooted sim → Added (length cs) (add_entry sim (c ∷ cs))
unfolding add_entry
add_entry-Added sim c [] rooted =
    if_intro (Added 0) (leb max_path (length sim)) (λ _. tt)
      (λ short.
        let fits : Fits (c ∷ sim) = (IsRooted-cons c sim rooted, ground (arith, short)) in
        if_intro (Added 0) (c == delimiter) (λ _. (fits, omega arith)) (λ _. (fits, omega arith)))
add_entry-Added sim c (d ∷ cs) rooted =
    if_intro (Added (length (d ∷ cs))) (leb max_path (length sim)) (λ _. tt)
      (λ short.
        let fits : Fits (c ∷ sim) = (IsRooted-cons c sim rooted, ground (arith, short)) in
        if_intro (Added (length (d ∷ cs))) (c == delimiter) (λ _. (fits, omega arith))
          (λ _. Added-le _ (omega arith) (add_entry-Added (c ∷ sim) d cs fits.0)))

pub close_entry-IsRooted : (sim : List ℕ) → IsRooted sim → IsRooted (close_entry sim)
unfolding close_entry
close_entry-IsRooted sim h =
    if_intro IsRooted (get_or sim 0 0 == delimiter) (λ _. h) (λ _. IsRooted-cons delimiter sim h)
