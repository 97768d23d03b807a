-- ===== src/Paths/Simplify/Names.antt =====
-- One name under a directory, entry by entry (`VMFileSystemSimplifyPath`, VirtualMachineUtils.c).
use proj.Base.{sym}
use proj.Paths.Splitting.{consolidate_inner, consolidate_root}
use mathlib.Core.List.{reverse-cons, append_assoc}
use proj.Base.{if◌then◌else◌, subst, ◌<◌, ◌∙◌, ◌≢◌}
use proj.Paths.{consolidate_path, made}
use proj.Paths.Simplify.Rooted.{length-reverse_aux}
use mathlib.Core.List.{reverse-reverse}
use mathlib.Core.List.{reverse_aux}
use proj.Base.{
  List, [], ap, arith, false, get_or, inl, inr, leb, length, refl, reverse, some, ℕ, ◌++◌, ◌+◌,
  ◌==◌, ◌∷◌, ◌≡◌, ◌≤◌,
}
use proj.Paths.{IsName, delimiter, max_path}
use proj.Paths.Simplify.{add_entry, back_to_delimiter, close_entry, trim_last, up_directory}
use proj.Paths.Splitting.{IsDirectory, ends_with}

pub add_entry_name :
    (sim name : List ℕ)
    → IsName name
    → length sim + length name ≤ 256
    → add_entry sim name ≡ some (reverse_aux name sim, [])
unfolding add_entry
add_entry_name sim [] h short = refl
add_entry_name sim (c ∷ cs) (hc, h) short =
    let fits : leb max_path (length sim) ≡ false = ground (arith, short) in
    let other : (c == delimiter) ≡ false = ground (arith, hc) in
    rw (fits, other) (add_entry_name (c ∷ sim) cs h (omega (arith, short)))

back_to_delimiter_name :
    (x : ℕ) (s b : List ℕ)
    → IsName (x ∷ s)
    → back_to_delimiter x (s ++ (delimiter ∷ b)) ≡ delimiter ∷ b
unfolding back_to_delimiter
back_to_delimiter_name x [] [] (hx, h) =
    let other : (x == delimiter) ≡ false = ground (arith, hx) in rw other refl
back_to_delimiter_name x [] (d ∷ b) (hx, h) =
    let other : (x == delimiter) ≡ false = ground (arith, hx) in rw other refl
back_to_delimiter_name x (y ∷ s) b (hx, h) =
    let other : (x == delimiter) ≡ false = ground (arith, hx) in
    rw other (back_to_delimiter_name y s b h)

up_directory_other :
    (x d : ℕ) (b : List ℕ) → x ≢ 47 → up_directory (x ∷ d ∷ b) ≡ some (back_to_delimiter x (d ∷ b))
unfolding up_directory
up_directory_other x d b h =
    let other : (x == delimiter) ≡ false = ground (arith, h) in rw other refl

-- `..` takes a name away.
pub up_directory_name :
    (x : ℕ) (s b : List ℕ)
    → IsName (x ∷ s)
    → up_directory (x ∷ (s ++ (delimiter ∷ b))) ≡ some (delimiter ∷ b)
up_directory_name x [] b h =
    up_directory_other x delimiter b h.0 ∙ ap some (back_to_delimiter_name x [] b h)
up_directory_name x (y ∷ s) b h =
    up_directory_other x y (s ++ (delimiter ∷ b)) h.0
    ∙ ap some (back_to_delimiter_name x (y ∷ s) b h)

pub IsName-reverse_aux : (s t : List ℕ) → IsName s → IsName t → IsName (reverse_aux s t)
IsName-reverse_aux [] t hs ht = ht
IsName-reverse_aux (c ∷ s) t (hc, hs) ht = IsName-reverse_aux s (c ∷ t) hs (hc, ht)

pub get_or-reverse_aux :
    (c : ℕ) (cs r : List ℕ) → get_or (reverse_aux (c ∷ cs) r) 0 0 ≡ ends_with c cs
get_or-reverse_aux c [] r = refl
get_or-reverse_aux c (d ∷ cs) r = get_or-reverse_aux d cs (c ∷ r)

-- The path of a directory with the delimiter that names follow, last byte first, and what is left when
-- the delimiter is taken away again.
abbrev pub Closed : List ℕ → List ℕ → Type 0
Closed dir b =
    (close_entry (reverse dir) ≡ delimiter ∷ b)
    × (reverse (trim_last (delimiter ∷ b)) ≡ dir)
    × (length b ≤ length dir)
    × ((name : List ℕ)
        → length dir + length name < 255
        → consolidate_path dir name ≡ made (reverse (delimiter ∷ b) ++ name))

trim_closed : (s : List ℕ) → 0 < length s → trim_last (delimiter ∷ s) ≡ s
unfolding trim_last
trim_closed [] h = elim h [ ]
trim_closed (c ∷ s) h = refl

pub directory-Closed : (dir : List ℕ) → IsDirectory dir → (b : List ℕ) × Closed dir b
unfolding close_entry trim_last
directory-Closed [] h = elim h [ ]
directory-Closed (c ∷ cs) (inl (is_root, alone)) =
    let root : delimiter ∷ [] ≡ c ∷ cs = rw (is_root, alone) refl in
    subst (λ dir. (b : List ℕ) × Closed dir b) root
      ([], (refl, refl, omega arith, λ name short. consolidate_root name (omega (arith, short))))
directory-Closed (c ∷ cs) (inr inner) =
    let end = get_or-reverse_aux c cs [] in
    let open_end : (get_or (reverse (c ∷ cs)) 0 0 == delimiter) ≡ false =
      ground (arith, inner, end) in
    let long = length-reverse_aux (c ∷ cs) [] in
    let ended : reverse (delimiter ∷ reverse (c ∷ cs)) ≡ c ∷ (cs ++ (delimiter ∷ [])) =
      reverse-cons delimiter (reverse (c ∷ cs))
      ∙ ap (λ t. t ++ (delimiter ∷ [])) (reverse-reverse (c ∷ cs)) in
    (
      reverse (c ∷ cs),
      (
        ap (λ t. if t then reverse (c ∷ cs) else delimiter ∷ reverse (c ∷ cs)) open_end,
        ap reverse (trim_closed (reverse (c ∷ cs)) (omega (arith, long)))
            ∙ reverse-reverse (c ∷ cs),
        omega (arith, long),
        λ name short.
            consolidate_inner c cs name inner short
            ∙ ap made
                (sym (ap (λ t. t ++ name) ended ∙ append_assoc (c ∷ cs) (delimiter ∷ []) name)),
      ),
    )
