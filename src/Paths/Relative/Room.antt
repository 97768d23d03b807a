-- ===== src/Paths/Relative/Room.antt =====
-- The bytes that `VMFileSystemRelativePath` (VirtualMachineUtils.c) writes.
use proj.Vm.State.{Status, failure}
use proj.Base.{
  Bool-cases, List, Option, Option-cases, [], ap, arith, drop, false, get_or, if_intro,
  if◌then◌else◌, inl, inr, leb, length, length-append, length-drop, none, refl, some, subst, suc,
  zero, ℕ, ◌&&◌, ◌++◌, ◌+◌, ◌==◌, ◌||◌, ◌∙◌, ◌∷◌, ◌≡◌, ◌≤◌,
}
use proj.Base.Words.{add32}
use proj.Paths.{delimiter, max_path, period, string_length}
use proj.Paths.Relative.{
  Matched, begin_path, end_path, match_prefix, overruns, relative_path, route_from,
  write_updirectories,
}
use native.Mathlib.Nat.{mod-eq_of_lt}
use proj.Paths.Splitting.{string_length_lem}

-- `RelPathLength` is the number of bytes written, or they are too many.
abbrev IsTight : Option ℕ × List ℕ → Type 0
IsTight (none, written) = length written ≤ 255
IsTight (some n, written) = (length written ≡ n) × (n ≤ 255)

write_updirectories-IsTight :
    (up len : ℕ) (written : List ℕ)
    → length written ≡ len
    → len ≤ 255
    → IsTight (write_updirectories up len written)
unfolding write_updirectories
write_updirectories-IsTight zero len written same small = (same, small)
write_updirectories-IsTight (suc up) len written same small =
    let up_text = period ∷ period ∷ delimiter ∷ [] in
    elim (Bool-cases (leb max_path (len + 3))) [
      | inl e ↦ rw (e, IsTight) (omega (arith, same, small))
      | inr e ↦
          rw (e, IsTight)
            (write_updirectories-IsTight up (len + 3) (written ++ up_text)
              (omega (arith, same, length-append {0} written up_text)) (ground (arith, e)))
    ]

end_path_tight :
    (dest : List ℕ) (r : Option ℕ × List ℕ)
    → IsTight r
    → length dest ≤ 253
    → overruns (end_path dest r) ≡ false
unfolding end_path overruns
end_path_tight dest (none, written) tight short = ground (arith, tight)
end_path_tight dest (some n, written) tight short =
    let size = string_length_lem dest (omega (arith, short)) in
    elim (Bool-cases (leb max_path (add32 (string_length dest) n))) [
      | inl e ↦ rw e (ground (arith, tight))
      | inr e ↦
          let sum : add32 (length dest) n ≡ length dest + n =
            mod-eq_of_lt (omega (arith, short, tight)) in
          let fits : leb max_path (length dest + n) ≡ false =
            subst (λ k. leb max_path k ≡ false) (ap (λ k. add32 k n) size ∙ sum) e in
          rw e (ground (arith, fits, tight, length-append {0} written dest))
    ]

end_path_direct :
    (dest : List ℕ) → length dest ≤ 253 → overruns (end_path dest (begin_path 0)) ≡ false
unfolding end_path overruns begin_path
end_path_direct dest short = elim (Bool-cases (leb max_path (add32 (string_length dest) 0))) [
  | inl e ↦ rw e refl
  | inr e ↦ rw e (ground (arith, short))
]

begun :
    (dest : List ℕ) (up : ℕ) → length dest ≤ 253 → overruns (end_path dest (begin_path up)) ≡ false
unfolding begin_path
begun dest zero short = end_path_direct dest short
begun dest (suc up) short =
    let some_up : (suc up == 0) ≡ false = ground arith in
    rw (begin_path, some_up)
      (end_path_tight dest (write_updirectories (suc up) 0 [])
        (write_updirectories-IsTight (suc up) 0 [] refl (omega arith)) short)

length-dest_left :
    (bs ds : List ℕ) (index : ℕ) (position : Option ℕ)
    → length (match_prefix bs ds index position).dest_left ≤ length ds
unfolding match_prefix
length-dest_left [] ds index position = omega arith
length-dest_left (b ∷ bs) [] index position = omega arith
length-dest_left (b ∷ bs) (d ∷ ds) index position = elim (Bool-cases (b == d)) [
  | inl e ↦ rw e (
      omega (
        arith,
        length-dest_left bs ds (index + 1) (if b == delimiter then some index else position),
      ))
  | inr e ↦ rw e (omega arith)
]

abbrev IsShort : Option (ℕ × List ℕ) → Type 0
IsShort none = Unit {0}
IsShort (some (up, dest)) = length dest ≤ 253

route_from-IsShort :
    (base dest : List ℕ) (m : Matched)
    → length dest ≤ 253
    → length m.dest_left ≤ length dest
    → IsShort (route_from base dest m)
unfolding route_from
route_from-IsShort base dest m short left =
    if_intro IsShort
      (length m.base_left == 0 && (get_or m.dest_left 0 0 == delimiter || length m.dest_left == 0))
      (λ _. omega (arith, left, short))
      (λ _. elim (Option-cases m.position) [
        | inl e ↦ rw e (if_intro IsShort (get_or dest 0 0 == delimiter) (λ _. tt) (λ _. short))
        | inr (p, e) ↦ rw e (omega (arith, short, length-drop p dest))
      ])

-- What is done with a route.
abbrev pub follow : Option (ℕ × List ℕ) → Status × List ℕ
follow none = (failure, [])
follow (some (updirectories, dest)) =
    end_path (if get_or dest 0 0 == delimiter then drop 1 dest else dest) (begin_path updirectories)

follow-fits : (o : Option (ℕ × List ℕ)) → IsShort o → overruns (follow o) ≡ false
unfolding overruns
follow-fits none small = refl
follow-fits (some (up, rest)) small =
    begun (if get_or rest 0 0 == delimiter then drop 1 rest else rest) up (
      if_intro (λ (l : List ℕ). length l ≤ 253) (get_or rest 0 0 == delimiter)
        (λ _. omega (arith, small, length-drop 1 rest)) (λ _. small))

-- No byte behind a buffer of 256 is written where the path has at most 253 bytes.
pub overruns-relative_path :
    (base dest : List ℕ) → length dest ≤ 253 → overruns (relative_path base dest) ≡ false
unfolding relative_path
overruns-relative_path base dest short =
    follow-fits (route_from base dest (match_prefix base dest 0 none)) (
      route_from-IsShort base dest (match_prefix base dest 0 none) short
        (length-dest_left base dest 0 none))
