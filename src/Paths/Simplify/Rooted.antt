-- ===== src/Paths/Simplify/Rooted.antt =====
-- The path that `VMFileSystemSimplifyPath` (VirtualMachineUtils.c) builds begins with a delimiter and
-- has at most 256 bytes, and the loop ends.
use proj.Paths.Simplify.Entries.{Fits}
use proj.Paths.Simplify.Entries.{
  Added, AllOf, IsRooted, IsRooted-cons, add_entry-Added, close_entry-IsRooted, up_directory-Fits,
}
use proj.Base.{Bool-cases, inl, inr, ltb, not, refl, subst, sym, ◌⊎◌}
use proj.Paths.{made}
use proj.Paths.Simplify.{get_absolute_path}
use proj.Vm.State.{insufficient_resources, invalid_id, invalid_state}
use mathlib.Core.List.{reverse-cons}
use proj.Base.{length-drop, suc, zero, ◌++◌}
use proj.Paths.{Made, is_absolute_path}
use proj.Paths.Simplify.{finish, simplify_loop, simplify_path, trim_last}
use proj.Vm.State.{success}
use mathlib.Core.List.{reverse_aux}
use proj.Base.{drop, get_or}
use proj.Paths.{delimiter, max_path}
use proj.Paths.Simplify.{Entry, Simplified, close_entry, entry_of}
use proj.Vm.State.{failure, invalid_parameter}
use proj.Base.{if_intro}
use proj.Base.{List, Option, [], arith, length, none, some, ℕ, ◌+◌, ◌==◌, ◌∷◌, ◌≡◌, ◌≤◌}
use proj.Paths.Simplify.{add_entry, up_directory}
use proj.Base.{reverse}

-- The loop ends, with a path that fits or a status of the code's.
abbrev Ended : Simplified → Type 0
Ended (Simplified.simplified sim) = Fits sim
Ended (Simplified.stopped failure) = Unit
Ended (Simplified.stopped invalid_parameter) = Unit
Ended (Simplified.stopped status) = ⊥
Ended Simplified.unfinished = ⊥

-- One round, with the loop's later rounds as a function.
round-Ended :
    (later : List ℕ → List ℕ → Simplified) (c : ℕ) (cs sim : List ℕ) (entry : Entry)
    (up : Option (List ℕ)) (adds : Option (List ℕ × List ℕ))
    → Fits sim
    → AllOf Fits up
    → Added (length cs) adds
    → ((s r : List ℕ) → Fits s → length r ≤ length cs → Ended (later s r))
    → Ended (elim entry [
      | Entry.parent_last ↦ elim up [
        | none ↦ Simplified.stopped failure
        | some s ↦ Simplified.simplified s
      ]
      | Entry.parent ↦ elim up [
        | none ↦ Simplified.stopped failure
        | some s ↦ later s (drop 3 (c ∷ cs))
      ]
      | Entry.current_last ↦ Simplified.simplified sim
      | Entry.current ↦ later sim (drop 2 (c ∷ cs))
      | Entry.named ↦ elim adds [
        | none ↦ Simplified.stopped invalid_parameter
        | some (s, rest) ↦ later s rest
      ]
    ])
round-Ended later c cs sim Entry.parent_last none adds h hu ha ended = tt
round-Ended later c cs sim Entry.parent_last (some s) adds h hu ha ended = hu
round-Ended later c cs sim Entry.parent none adds h hu ha ended = tt
round-Ended later c cs sim Entry.parent (some s) adds h hu ha ended =
    ended s (drop 2 cs) hu (omega (arith, length-drop 2 cs))
round-Ended later c cs sim Entry.current_last up adds h hu ha ended = h
round-Ended later c cs sim Entry.current up adds h hu ha ended =
    ended sim (drop 1 cs) h (omega (arith, length-drop 1 cs))
round-Ended later c cs sim Entry.named up none h hu ha ended = tt
round-Ended later c cs sim Entry.named up (some (s, rest)) h hu ha ended = ended s rest ha.0 ha.1

simplify_loop-Ended :
    (fuel : ℕ) (sim relpath : List ℕ)
    → Fits sim
    → length relpath ≤ fuel
    → Ended (simplify_loop fuel sim relpath)
unfolding simplify_loop
simplify_loop-Ended fuel sim [] h enough = h
simplify_loop-Ended zero sim (c ∷ cs) h enough = elim enough [ ]
simplify_loop-Ended (suc fuel) sim (c ∷ cs) h enough =
    round-Ended (simplify_loop fuel) c cs sim (entry_of (c ∷ cs)) (up_directory sim)
      (add_entry (close_entry sim) (c ∷ cs)) h (up_directory-Fits sim h)
      (add_entry-Added (close_entry sim) c cs (close_entry-IsRooted sim h.0))
      (λ s r hs short. simplify_loop-Ended fuel s r hs (omega (arith, short, enough)))

trim_last-Fits : (sim : List ℕ) → Fits sim → Fits (trim_last sim)
unfolding trim_last
trim_last-Fits [] h = h
trim_last-Fits (c ∷ []) h = h
trim_last-Fits (c ∷ d ∷ s) h =
    if_intro Fits (c == delimiter) (λ _. (h.0, omega (arith, h.1))) (λ _. h)

-- A path of at most 256 bytes that begins with the delimiter, or a status that the function gives.
abbrev pub IsSimple : Made → Type 0
IsSimple (success, some p) = (is_absolute_path p ≡ success) × (length p ≤ 256)
IsSimple (failure, none) = Unit
IsSimple (invalid_parameter, none) = Unit
IsSimple _ = ⊥

reverse_aux-IsRooted :
    (c : ℕ) (s r : List ℕ) → IsRooted (c ∷ s) → get_or (reverse_aux (c ∷ s) r) 0 0 ≡ 47
reverse_aux-IsRooted c [] r h = h
reverse_aux-IsRooted c (d ∷ s) r h = reverse_aux-IsRooted d s (c ∷ r) h

pub length-reverse_aux : (s r : List ℕ) → length (reverse_aux s r) ≡ length s + length r
length-reverse_aux [] r = omega arith
length-reverse_aux (c ∷ s) r = omega (arith, length-reverse_aux s (c ∷ r))

reverse-IsSimple : (s : List ℕ) → Fits s → IsSimple (made (reverse s))
unfolding is_absolute_path
reverse-IsSimple [] h = elim h.0 [ ]
reverse-IsSimple (c ∷ s) h =
    let front = reverse_aux-IsRooted c s [] h.0 in
    (rw front refl, omega (arith, h.1, length-reverse_aux (c ∷ s) []))

finish-IsSimple : (x : Simplified) → Ended x → IsSimple (finish x)
unfolding finish
finish-IsSimple (Simplified.simplified sim) h =
    reverse-IsSimple (trim_last sim) (trim_last-Fits sim h)
finish-IsSimple (Simplified.stopped failure) h = tt
finish-IsSimple (Simplified.stopped invalid_parameter) h = tt
finish-IsSimple (Simplified.stopped success) h = elim h [ ]
finish-IsSimple (Simplified.stopped invalid_id) h = elim h [ ]
finish-IsSimple (Simplified.stopped invalid_state) h = elim h [ ]
finish-IsSimple (Simplified.stopped insufficient_resources) h = elim h [ ]
finish-IsSimple Simplified.unfinished h = elim h [ ]

IsRooted-append : (s : List ℕ) (c : ℕ) → c ≡ 47 → IsRooted (s ++ (c ∷ []))
IsRooted-append [] c h = h
IsRooted-append (d ∷ s) c h = IsRooted-cons d (s ++ (c ∷ [])) (IsRooted-append s c h)

reverse-IsRooted : (s : List ℕ) → get_or s 0 0 ≡ 47 → IsRooted (reverse s)
reverse-IsRooted [] h = absurd (omega (arith, h))
reverse-IsRooted (c ∷ s) h =
    subst IsRooted (sym (reverse-cons c s)) (IsRooted-append (reverse s) c h)

-- For any two strings VMFileSystemSimplifyPath ends, either with an absolute path of at most 256
-- bytes or with VM_STATUS_FAILURE or VM_STATUS_ERROR_INVALID_PARAMETER; its loop never needs more
-- rounds than the relative path has bytes.
pub simplify_path-IsSimple : (abspath relpath : List ℕ) → IsSimple (simplify_path abspath relpath)
unfolding simplify_path
simplify_path-IsSimple abspath relpath =
    if_intro IsSimple (get_or relpath 0 0 == delimiter) (λ _. tt)
      (λ _.
        if_intro IsSimple (not (get_or abspath 0 0 == delimiter)) (λ _. tt)
          (λ absolute.
            if_intro IsSimple (ltb max_path (length abspath)) (λ _. tt)
              (λ short.
                let fits : Fits (reverse abspath) = (
                  reverse-IsRooted abspath (ground (arith, absolute)),
                  ground (arith, short, length-reverse_aux abspath []),
                ) in
                finish-IsSimple _ (simplify_loop-Ended _ _ relpath fits (omega arith)))))

-- An absolute path is taken as it is, whatever its length.
pub get_absolute_path_lem :
    (curpath destpath : List ℕ)
    → ((is_absolute_path destpath ≡ success) × (get_absolute_path curpath destpath ≡ made destpath))
      ⊎ ((is_absolute_path destpath ≡ invalid_parameter)
          × IsSimple (get_absolute_path curpath destpath))
unfolding is_absolute_path get_absolute_path
get_absolute_path_lem curpath destpath = elim (Bool-cases (get_or destpath 0 0 == delimiter)) [
  | inl absolute ↦ inl (rw absolute refl, rw (absolute, get_absolute_path) refl)
  | inr relative ↦
      inr (
        rw relative refl,
        rw (relative, get_absolute_path) (simplify_path-IsSimple curpath destpath),
      )
]
