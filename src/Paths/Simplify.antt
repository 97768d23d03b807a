-- ===== src/Paths/Simplify.antt =====
-- `VMFileSystemSimplifyPath` and `VMFileSystemGetAbsolutePath` (VirtualMachineUtils.c). The path that
-- is built, the first `SimpathLength` bytes of `simpath`, is held with its last byte first.
use proj.Vm.State.{insufficient_resources}
use proj.Base.{reverse}
use proj.Base.{
  List, Option, [], drop, get_or, if◌then◌else◌, leb, length, ltb, none, not, some, suc, zero, ℕ,
  ◌==◌, ◌∷◌,
}
use proj.Paths.{Made, delimiter, period, is_absolute_path, made, max_path, refused}
use proj.Vm.State.{Status, failure, invalid_parameter, success}
pub mod Entries
pub mod Rooted
pub mod Names
pub mod Parent

-- `unfinished` is for fuel that runs out; the code has no such outcome.
pub data Simplified : Type 0 where
  simplified : List ℕ → Simplified
  stopped : Status → Simplified
  unfinished : Simplified

-- The loop back to a delimiter, from the byte `c` at `SimpathLength` with the others before it. The
-- delimiter stays.
unfoldable pub back_to_delimiter : (c : ℕ) → List ℕ → List ℕ
back_to_delimiter c [] = if c == delimiter then c ∷ [] else []
back_to_delimiter c (d ∷ before) =
    let further = back_to_delimiter d before in if c == delimiter then c ∷ d ∷ before else further

-- The entry `..`: the last name goes; `none` where there is none.
unfoldable pub up_directory : List ℕ → Option (List ℕ)
up_directory [] = none
up_directory (c ∷ []) = if c == delimiter then none else some (back_to_delimiter c [])
up_directory (c ∷ d ∷ before) =
    if c == delimiter
    then some (back_to_delimiter d before)
    else some (back_to_delimiter c (d ∷ before))

-- The loop that adds an entry, with the delimiter behind it. The results are the path and the rest of
-- `relpath`; `none` where the path is too long.
unfoldable pub add_entry : (sim relpath : List ℕ) → Option (List ℕ × List ℕ)
add_entry sim [] = some (sim, [])
add_entry sim (c ∷ cs) =
    let rest = add_entry (c ∷ sim) cs in
    if leb max_path (length sim) then none else if c == delimiter then some (c ∷ sim, cs) else rest

-- A delimiter behind the path, unless there is one.
unfoldable pub close_entry : List ℕ → List ℕ
close_entry sim = if get_or sim 0 0 == delimiter then sim else delimiter ∷ sim

-- What the beginning of `relpath` is.
pub data Entry : Type 0 where
  parent_last parent current_last current named : Entry

unfoldable pub entry_of : List ℕ → Entry
entry_of relpath =
    let c = get_or relpath 1 0 in
    let d = get_or relpath 2 0 in
    if get_or relpath 0 0 == period
    then (if c == period
        then (if d == 0
            then Entry.parent_last
            else if d == delimiter
            then Entry.parent
            else Entry.named)
        else if c == 0
        then Entry.current_last
        else if c == delimiter
        then Entry.current
        else Entry.named)
    else Entry.named

unfoldable pub simplify_loop : (fuel : ℕ) → (sim relpath : List ℕ) → Simplified
simplify_loop fuel sim [] = Simplified.simplified sim
simplify_loop zero sim (c ∷ cs) = Simplified.unfinished
simplify_loop (suc fuel) sim (c ∷ cs) =
    let relpath = c ∷ cs in
    elim (entry_of relpath) [
      | Entry.parent_last ↦ elim (up_directory sim) [
        | none ↦ Simplified.stopped failure
        | some up ↦ Simplified.simplified up
      ]
      | Entry.parent ↦ elim (up_directory sim) [
        | none ↦ Simplified.stopped failure
        | some up ↦ simplify_loop fuel up (drop 3 relpath)
      ]
      | Entry.current_last ↦ Simplified.simplified sim
      | Entry.current ↦ simplify_loop fuel sim (drop 2 relpath)
      | Entry.named ↦ elim (add_entry (close_entry sim) relpath) [
        | none ↦ Simplified.stopped invalid_parameter
        | some (added, rest) ↦ simplify_loop fuel added rest
      ]
    ]

-- A delimiter at the end goes, unless it is the whole path.
unfoldable pub trim_last : List ℕ → List ℕ
trim_last [] = []
trim_last (c ∷ []) = c ∷ []
trim_last (c ∷ d ∷ before) = if c == delimiter then d ∷ before else c ∷ d ∷ before

unfoldable pub finish : Simplified → Made
finish (Simplified.simplified sim) = made (reverse (trim_last sim))
finish (Simplified.stopped status) = refused status
finish Simplified.unfinished = refused insufficient_resources

unfoldable pub simplify_path : (abspath relpath : List ℕ) → Made
simplify_path abspath relpath =
    if get_or relpath 0 0 == delimiter
    then refused invalid_parameter
    else if not (get_or abspath 0 0 == delimiter)
    then refused invalid_parameter
    else if ltb max_path (length abspath)
    then refused invalid_parameter
    else finish (simplify_loop (length relpath) (reverse abspath) relpath)

unfoldable pub get_absolute_path : (curpath destpath : List ℕ) → Made
get_absolute_path curpath destpath = elim (is_absolute_path destpath) [
  | success ↦ made destpath
  | _ ↦ simplify_path curpath destpath
]
