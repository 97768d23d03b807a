-- ===== src/Paths.antt =====
-- VirtualMachineUtils.c: strings and paths. A string of C is the list of its bytes up to the NUL, so
-- that `path[Index]` behind the last byte is 0. A path function gives its status and, where it
-- succeeds, the string that it leaves in the caller's buffer.
use proj.Base.{
  All, Bool, List, Option, [], drop, false, get_or, if◌then◌else◌, leb, length, none, some, take, ℕ,
  ◌++◌, ◌+◌, ◌-◌, ◌==◌, ◌||◌, ◌∷◌, ◌≢◌,
}
use proj.Base.Words.{add32}
use proj.Vm.State.{Status, invalid_parameter, success}
pub mod Copying
pub mod Splitting
pub mod Simplify
pub mod Relative

-- VM_FILE_SYSTEM_MAX_PATH and VM_FILE_SYSTEM_DIRECTORY_DELIMETER.
abbrev pub max_path : ℕ
max_path = 256

abbrev pub delimiter : ℕ
delimiter = 47

abbrev pub period : ℕ
period = 46

abbrev pub Made : Type 0
Made = Status × Option (List ℕ)

abbrev pub made : List ℕ → Made
made s = (success, some s)

abbrev pub refused : Status → Made
refused status = (status, none)

-- No entry is the delimiter.
abbrev pub IsName : List ℕ → Type 0
IsName = All (λ c. c ≢ 47)

unfoldable pub string_length_loop : List ℕ → (length_ : ℕ) → ℕ
string_length_loop [] n = n
string_length_loop (c ∷ cs) n = string_length_loop cs (add32 n 1)

unfoldable pub string_length : List ℕ → ℕ
unfolding string_length_loop
string_length s = string_length_loop s 0

-- InvalidCharacters: \ ? * < > |
abbrev pub invalid_characters : List ℕ
invalid_characters = 92 ∷ 63 ∷ 42 ∷ 60 ∷ 62 ∷ 124 ∷ []

unfoldable pub is_one_of : ℕ → List ℕ → Bool
is_one_of c [] = false
is_one_of c (x ∷ xs) = x == c || is_one_of c xs

unfoldable pub valid_path_name : List ℕ → Status
unfolding is_one_of
valid_path_name [] = success
valid_path_name (c ∷ cs) =
    let rest = valid_path_name cs in
    if is_one_of c invalid_characters then invalid_parameter else rest

unfoldable pub is_relative_path : List ℕ → Status
is_relative_path name = if get_or name 0 0 == delimiter then invalid_parameter else success

unfoldable pub is_absolute_path : List ℕ → Status
is_absolute_path name = if get_or name 0 0 == delimiter then success else invalid_parameter

-- The position of the last delimiter; `none` stands for -1.
unfoldable pub delimiter_position : List ℕ → (index : ℕ) → Option ℕ → Option ℕ
delimiter_position [] index found = found
delimiter_position (c ∷ cs) index found =
    delimiter_position cs (index + 1) (if c == delimiter then some index else found)

unfoldable pub directory_from_full_path : List ℕ → Made
directory_from_full_path path = elim (delimiter_position path 0 none) [
  | none ↦ made []
  | some position ↦
      if leb max_path position
      then refused invalid_parameter
      else if position == 0
      then made (delimiter ∷ [])
      else made (take position path)
]

unfoldable pub file_from_full_path : List ℕ → Made
file_from_full_path path = elim (delimiter_position path 0 none) [
  | none ↦ if leb max_path (length path) then refused invalid_parameter else made path
  | some position ↦
      if leb max_path (length path - position - 1)
      then refused invalid_parameter
      else made (drop (position + 1) path)
]

-- The loop over the directory's name. The results are `Index` and `DelimeterWasLast`; `none` where
-- the name is too long.
unfoldable pub consolidate_loop : List ℕ → (index : ℕ) → (was_last : Bool) → Option (ℕ × Bool)
consolidate_loop [] index was_last = some (index, was_last)
consolidate_loop (c ∷ cs) index was_last =
    let rest = consolidate_loop cs (index + 1) (c == delimiter) in
    if index == max_path - 1 then none else rest

unfoldable pub consolidate_path : (dirname filename : List ℕ) → Made
consolidate_path dirname filename = elim (consolidate_loop dirname 0 false) [
  | none ↦ refused invalid_parameter
  | some (index, was_last) ↦
      let between = if was_last then [] else delimiter ∷ [] in
      if leb max_path (add32 (string_length filename) (index + length between))
      then refused invalid_parameter
      else made (dirname ++ (between ++ filename))
]
