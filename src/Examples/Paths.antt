-- ===== src/Examples/Paths.antt =====
-- Paths of VirtualMachineUtils.c: "/ab" is a directory and "c" a name.
use proj.Base.{List, [], arith, if◌then◌else◌, inr, length, refl, some, ℕ, ◌+◌, ◌<◌, ◌∷◌, ◌≡◌, ◌≢◌}
use proj.Base.Strings.{c_string}
use proj.Paths.{
  consolidate_loop, consolidate_path, delimiter_position, directory_from_full_path,
  file_from_full_path, is_absolute_path, is_one_of, is_relative_path, made, string_length,
  string_length_loop, valid_path_name,
}
use proj.Paths.Relative.{
  begin_path, count_names, end_path, match_prefix, path_is_on_mount, relative_path, route_from,
  write_updirectories,
}
use proj.Paths.Relative.Mount.{is_under, path_is_on_mount-is_under}
use proj.Paths.Simplify.{
  Entry, add_entry, back_to_delimiter, close_entry, entry_of, finish, simplify_loop, simplify_path,
  trim_last, up_directory,
}
use proj.Paths.Simplify.Parent.{Descends, simplify_path-Descends}
use proj.Paths.Simplify.Rooted.{IsSimple, simplify_path-IsSimple}
use proj.Paths.Splitting.{Splits, consolidate_path-Splits, ends_with}
use proj.Vm.State.{failure, invalid_parameter, success}

abbrev dir : List ℕ
dir = 47 ∷ 97 ∷ 98 ∷ []

abbrev file : List ℕ
file = 99 ∷ []

abbrev path : List ℕ
path = 47 ∷ 97 ∷ 98 ∷ 47 ∷ 99 ∷ []

consolidate_run : consolidate_path dir file ≡ made path
unfolding consolidate_path consolidate_loop string_length string_length_loop
consolidate_run = refl

split_run : (directory_from_full_path path ≡ made dir) × (file_from_full_path path ≡ made file)
unfolding directory_from_full_path file_from_full_path delimiter_position
split_run = (refl, refl)

-- "../c/./d" from "/ab" is "/c/d".
simplify_run :
    simplify_path dir (46 ∷ 46 ∷ 47 ∷ 99 ∷ 47 ∷ 46 ∷ 47 ∷ 100 ∷ []) ≡ made (47 ∷ 99 ∷ 47 ∷ 100 ∷ [])
unfolding simplify_path simplify_loop finish trim_last up_directory back_to_delimiter add_entry
    close_entry entry_of
simplify_run = refl

-- "/ab/c" from "/ab" is "./c", and "/x" is "../x".
relative_run :
    (relative_path dir path ≡ (success, 46 ∷ 47 ∷ 99 ∷ []))
    × (relative_path dir (47 ∷ 120 ∷ []) ≡ (success, 46 ∷ 46 ∷ 47 ∷ 120 ∷ []))
unfolding relative_path route_from match_prefix end_path begin_path write_updirectories count_names
    string_length string_length_loop
relative_run = (refl, refl)

valid_run : (valid_path_name path ≡ success) × (valid_path_name (97 ∷ 42 ∷ []) ≡ invalid_parameter)
unfolding valid_path_name is_one_of
valid_run = (refl, refl)

relative_status_run :
    (is_relative_path file ≡ success) × (is_absolute_path file ≡ invalid_parameter)
unfolding is_relative_path is_absolute_path
relative_status_run = (refl, refl)

dir_absolute : is_absolute_path dir ≡ success
unfolding is_absolute_path
dir_absolute = refl

is_a_name : entry_of file ≡ Entry.named
unfolding entry_of
is_a_name = refl

inner : ends_with 47 (97 ∷ 98 ∷ []) ≢ 47
inner e = omega (arith, e)

consolidate_path-Splits_example : Splits dir file (consolidate_path dir file)
consolidate_path-Splits_example =
    consolidate_path-Splits dir file (inr inner) (omega arith, tt) (omega arith)

simplify_path-IsSimple_example : IsSimple (simplify_path dir (46 ∷ 46 ∷ []))
simplify_path-IsSimple_example = simplify_path-IsSimple dir (46 ∷ 46 ∷ [])

simplify_path-Descends_example : Descends dir file (simplify_path dir file)
simplify_path-Descends_example =
    simplify_path-Descends dir 99 [] dir_absolute (inr inner) (omega arith, tt) is_a_name
      (omega arith)

path_is_on_mount-is_under_example :
    path_is_on_mount [] (some dir) path ≡ some (if is_under dir path then success else failure)
path_is_on_mount-is_under_example =
    path_is_on_mount-is_under [] (97 ∷ 98 ∷ []) (97 ∷ 98 ∷ 47 ∷ 99 ∷ []) inner (omega arith)

-- "ab" in a buffer of 5 bytes, and "c" behind it.
abbrev held : List ℕ
held = 97 ∷ 98 ∷ 0 ∷ 7 ∷ 7 ∷ []

held_string : length (c_string held) + length file < length held
unfolding c_string
held_string = omega arith
