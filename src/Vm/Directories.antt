-- ===== src/Vm/Directories.antt =====
-- The directory calls of VirtualMachine.cpp, and the class of Dir.cpp. A path is the list of its
-- characters, without the final NUL.
pub mod Listing
use proj.Base.{
  ℕ, ◌+◌, Bool, ◌&&◌, ◌||◌, List, [], ◌∷◌, ◌++◌, Option, none, some, ◌==◌, if◌then◌else◌, take,
}
use proj.Base.Int.{ℤ, pos, ◌==ℤ◌}
use proj.Base.Words.{null, add32, mul32}
use proj.Fat.Entries.{DirEntry, fill_dir_ent}
use proj.Fat.Image.{FatData, get_data_start_byte, get_file_start, get_cluster_size, get_root_ent}
use proj.Base.Strings.{string_eq}
use proj.Vm.State.{
  Vm, Dir, Reply, Outcome, returned, undefined, success, failure, invalid_parameter, invalid_id,
  suspend, resume,
}

abbrev pub dot : List ℕ
dot = b'.' ∷ []

abbrev pub slash : List ℕ
slash = b'/' ∷ []

abbrev pub dot_slash : List ℕ
dot_slash = b'.' ∷ b'/' ∷ []

abbrev pub dot_dot : List ℕ
dot_dot = b'.' ∷ b'.' ∷ []

abbrev pub slash_apps : List ℕ
slash_apps = b'/' ∷ b'a' ∷ b'p' ∷ b'p' ∷ b's' ∷ []

unfoldable pub names_root : List ℕ → Bool
names_root name =
    string_eq name dot || string_eq name slash || string_eq name dot_slash || string_eq name []

-- `findDir`.
unfoldable pub find_dir : (dirdescriptor : ℤ) → List Dir → Option Dir
find_dir d [] = none
find_dir d (x ∷ xs) = let rest = find_dir d xs in if x.dirdesc ==ℤ d then some x else rest

-- A change of the object that `findDir` returned, in place.
unfoldable pub change_dir_at : (dirdescriptor : ℤ) → (Dir → Dir) → List Dir → List Dir
change_dir_at d change [] = []
change_dir_at d change (x ∷ xs) =
    let rest = change_dir_at d change xs in if x.dirdesc ==ℤ d then change x ∷ xs else x ∷ rest

unfoldable pub erase_dir : (dirdescriptor : ℤ) → List Dir → List Dir
erase_dir d [] = []
erase_dir d (x ∷ xs) = let rest = erase_dir d xs in if x.dirdesc ==ℤ d then xs else x ∷ rest

module _ (read_at : ℕ → ℕ → List ℕ) (blank : DirEntry) (junk : ℤ) where
  -- `Dir::Dir`. `blank` and `junk` are what stands in the entry and in `dirdesc` before they are
  -- set; only a name of the root sets `dirdesc`, and stores it through `dirdescriptor`.
  unfoldable pub new_dir : FatData → List ℕ → Dir × Option ℤ
  new_dir f dirname =
      if names_root dirname
      then (record { dirent = fill_dir_ent blank f.root; dirdesc = pos 0; pos = 0 }, some (pos 0))
      else if string_eq dirname slash_apps
      then (
        record {
          dirent = fill_dir_ent blank (
              read_at
                (add32 (get_data_start_byte f) (mul32 (get_file_start f 0) (get_cluster_size f)))
                32);
          dirdesc = junk;
          pos = 0;
        },
        none,
      )
      else (record { dirent = blank; dirdesc = junk; pos = 0 }, none)

  unfoldable pub vm_directory_open : Vm → Option (List ℕ) → (dirdescriptor : ℕ) → Reply ℤ
  unfolding new_dir
  vm_directory_open v₀ dirname dirdescriptor = elim dirname [
    | none ↦ (invalid_parameter, none, resume (suspend v₀))
    | some name ↦
        let v = suspend v₀ in
        let (dir, stored) = new_dir v.vmfat name in
        if dirdescriptor == null
        then (invalid_parameter, none, resume v)
        else (success, stored, resume (record v { dirs = v.dirs ++ (dir ∷ []) }))
  ]

unfoldable pub vm_directory_close : Vm → (dirdescriptor : ℤ) → Reply ℤ
unfolding find_dir erase_dir
vm_directory_close v₀ dirdescriptor =
    let v = suspend v₀ in
    elim (find_dir dirdescriptor v.dirs) [
      | none ↦ (failure, none, resume v)
      | some dir ↦ (success, none, resume (record v { dirs = erase_dir dirdescriptor v.dirs }))
    ]

-- `Dir::incPos` and `Dir::rewind`.
abbrev pub inc_pos : Dir → Dir
inc_pos dir = record dir { pos = add32 dir.pos 1 }

abbrev pub rewind : Dir → Dir
rewind dir = record dir { pos = 0 }

unfoldable pub read_dir : Vm → (dirdescriptor : ℤ) → Dir → Reply DirEntry
read_dir v dirdescriptor dir = elim (get_root_ent v.vmfat dir.pos) [
  | none ↦ (failure, none, resume v)
  | some ent ↦
      (success, some ent, resume (record v { dirs = change_dir_at dirdescriptor inc_pos v.dirs }))
]

unfoldable pub vm_directory_read : Vm → (dirdescriptor : ℤ) → (dirent : ℕ) → Reply DirEntry
unfolding find_dir change_dir_at read_dir
vm_directory_read v₀ dirdescriptor dirent =
    let v = suspend v₀ in
    if dirent == null
    then (invalid_parameter, none, resume v)
    else elim (find_dir dirdescriptor v.dirs) [
      | none ↦ (invalid_id, none, resume v)
      | some dir ↦ read_dir v dirdescriptor dir
    ]

-- A descriptor that is not open is a method call on NULL.
unfoldable pub vm_directory_rewind : Vm → (dirdescriptor : ℤ) → Outcome
unfolding find_dir change_dir_at
vm_directory_rewind v₀ dirdescriptor =
    let v = suspend v₀ in
    elim (find_dir dirdescriptor v.dirs) [
      | none ↦ undefined
      | some dir ↦
          returned success none
            (resume (record v { dirs = change_dir_at dirdescriptor rewind v.dirs }))
    ]

unfoldable pub vm_directory_current : Vm → (abspath : ℕ) → Reply (List ℕ)
vm_directory_current v₀ abspath =
    let v = suspend v₀ in
    if abspath == null
    then (invalid_parameter, none, resume v)
    else (success, some v.cur_path, resume v)

-- `rfind('/')`: the position of the last slash.
unfoldable pub rfind_slash : (i : ℕ) → Option ℕ → List ℕ → Option ℕ
rfind_slash i found [] = found
rfind_slash i found (c ∷ cs) = rfind_slash (i + 1) (if c == b'/' then some i else found) cs

-- `erase` at `npos`, where there is no slash, throws an exception that nothing catches.
unfoldable pub vm_directory_change : Vm → (path : List ℕ) → Outcome
unfolding rfind_slash
vm_directory_change v₀ path =
    let v = suspend v₀ in
    if string_eq path dot || string_eq path slash || string_eq path dot_slash
    then returned success none (resume v)
    else if string_eq path dot_dot && string_eq v.cur_path slash
    then returned failure none (resume v)
    else if string_eq path dot_dot
    then elim (rfind_slash 0 none v.cur_path) [
      | none ↦ undefined
      | some i ↦ returned failure none (resume (record v { cur_path = take i v.cur_path }))
    ]
    else returned success none (resume (record v { cur_path = v.cur_path ++ path }))

-- `VMDirectoryCreate` and `VMDirectoryUnlink` do nothing.
unfoldable pub vm_directory_create : Vm → (dirname : List ℕ) → Outcome
vm_directory_create v₀ dirname = returned success none (resume (suspend v₀))

unfoldable pub vm_directory_unlink : Vm → (path : List ℕ) → Outcome
vm_directory_unlink v₀ path = returned success none (resume (suspend v₀))
