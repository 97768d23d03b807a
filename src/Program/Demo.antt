-- ===== src/Program/Demo.antt =====
-- `VMMain` of apps/fat.c, which exercises the calls on directories and files, over the interface of
-- Program/Host. `file_descriptor` and the variables of Locals are not initialised: the first
-- `VMDirectoryOpen` reads what stands in `directory_name`.
pub mod Rewinding
use proj.Base.{List, Option, [], false, if◌then◌else◌, none, some, true, ℕ, ◌-◌, ◌∷◌}
use proj.Base.Int.{ℤ}
use proj.Program.Host.{
  Answer, DirectoryCalls, FileCalls, Text, change_failed, changing_directory, current_name,
  file_failed, heading, new_line, open_failed, opening_directory, plain, printing_copy,
  rewinding_directory, testing_cat, testing_directories,
}
use proj.Program.Session.{Locals, assigned, cat_file, is_success, list_rows}
use proj.Vm.State.{Status}

-- The flags of `VMFileOpen` that are used; the mode is 0644.
pub data OpenFlags : Type 0 where
  read_only : OpenFlags
  create_truncate_read_write : OpenFlags

-- A rewind has no result where the descriptor is not open. `write_buffer` writes from so many bytes
-- behind the beginning of `DataBuffer`, which is part of the state.
pub record DemoCalls (S : Type 0) : Type 0 where
  pub rewind_directory : ℤ → S → Option S
  pub change_directory_to : List ℕ → S → Status × S
  pub open_with : List ℕ → OpenFlags → S → Answer S ℤ
  pub write_buffer : ℤ → (offset length_ : ℕ) → S → S

abbrev pub apps_name : List ℕ
apps_name = b'a' ∷ b'p' ∷ b'p' ∷ b's' ∷ []

abbrev pub file_c : List ℕ
file_c = b'f' ∷ b'i' ∷ b'l' ∷ b'e' ∷ b'.' ∷ b'c' ∷ []

abbrev pub test_txt : List ℕ
test_txt = b't' ∷ b'e' ∷ b's' ∷ b't' ∷ b'.' ∷ b't' ∷ b'x' ∷ b't' ∷ []

-- `sizeof(DataBuffer)`, and what is left out at its beginning.
abbrev pub data_buffer_size : ℕ
data_buffer_size = 1024

abbrev pub skipped : ℕ
skipped = 48

module _ {S : Type 0} (dirs : DirectoryCalls S) (files : FileCalls S) (demo : DemoCalls S) where
  abbrev pub say : Text → S → S
  say t s = dirs.print (plain t) s

  -- The first listing.
  unfoldable pub first_listing : (fuel : ℕ) → Locals → S → Option (Locals × S)
  first_listing fuel v s =
      let (st, out, s₁) = dirs.open_directory v.directory_name s in
      let v₁ = record v { dir_descriptor = assigned v.dir_descriptor out } in
      elim (is_success st) [
        | false ↦ some (v₁, say (open_failed v₁.directory_name) s₁)
        | true ↦ elim (list_rows dirs fuel v₁ (dirs.print heading s₁)) [
          | none ↦ none
          | some (v₂, s₂) ↦ some (v₂, say new_line (dirs.close_directory v₂.dir_descriptor s₂))
        ]
      ]

  unfoldable pub change_to_apps : Locals → S → Locals × S
  change_to_apps v s =
      let (st, s₁) = demo.change_directory_to apps_name (say changing_directory s) in
      let s₂ = if is_success st then s₁ else say change_failed s₁ in
      let (_, name, s₃) = dirs.current s₂ in
      let v₁ = record v { directory_name = assigned v.directory_name name } in
      (v₁, say (current_name v₁.directory_name) s₃)

  -- The current directory is opened and read, whatever the call returned.
  unfoldable pub open_and_list : (fuel : ℕ) → Locals → S → Option (Locals × S)
  open_and_list fuel v s =
      let (_, out, s₁) = dirs.open_directory v.directory_name (say opening_directory s) in
      let v₁ = record v { dir_descriptor = assigned v.dir_descriptor out } in
      elim (list_rows dirs fuel v₁ s₁) [ none ↦ none | some (v₂, s₂) ↦ some (v₂, say new_line s₂) ]

  -- An entry is read before the loop.
  unfoldable pub rewind_and_list : (fuel : ℕ) → Locals → S → Option (Locals × S)
  rewind_and_list fuel v s =
      elim (demo.rewind_directory v.dir_descriptor (say rewinding_directory s)) [
        | none ↦ none
        | some s₁ ↦
            let (_, ent, s₂) = dirs.read_directory v.dir_descriptor s₁ in
            let v₁ = record v { directory_entry = assigned v.directory_entry ent } in
            elim (list_rows dirs fuel v₁ s₂) [
              | none ↦ none
              | some (v₂, s₃) ↦ some (v₂, say new_line (dirs.close_directory v₂.dir_descriptor s₃))
            ]
      ]

  unfoldable pub list_twice : (fuel : ℕ) → Locals → S → Option (Locals × S)
  unfolding open_and_list rewind_and_list
  list_twice fuel v s = elim (open_and_list fuel v s) [
    | none ↦ none
    | some (v₁, s₁) ↦ rewind_and_list fuel v₁ s₁
  ]

  -- `file.c` is printed, and what stands in `DataBuffer` then is written to `test.txt`.
  unfoldable pub copy_file : (fuel : ℕ) → (file_descriptor : ℤ) → S → Option (ℤ × S)
  copy_file fuel fd s =
      let (st, out, s₁) = demo.open_with file_c read_only (say testing_cat s) in
      let fd₁ = assigned fd out in
      elim (is_success st) [
        | false ↦ some (fd₁, say file_failed s₁)
        | true ↦ elim (cat_file files fuel fd₁ data_buffer_size s₁) [
          | none ↦ none
          | some s₂ ↦
              let (_, out', s₃) =
                demo.open_with test_txt create_truncate_read_write (files.close_file fd₁ s₂) in
              let fd₂ = assigned fd₁ out' in
              let s₄ = demo.write_buffer fd₂ skipped (data_buffer_size - skipped) s₃ in
              some (fd₂, files.close_file fd₂ s₄)
        ]
      ]

  unfoldable pub print_copy : (fuel : ℕ) → (file_descriptor : ℤ) → S → Option S
  print_copy fuel fd s =
      let (_, out, s₁) = demo.open_with test_txt read_only (say printing_copy s) in
      let fd₁ = assigned fd out in
      elim (cat_file files fuel fd₁ data_buffer_size s₁) [
        | none ↦ none
        | some s₂ ↦ some (say new_line (files.close_file fd₁ s₂))
      ]

  -- The whole of `VMMain`.
  unfoldable pub vm_main : (fuel : ℕ) → Locals → (file_descriptor : ℤ) → S → Option S
  unfolding first_listing change_to_apps list_twice copy_file open_and_list print_copy
  vm_main fuel v fd s = elim (first_listing fuel v (say testing_directories s)) [
    | none ↦ none
    | some (v₁, s₁) ↦
        let (v₂, s₂) = change_to_apps v₁ s₁ in
        elim (list_twice fuel v₂ s₂) [
          | none ↦ none
          | some (v₃, s₃) ↦ elim (copy_file fuel fd s₃) [
            | none ↦ none
            | some (fd₁, s₄) ↦ elim (open_and_list fuel v₃ s₄) [
              | none ↦ none
              | some (v₄, s₅) ↦ print_copy fuel fd₁ s₅
            ]
          ]
        ]
  ]
