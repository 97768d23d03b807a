-- ===== src/Program/Session.antt =====
-- The programs that list a directory and print a file: `VMMain` of the shell (apps/shell.c) and
-- `CatFile` (apps/fat.c).
use proj.Base.{take}
use proj.Program.Entry.{is_printable}
use proj.Base.{
  Bool, List, Option, false, if◌then◌else◌, length, ltb, none, not, some, suc, true, zero, ℕ, ◌==◌,
}
use proj.Base.Int.{ℤ}
use proj.Fat.Entries.{DirEntry}
use proj.Program.Entry.{dump_directory_entry}
use proj.Program.Host.{
  DirectoryCalls, FileCalls, NodeCalls, Printed, heading, no_directory, not_changed, not_made,
  not_opened, not_removed, prompt, row,
}
use proj.Program.Shell.{
  Command, buffer_size, change_directory, exit, is_exit, list_directory, make_directory, print_file,
  read_command, remove, unknown,
}
use proj.Vm.State.{Status, success}

abbrev pub is_success : Status → Bool
is_success success = true
is_success _ = false

-- What a variable holds after a call that may store into it.
abbrev pub assigned {ℓ} : {A : Type ℓ} → A → Option A → A
assigned old none = old
assigned old (some x) = x

-- The variables of `VMMain` that keep a value from one command to the next.
pub record Locals : Type 0 where
  pub directory_name : List ℕ
  pub dir_descriptor : ℤ
  pub directory_entry : DirEntry

module _ {S : Type 0} (calls : FileCalls S) where
  -- A round of `CatFile`: whether the loop goes on, and the state.
  unfoldable pub cat_round : (file_descriptor : ℤ) (buffer_length : ℕ) → S → Bool × S
  cat_round fd n s =
      let (read, s') = calls.read_file fd n s in
      elim read [
        | none ↦ (false, s')
        | some data_ ↦
            (not (ltb (length data_) n), if length data_ == 0 then s' else calls.write_out data_ s')
      ]

  -- `CatFile`, with fuel for its rounds; there is no result where it does not suffice.
  unfoldable pub cat_file : (fuel : ℕ) (file_descriptor : ℤ) (buffer_length : ℕ) → S → Option S
  unfolding cat_round
  cat_file zero fd n s = none
  cat_file (suc fuel) fd n s =
      let (more, s') = cat_round fd n s in
      elim more [ true ↦ cat_file fuel fd n s' | false ↦ some s' ]

module _ {S : Type 0} (calls : DirectoryCalls S) where
  -- The loop over the entries, with fuel for its rounds. There is no result where a line is undefined
  -- either.
  unfoldable pub list_rows : (fuel : ℕ) → Locals → S → Option (Locals × S)
  unfolding is_printable
  list_rows zero v s = none
  list_rows (suc fuel) v s =
      let (st, ent, s') = calls.read_directory v.dir_descriptor s in
      let v' = record v { directory_entry = assigned v.directory_entry ent } in
      elim (is_success st) [
        | false ↦ some (v, s')
        | true ↦
            let rest =
              list_rows fuel v' (calls.print (row (dump_directory_entry v'.directory_entry)) s') in
            if is_printable v'.directory_entry then rest else none
      ]

  -- `ls`.
  unfoldable pub list_current : (fuel : ℕ) → Locals → S → Option (Locals × S)
  unfolding list_rows
  list_current fuel v s =
      let (st, out, s') = calls.open_directory v.directory_name s in
      let v' = record v { dir_descriptor = assigned v.dir_descriptor out } in
      elim (is_success st) [
        | false ↦ some (v, calls.print (no_directory v.directory_name) s')
        | true ↦ elim (list_rows fuel v' (calls.print heading s')) [
          | none ↦ none
          | some (v'', s'') ↦ some (v'', calls.close_directory v''.dir_descriptor s'')
        ]
      ]

module _ {S : Type 0} (dirs : DirectoryCalls S) (nodes : NodeCalls S) (files : FileCalls S) where
  -- A call on a path, with its message where it fails.
  abbrev pub or_complain : (complaint : List ℕ → Printed) (path : List ℕ) → Status × S → S
  or_complain complaint path (st, s) = if is_success st then s else dirs.print (complaint path) s

  -- `cat`.
  unfoldable pub print_path : (fuel : ℕ) (path : List ℕ) → S → Option S
  unfolding cat_file
  print_path fuel path s =
      let (opened, s') = files.open_file path s in
      elim opened [
        | none ↦ some (dirs.print (not_opened path) s')
        | some fd ↦ elim (cat_file files fuel fd buffer_size s') [
          | none ↦ none
          | some s'' ↦ some (files.close_file fd s'')
        ]
      ]

  -- What one command does; `exit` ends the shell's loop. There is no result where the fuel of a
  -- loop does not suffice.
  unfoldable pub run_command : (fuel : ℕ) → Command → Locals → S → Option (Locals × S)
  unfolding list_current print_path
  run_command fuel exit v s = some (v, s)
  run_command fuel list_directory v s = list_current dirs fuel v s
  run_command fuel (change_directory path) v s =
      some (v, or_complain not_changed path (nodes.change path s))
  run_command fuel (remove path) v s = some (v, or_complain not_removed path (nodes.unlink path s))
  run_command fuel (make_directory path) v s =
      some (v, or_complain not_made path (nodes.create path s))
  run_command fuel (print_file path) v s = elim (print_path fuel path s) [
    | none ↦ none
    | some s' ↦ some (v, s')
  ]
  run_command fuel unknown v s = some (v, s)

  -- The loop of `VMMain`, a round for each unit of `rounds`: the prompt, a line, and its command.
  -- The result has what is left of the input; the loop ends by `exit`, or where no
  -- whole line comes, or it does not fit in the buffer.
  unfoldable pub shell :
      (rounds fuel : ℕ) (input : List ℕ) → Locals → S → Option (List ℕ × Locals × S)
  unfolding run_command read_command
  shell zero fuel input v s = none
  shell (suc rounds) fuel input v s =
      let (st, name, s₁) = dirs.current s in
      let v₁ = record v { directory_name = assigned v.directory_name name } in
      let s₂ = dirs.print (prompt v₁.directory_name) s₁ in
      elim (read_command input) [
        | none ↦ some (input, v₁, s₂)
        | some (c, rest) ↦ elim (is_exit c) [
          | true ↦ some (rest, v₁, s₂)
          | false ↦ elim (run_command fuel c v₁ s₂) [
            | none ↦ none
            | some (v₃, s₃) ↦ shell rounds fuel rest v₃ s₃
          ]
        ]
      ]

  -- `VMMain` on what is typed. Each `VMFileRead` of a character takes a block of the shared memory
  -- that it never gives back; `blocks` of them get one, and the next waits for ever. The blocks
  -- that the output takes and gives back are not counted.
  unfoldable pub session :
      (blocks rounds fuel : ℕ) (typed : List ℕ) → Locals → S → Option (List ℕ × Locals × S)
  unfolding shell
  session blocks rounds fuel typed v s = shell rounds fuel (take blocks typed) v s
