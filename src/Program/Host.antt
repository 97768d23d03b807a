-- ===== src/Program/Host.antt =====
-- What a program asks of the virtual machine (VirtualMachine.h), and what it prints. A call gives its
-- status, what it stores through its out-parameter if anything, and the state.
use proj.Base.{List, Option, ℕ}
use proj.Base.Int.{ℤ}
use proj.Fat.Entries.{DirEntry}
use proj.Program.Entry.{Row}
use proj.Vm.State.{Status}

-- The texts that `VMMain` of apps/fat.c prints.
pub data Text : Type 0 where
  testing_directories changing_directory change_failed : Text
  opening_directory rewinding_directory new_line : Text
  testing_cat file_failed printing_copy : Text
  open_failed current_name : (directory : List ℕ) → Text

pub data Printed : Type 0 where
  plain : Text → Printed
  prompt : (directory : List ℕ) → Printed
  heading : Printed
  row : Row → Printed
  no_directory not_changed not_removed not_made not_opened : (path : List ℕ) → Printed

abbrev pub Answer : Type 0 → Type 0 → Type 0
Answer S A = Status × Option A × S

-- The calls on directories.
pub record DirectoryCalls (S : Type 0) : Type 0 where
  pub current : S → Answer S (List ℕ)
  pub open_directory : List ℕ → S → Answer S ℤ
  pub read_directory : ℤ → S → Answer S DirEntry
  pub close_directory : ℤ → S → S
  pub print : Printed → S → S

-- The calls that change the current path or the tree: the status and the state.
pub record NodeCalls (S : Type 0) : Type 0 where
  pub change : List ℕ → S → Status × S
  pub unlink : List ℕ → S → Status × S
  pub create : List ℕ → S → Status × S

-- The calls on files: opening for reading, reading at most so many bytes, and writing to descriptor 1.
-- There is no result where the call fails.
pub record FileCalls (S : Type 0) : Type 0 where
  pub open_file : List ℕ → S → Option ℤ × S
  pub read_file : ℤ → (length_ : ℕ) → S → Option (List ℕ) × S
  pub write_out : List ℕ → S → S
  pub close_file : ℤ → S → S
