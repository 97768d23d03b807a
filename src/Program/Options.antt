-- ===== src/Program/Options.antt =====
-- The command line of `main` (main.c). `scan_int` and `scan_unsigned` are `sscanf` with the formats
-- "%d" and "%u".
pub mod Grammar
pub mod Usage
use proj.Base.{List, Option, [], if◌then◌else◌, none, some, suc, ℕ, ◌∷◌}
use proj.Base.Int.{pos, ℤ}
use proj.Base.Strings.{string_eq}
use proj.Vm.State.{Status, success}

-- The variables of `main` that the options set.
pub record Settings : Type 0 where
  pub tick_time_ms : ℤ
  pub machine_tick_time : ℤ
  pub heap_size : ℕ
  pub shared_size : ℕ
  pub fat_mount : List ℕ

abbrev pub default_settings : Settings
default_settings = record {
  tick_time_ms = pos 100;
  machine_tick_time = pos 100;
  heap_size = 0x1000000;
  shared_size = 0x4000;
  fat_mount = b'f' ∷ b'a' ∷ b't' ∷ b'.' ∷ b'i' ∷ b'm' ∷ b'a' ∷ [];
}

pub data Flag : Type 0 where
  tick machine_tick heap shared mount : Flag

abbrev pub flag_text : Flag → List ℕ
flag_text tick = b'-' ∷ b't' ∷ []
flag_text machine_tick = b'-' ∷ b'm' ∷ []
flag_text heap = b'-' ∷ b'h' ∷ []
flag_text shared = b'-' ∷ b's' ∷ []
flag_text mount = b'-' ∷ b'f' ∷ []

-- The comparisons with `strcmp`, in their order.
unfoldable pub flag_of : List ℕ → Option Flag
flag_of arg =
    if string_eq arg (flag_text tick)
    then some tick
    else if string_eq arg (flag_text machine_tick)
    then some machine_tick
    else if string_eq arg (flag_text heap)
    then some heap
    else if string_eq arg (flag_text shared)
    then some shared
    else if string_eq arg (flag_text mount)
    then some mount
    else none

-- What the command line asks for. `invalid` has the option whose parameter is refused.
pub data Invocation : Type 0 where
  run : Settings → (modargs : List (List ℕ)) → Invocation
  invalid : Flag → Invocation
  syntax_error : Invocation

-- `0 >= x` on `int`, and on `unsigned int`.
abbrev pub checked_int : Option ℤ → Option ℤ
checked_int (some (pos (suc n))) = some (pos (suc n))
checked_int _ = none

abbrev pub checked_unsigned : Option ℕ → Option ℕ
checked_unsigned (some (suc n)) = some (suc n)
checked_unsigned _ = none

module _ (scan_int : List ℕ → Option ℤ) (scan_unsigned : List ℕ → Option ℕ) where
  -- One option with its parameter; there is no result where `main` returns 1.
  unfoldable pub set_option : Flag → (param : List ℕ) → Settings → Option Settings
  set_option tick param s = elim (checked_int (scan_int param)) [
    | none ↦ none
    | some n ↦ some (record s { tick_time_ms = n })
  ]
  set_option machine_tick param s = elim (checked_int (scan_int param)) [
    | none ↦ none
    | some n ↦ some (record s { machine_tick_time = n })
  ]
  set_option heap param s = elim (checked_unsigned (scan_unsigned param)) [
    | none ↦ none
    | some n ↦ some (record s { heap_size = n })
  ]
  set_option shared param s = elim (checked_unsigned (scan_unsigned param)) [
    | none ↦ none
    | some n ↦ some (record s { shared_size = n })
  ]
  set_option mount param s = some (record s { fat_mount = param })

  -- The loop over `argv`, from `Offset` on. An option that is the last argument ends it with
  -- `Offset` at `argc`.
  unfoldable pub read_options : Settings → (argv : List (List ℕ)) → Invocation
  unfolding flag_of set_option
  read_options s [] = syntax_error
  read_options s (arg ∷ []) = elim (flag_of arg) [ none ↦ run s (arg ∷ []) | some o ↦ syntax_error ]
  read_options s (arg ∷ param ∷ rest) = elim (flag_of arg) [
    | none ↦ run s (arg ∷ param ∷ rest)
    | some o ↦ elim (set_option o param s) [ none ↦ invalid o | some t ↦ read_options t rest ]
  ]

  -- `main`: what it returns. `start` is the status of `VMStart` with these settings.
  unfoldable pub main : (start : Settings → List (List ℕ) → Status) → (argv : List (List ℕ)) → ℕ
  unfolding read_options
  main start argv = elim (read_options default_settings argv) [
    | run s modargs ↦ elim (start s modargs) [ success ↦ 0 | _ ↦ 1 ]
    | invalid o ↦ 1
    | syntax_error ↦ 1
  ]
