-- ===== src/Examples/Shell.antt =====
-- Command lines, a typed session, a file that is printed and a root directory that is listed.
use mathlib.Core.Option.{some-injective}
use proj.Base.{suc, zero}
use proj.Base.Strings.{c_string}
use proj.Program.Console.{ArePrintable}
use proj.Program.Entry.{is_printable}
use proj.Base.{
  List, Option, [], arith, none, refl, some, true, ℕ, ◌*◌, ◌++◌, ◌+◌, ◌-◌, ◌↔◌, ◌∷◌, ◌≡◌, ◌≤◌,
}
use proj.Base.Int.{negsuc, pos, ℤ}
use proj.Base.Strings.{string_eq}
use proj.Examples.Fat.{blank, image, no_date, read_at}
use proj.Examples.Pools.{machine}
use proj.Fat.Entries.{DirEntry}
use proj.Program.Console.{Console, console_calls, list_current-rows, rows}
use proj.Program.Entry.{
  HasGroups, dump_directory_entry, dump_directory_entry_lem, read_hour, read_size,
}
use proj.Program.Host.{DirectoryCalls, FileCalls, NodeCalls, heading}
use proj.Program.Options.{
  Settings, default_settings, flag_of, read_options, run, set_option, syntax_error,
}
use proj.Program.Options.Usage.{Spells, read_options_lem}
use proj.Program.Script.{TypedLine}
use proj.Program.Session.{Locals, list_current}
use proj.Program.Shell.{read_command, unknown}
use proj.Program.Shell.Commands.{cd, mkdir, read_command_bare, verb_text}
use proj.Program.Shell.Lines.{spaces}
use proj.Vm.Directories.{find_dir, names_root, slash}
use proj.Vm.State.{Vm, failure, success}

-- The value of decimal digits.
abbrev digits : (acc : ℕ) → List ℕ → ℕ
digits acc [] = acc
digits acc (c ∷ s) = digits (acc * 10 + (c - 48)) s

abbrev scan_unsigned : List ℕ → Option ℕ
scan_unsigned [] = none
scan_unsigned (c ∷ s) = some (digits 0 (c ∷ s))

abbrev scan_int : List ℕ → Option ℤ
scan_int [] = none
scan_int (c ∷ s) = some (pos (digits 0 (c ∷ s)))

-- The ticks are set to 50.
abbrev faster : Settings
faster = record default_settings { tick_time_ms = pos 50 }

abbrev shell_module : List (List ℕ)
shell_module = (b's' ∷ b'h' ∷ []) ∷ []

abbrev command_line : List (List ℕ)
command_line = (b'-' ∷ b't' ∷ []) ∷ (b'5' ∷ b'0' ∷ []) ∷ shell_module

read_options_lem_example :
    (read_options scan_int scan_unsigned default_settings command_line ≡ run faster shell_module)
    ↔ Spells scan_int scan_unsigned default_settings command_line faster shell_module
read_options_lem_example =
    read_options_lem scan_int scan_unsigned default_settings faster command_line shell_module

options_run :
    read_options scan_int scan_unsigned default_settings command_line ≡ run faster shell_module
unfolding read_options flag_of string_eq set_option
options_run = refl

machine_tick_run :
    read_options scan_int scan_unsigned default_settings
      ((b'-' ∷ b'm' ∷ []) ∷ (b'5' ∷ b'0' ∷ []) ∷ shell_module)
    ≡ run (record default_settings { machine_tick_time = pos 50 }) shell_module
unfolding read_options flag_of string_eq set_option
machine_tick_run = refl

-- The last argument is an option.
no_parameter_run :
    read_options scan_int scan_unsigned default_settings ((b'-' ∷ b't' ∷ []) ∷ []) ≡ syntax_error
unfolding read_options flag_of string_eq
no_parameter_run = refl

abbrev apps : List ℕ
apps = b'a' ∷ b'p' ∷ b'p' ∷ b's' ∷ []

-- "  cd  apps " and a newline.
abbrev to_apps : TypedLine
to_apps = record { verb = cd; before = 2; between = 1; behind = 1; path = apps }

abbrev made_apps : TypedLine
made_apps = record { verb = mkdir; before = 0; between = 0; behind = 0; path = apps }

-- A host that writes down the paths it is asked for.
abbrev Asked : Type 0
Asked = List (List ℕ)

abbrev asked_directories : DirectoryCalls Asked
asked_directories = record {
  current = λ s. (success, some slash, s);
  open_directory = λ name s. (failure, none, s);
  read_directory = λ d s. (failure, none, s);
  close_directory = λ d s. s;
  print = λ p s. s;
}

abbrev asked_nodes : NodeCalls Asked
asked_nodes = record {
  change = λ path s. (success, s ++ (path ∷ []));
  unlink = λ path s. (success, s);
  create = λ path s. (failure, s ++ (path ∷ []));
}

abbrev asked_files : FileCalls Asked
asked_files = record {
  open_file = λ path s. (none, s);
  read_file = λ fd len s. (none, s);
  write_out = λ data_ s. s;
  close_file = λ fd s. s;
}

abbrev locals : Locals
locals = record { directory_name = []; dir_descriptor = negsuc 0; directory_entry = blank }

read_command_bare_example :
    read_command (spaces 1 ++ ((verb_text cd ++ spaces 2) ++ (b'\n' ∷ []))) ≡ some (unknown, [])
read_command_bare_example = read_command_bare cd 1 2 [] (omega arith)

abbrev mounted : Vm
mounted = record machine { vmfat = image }

abbrev console : Console
console = record { vm = mounted; printed = [] }

root : names_root slash ≡ true
unfolding names_root string_eq
root = refl

not_open : find_dir (pos 0) mounted.dirs ≡ none
unfolding find_dir
not_open = refl

printable : ArePrintable image.root_ents
unfolding is_printable c_string
printable zero e h = rw (← some-injective _ _ h) refl
printable (suc i) e h = cc h

list_current-rows_example :
    (v' : Locals) × (c' : Console) × (list_current
        (console_calls read_at blank (negsuc 0) 8)
        2
        (record locals { directory_name = slash })
        console
      ≡ some (v', c'))
    × (c'.printed ≡ [] ++ (heading ∷ rows read_at blank (negsuc 0) 8 image.root_ents))
list_current-rows_example =
    list_current-rows read_at blank (negsuc 0) 8 (record locals { directory_name = slash }) console
      root (λ e. absurd (omega (arith, e))) (omega arith) not_open printable

-- A file of 1234567 bytes, last changed at noon.
abbrev large : DirEntry
large = record blank { d_size = 1234567; d_modify = record no_date { d_hour = 12 } }

dump_directory_entry_lem_example :
    let r = dump_directory_entry large in
    (1 ≤ r.hour)
    × (r.hour ≤ 12)
    × (read_hour r ≡ 12)
    × (read_size r.size_column ≡ 1234567)
    × HasGroups r.size_column
dump_directory_entry_lem_example = dump_directory_entry_lem large (omega arith) (λ e. cc e)
