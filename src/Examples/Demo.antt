-- ===== src/Examples/Demo.antt =====
-- The second listing of apps/fat.c on a mounted image.
use proj.Base.{[], arith, none, refl, some, ◌++◌, ◌≡◌}
use proj.Base.Int.{negsuc, pos}
use proj.Examples.Fat.{blank, image, read_at}
use proj.Examples.Pools.{machine}
use proj.Program.Console.{Console, console_calls}
use proj.Program.Demo.{DemoCalls, change_to_apps, list_twice, open_and_list}
use proj.Program.Demo.Rewinding.{demo_calls, list_twice-undefined, second_listing}
use proj.Program.Host.{FileCalls}
use proj.Program.Session.{Locals}
use proj.Vm.Directories.{find_dir, slash, vm_directory_rewind}
use proj.Vm.State.{Vm, failure, undefined}

abbrev mounted : Vm
mounted = record machine { vmfat = image; cur_path = slash }

abbrev console : Console
console = record { vm = mounted; printed = [] }

-- The variables after a first listing of the root.
abbrev locals : Locals
locals = record { directory_name = slash; dir_descriptor = pos 0; directory_entry = blank }

abbrev no_files : FileCalls Console
no_files = record {
  open_file = λ name c. (none, c);
  read_file = λ fd n c. (none, c);
  write_out = λ data_ c. c;
  close_file = λ fd c. c;
}

abbrev calls : DemoCalls Console
calls =
    demo_calls read_at blank (negsuc 0) 8 (λ name flags c. (failure, none, c)) (λ fd offset n c. c)
      no_files

not_open : find_dir (pos 0) mounted.dirs ≡ none
unfolding find_dir
not_open = refl

list_twice-undefined_example :
    let dirs = console_calls read_at blank (negsuc 0) 8 in
    let (v₁, c₁) = change_to_apps dirs no_files calls locals console in
    (v₂ : Locals) × (c₂ : Console) × (open_and_list dirs no_files calls 1 v₁ c₁ ≡ some (v₂, c₂))
    × (c₂.printed ≡ [] ++ second_listing)
    × (vm_directory_rewind c₂.vm v₂.dir_descriptor ≡ undefined)
    × (list_twice dirs no_files calls 1 v₁ c₁ ≡ none)
list_twice-undefined_example =
    list_twice-undefined read_at blank (negsuc 0) 8 (λ name flags c. (failure, none, c))
      (λ fd offset n c. c) no_files 0 locals console (λ e. absurd (omega (arith, e))) refl not_open
      refl
