-- ===== src/Program/Demo/Rewinding.antt =====
-- What becomes of the second listing of `VMMain` (apps/fat.c), behind the change to `apps`, on the
-- calls of VirtualMachine.cpp.
use proj.Base.{ap, suc, ◌∙◌}
use proj.Program.Console.{list_rows-stop, on_vm}
use proj.Program.Demo.{change_to_apps, list_twice, open_and_list, rewind_and_list}
use proj.Program.Session.{assigned, list_rows}
use proj.Vm.Directories.{slash}
use mathlib.Core.List.{append_assoc}
use proj.Base.{
  Bool-cases, List, Option, [], arith, false, inl, inr, none, refl, some, ℕ, ◌++◌, ◌==◌, ◌∷◌, ◌≡◌,
  ◌≢◌,
}
use proj.Base.Int.{ℤ, ◌==ℤ◌}
use proj.Base.Strings.{string_eq}
use proj.Base.Words.{null}
use proj.Fat.Entries.{DirEntry}
use proj.Program.Console.{Console, console_calls}
use proj.Program.Demo.{DemoCalls, OpenFlags, apps_name}
use proj.Program.Host.{
  Answer, DirectoryCalls, FileCalls, Printed, Text, changing_directory, current_name, new_line,
  opening_directory, plain,
}
use proj.Program.Session.{Locals}
use proj.Vm.Directories.{
  find_dir, names_root, new_dir, slash_apps, vm_directory_change, vm_directory_current,
  vm_directory_open, vm_directory_read, vm_directory_rewind,
}
use proj.Vm.State.{
  Dir, Outcome, Status, Vm, failure, invalid_id, resume, returned, success, suspend, switched,
  undefined,
}

abbrev said : Text → Console → Console
said t c = record c { printed = c.printed ++ (plain t ∷ []) }

abbrev pub on_rewind : Console → Outcome → Option Console
on_rewind c (returned st out w) = some (record c { vm = w })
on_rewind c (switched w) = none
on_rewind c undefined = none

-- A change that has no outcome leaves the state; it has one for every path but `..`.
abbrev pub on_change : Console → Outcome → Status × Console
on_change c (returned st out w) = (st, record c { vm = w })
on_change c (switched w) = (failure, c)
on_change c undefined = (failure, c)

find-snoc_none :
    (d : ℤ) (ds : List Dir) (dir : Dir)
    → find_dir d ds ≡ none
    → (dir.dirdesc ==ℤ d) ≡ false
    → find_dir d (ds ++ (dir ∷ [])) ≡ none
unfolding find_dir
find-snoc_none d [] dir e differs = rw differs refl
find-snoc_none d (x ∷ xs) dir e differs = elim (Bool-cases (x.dirdesc ==ℤ d)) [
  | inl hit ↦ cc (rw (find_dir, hit) at e)
  | inr miss ↦ rw miss (find-snoc_none d xs dir (rw (find_dir, miss) at e) differs)
]

-- What the second listing has printed before its rewind.
abbrev pub second_listing : List Printed
second_listing =
    plain changing_directory
    ∷ plain (current_name slash_apps)
    ∷ plain opening_directory
    ∷ plain new_line
    ∷ []

module _ (read_at : ℕ → ℕ → List ℕ) (blank : DirEntry) (junk : ℤ) (ref : ℕ)
    (open_with : List ℕ → OpenFlags → Console → Answer Console ℤ)
    (write : ℤ → (offset length_ : ℕ) → Console → Console) (files : FileCalls Console) where
  abbrev pub demo_calls : DemoCalls Console
  demo_calls = record {
    rewind_directory = λ d c. on_rewind c (vm_directory_rewind c.vm d);
    change_directory_to = λ path c. on_change c (vm_directory_change c.vm path);
    open_with = open_with;
    write_buffer = write;
  }

  abbrev pub dirs : DirectoryCalls Console
  dirs = console_calls read_at blank junk ref

  changed :
      (v : Vm)
      → vm_directory_change v apps_name
        ≡ returned success none (resume (record (suspend v) { cur_path = v.cur_path ++ apps_name }))
  unfolding vm_directory_change string_eq
  changed v = refl

  current_lem :
      (v : Vm)
      → ref ≢ null
      → vm_directory_current v ref ≡ (success, some v.cur_path, resume (suspend v))
  unfolding vm_directory_current
  current_lem v nn = let ok : (ref == null) ≡ false = ground arith in rw ok refl

  abbrev apps_dir : Vm → Dir
  unfolding new_dir
  apps_dir v = (new_dir read_at blank junk v.vmfat slash_apps).0

  apps_dir-junk : (v : Vm) → (apps_dir v).dirdesc ≡ junk
  unfolding new_dir names_root string_eq
  apps_dir-junk v = refl

  opened :
      (v : Vm)
      → ref ≢ null
      → vm_directory_open read_at blank junk v (some slash_apps) ref
        ≡ (success, none, resume (record (suspend v) { dirs = v.dirs ++ (apps_dir v ∷ []) }))
  unfolding vm_directory_open new_dir names_root string_eq
  opened v nn = let ok : (ref == null) ≡ false = ground arith in rw ok refl

  not_read :
      (v : Vm) (d : ℤ)
      → ref ≢ null
      → find_dir d v.dirs ≡ none
      → vm_directory_read v d ref ≡ (invalid_id, none, resume (suspend v))
  unfolding vm_directory_read
  not_read v d nn e =
      let ok : (ref == null) ≡ false = ground arith in rw (ok, vm_directory_read, e) refl

  not_rewound : (v : Vm) (d : ℤ) → find_dir d v.dirs ≡ none → vm_directory_rewind v d ≡ undefined
  unfolding vm_directory_rewind
  not_rewound v d e = rw (vm_directory_rewind, e) refl

  -- The states behind the change, and behind the opening and the read that finds nothing.
  abbrev behind_change : Console → Console
  behind_change c =
      let w = resume (record (suspend c.vm) { cur_path = c.vm.cur_path ++ apps_name }) in
      said (current_name (c.vm.cur_path ++ apps_name))
        (record (said changing_directory c) { vm = resume (suspend w) })

  abbrev behind_open : Console → Console
  behind_open c = record (said opening_directory c) {
    vm = resume (record (suspend c.vm) { dirs = c.vm.dirs ++ (apps_dir c.vm ∷ []) });
  }

  abbrev behind_read : Console → Console
  behind_read c = record (behind_open c) { vm = resume (suspend (behind_open c).vm) }

  change_to_apps_lem :
      (v : Locals) (c : Console)
      → ref ≢ null
      → change_to_apps dirs files demo_calls v c
        ≡ (record v { directory_name = c.vm.cur_path ++ apps_name }, behind_change c)
  unfolding change_to_apps vm_directory_change vm_directory_current string_eq
  change_to_apps_lem v c nn = let ok : (ref == null) ≡ false = ground arith in rw ok refl

  abbrev line_ended : Option (Locals × Console) → Option (Locals × Console)
  line_ended none = none
  line_ended (some (v, c)) = some (v, said new_line c)

  abbrev after_open : ℕ → Locals → Answer Console ℤ → Option (Locals × Console)
  after_open fuel v (_, out, c) =
      line_ended
        (list_rows dirs fuel (record v { dir_descriptor = assigned v.dir_descriptor out }) c)

  still_closed :
      (v : Locals) (c : Console)
      → find_dir v.dir_descriptor c.vm.dirs ≡ none
      → (junk ==ℤ v.dir_descriptor) ≡ false
      → find_dir v.dir_descriptor (behind_read c).vm.dirs ≡ none
  still_closed v c closed differs =
      find-snoc_none v.dir_descriptor c.vm.dirs (apps_dir c.vm) closed
        (ap (λ j. j ==ℤ v.dir_descriptor) (apps_dir-junk c.vm) ∙ differs)

  open_and_list_lem :
      (fuel : ℕ) (v : Locals) (c : Console)
      → ref ≢ null
      → v.directory_name ≡ slash_apps
      → find_dir v.dir_descriptor c.vm.dirs ≡ none
      → (junk ==ℤ v.dir_descriptor) ≡ false
      → open_and_list dirs files demo_calls (suc fuel) v c ≡ some (v, said new_line (behind_read c))
  unfolding open_and_list
  open_and_list_lem fuel v c nn named closed differs =
      let c₀ = said opening_directory c in
      ap (λ name. after_open (suc fuel) v (dirs.open_directory name c₀)) named
      ∙ ap (λ r. after_open (suc fuel) v (on_vm c₀ r)) (opened c.vm nn)
      ∙ ap line_ended (
          list_rows-stop dirs fuel v (behind_open c) refl (
            ap (on_vm (behind_open c))
              (not_read (behind_open c).vm v.dir_descriptor nn (still_closed v c closed differs))))

  abbrev next_listing : ℕ → Option (Locals × Console) → Option (Locals × Console)
  next_listing fuel none = none
  next_listing fuel (some (v, c)) = rewind_and_list dirs files demo_calls fuel v c

  rewind_and_list_lem :
      (fuel : ℕ) (v : Locals) (c : Console)
      → find_dir v.dir_descriptor c.vm.dirs ≡ none
      → rewind_and_list dirs files demo_calls fuel v c ≡ none
  unfolding rewind_and_list vm_directory_rewind
  rewind_and_list_lem fuel v c closed = rw (vm_directory_rewind, closed) refl

  -- From the root, where the descriptor that VMMain of apps/fat.c has kept is not open and is not
  -- what stands uninitialised in a new Dir, and the variables have an address, the change to apps
  -- leaves /apps, which VMDirectoryOpen opens without storing a descriptor: the listing of the
  -- current directory ends without a row, and VMDirectoryRewind behind it calls a method on NULL,
  -- so that the two listings have no outcome.
  pub list_twice-undefined :
      (fuel : ℕ) (v : Locals) (c : Console)
      → ref ≢ null
      → c.vm.cur_path ≡ slash
      → find_dir v.dir_descriptor c.vm.dirs ≡ none
      → (junk ==ℤ v.dir_descriptor) ≡ false
      → let (v₁, c₁) = change_to_apps dirs files demo_calls v c in
        (v₂ : Locals) × (c₂ : Console) × (open_and_list dirs files demo_calls (suc fuel) v₁ c₁
          ≡ some (v₂, c₂))
        × (c₂.printed ≡ c.printed ++ second_listing)
        × (vm_directory_rewind c₂.vm v₂.dir_descriptor ≡ undefined)
        × (list_twice dirs files demo_calls (suc fuel) v₁ c₁ ≡ none)
  unfolding list_twice
  list_twice-undefined fuel v c nn root closed differs =
      let name : c.vm.cur_path ++ apps_name ≡ slash_apps = ap (λ p. p ++ apps_name) root in
      let v₁ = record v { directory_name = c.vm.cur_path ++ apps_name } in
      let c₁ = behind_change c in
      let c₂ = said new_line (behind_read c₁) in
      let listed = open_and_list_lem fuel v₁ c₁ nn name closed differs in
      let closed₂ = still_closed v₁ c₁ closed differs in
      rw (change_to_apps_lem v c nn) (
        v₁,
        c₂,
        listed,
        append_assoc
              ((c.printed ++ (plain changing_directory ∷ []))
                ++ (plain (current_name (c.vm.cur_path ++ apps_name)) ∷ []))
              (plain opening_directory ∷ []) (plain new_line ∷ [])
            ∙ append_assoc (c.printed ++ (plain changing_directory ∷ []))
                (plain (current_name (c.vm.cur_path ++ apps_name)) ∷ [])
                (plain opening_directory ∷ plain new_line ∷ [])
            ∙ append_assoc c.printed (plain changing_directory ∷ []) (
                plain (current_name (c.vm.cur_path ++ apps_name))
                ∷ plain opening_directory
                ∷ plain new_line
                ∷ [])
            ∙ ap
                (λ n.
                  c.printed
                  ++ (plain changing_directory
                      ∷ plain (current_name n)
                      ∷ plain opening_directory
                      ∷ plain new_line
                      ∷ []))
                name,
        not_rewound c₂.vm v₁.dir_descriptor closed₂,
        ap (next_listing (suc fuel)) listed ∙ rewind_and_list_lem (suc fuel) v₁ c₂ closed₂,
      )
