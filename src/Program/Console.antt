-- ===== src/Program/Console.antt =====
-- The shell's `ls` (apps/shell.c) on the directory calls of VirtualMachine.cpp.
use proj.Base.{Bool}
use proj.Vm.State.{Status}
use proj.Base.{get_elem?, if◌then◌else◌}
use proj.Program.Entry.{is_printable}
use proj.Program.Host.{no_directory}
use proj.Program.Session.{is_success, assigned}
use proj.Base.{Option}
use proj.Vm.State.{success}
use native.Mathlib.Nat.{mod-eq_of_lt}
use mathlib.Core.List.{append_assoc, append-nil}
use proj.Base.{
  List, [], ap, arith, drop, drop_all, false, length, map, none, refl, some, suc, sym, true, zero,
  ℕ, ◌++◌, ◌+◌, ◌<◌, ◌==◌, ◌∙◌, ◌∷◌, ◌≡◌, ◌≢◌,
}
use proj.Base.Int.{pos, ℤ}
use proj.Base.Words.{add32, null, u32_mod}
use proj.Fat.Entries.{DirEntry, fill_dir_ent}
use proj.Program.Entry.{dump_directory_entry}
use proj.Program.Host.{Answer, DirectoryCalls, Printed, heading, row}
use proj.Program.Session.{Locals, list_current, list_rows}
use proj.Vm.Directories.{
  find_dir, inc_pos, names_root, new_dir, vm_directory_close, vm_directory_current,
  vm_directory_open, vm_directory_read,
}
use proj.Vm.Directories.Listing.{
  find-change_dir_at, find-snoc, get_elem?-drop, moved, read-end, read-some,
}
use proj.Vm.State.{Dir, Reply, Vm, resume, suspend}

-- The virtual machine, and what the program has printed.
pub record Console : Type 0 where
  pub vm : Vm
  pub printed : List Printed

abbrev pub on_vm : {A : Type 0} → Console → Reply A → Answer Console A
on_vm c (st, out, w) = (st, out, record c { vm = w })

module _ {S : Type 0} (calls : DirectoryCalls S) where
  -- The rest of a round, for what the call gives.
  abbrev list_rows_answer : ℕ → Locals → Answer S DirEntry → Option (Locals × S)
  list_rows_answer fuel v (st, ent, s') =
      let entry = assigned v.directory_entry ent in
      elim (is_success st) [
        | false ↦ some (v, s')
        | true ↦
            if is_printable entry
            then list_rows calls fuel (record v { directory_entry = entry })
                (calls.print (row (dump_directory_entry entry)) s')
            else none
      ]

  -- The rest of `ls` behind the opening of the directory, and behind the loop.
  abbrev closed : Option (Locals × S) → Option (Locals × S)
  closed none = none
  closed (some (v, s)) = some (v, calls.close_directory v.dir_descriptor s)

  abbrev list_current_answer : ℕ → Locals → Answer S ℤ → Option (Locals × S)
  list_current_answer fuel v (st, out, s') = elim (is_success st) [
    | false ↦ some (v, calls.print (no_directory v.directory_name) s')
    | true ↦ closed (
        list_rows calls fuel (record v { dir_descriptor = assigned v.dir_descriptor out })
          (calls.print heading s'))
  ]

  pub list_rows-stop :
      (fuel : ℕ) (v : Locals) (s : S) {st : Status} {ent : Option DirEntry} {s' : S}
      → is_success st ≡ false
      → calls.read_directory v.dir_descriptor s ≡ (st, ent, s')
      → list_rows calls (suc fuel) v s ≡ some (v, s')
  unfolding list_rows
  list_rows-stop fuel v s {st} {ent} {s'} stops e =
      let entry = assigned v.directory_entry ent in
      let rest =
        if is_printable entry
        then list_rows calls fuel (record v { directory_entry = entry })
            (calls.print (row (dump_directory_entry entry)) s')
        else none in
      ap (list_rows_answer fuel v) e
      ∙ ap (λ (b : Bool). elim b [ false ↦ some (v, s') | true ↦ rest ]) stops

  list_rows-step :
      (fuel : ℕ) (v : Locals) (s : S) {ent : DirEntry} {s' : S}
      → is_printable ent ≡ true
      → calls.read_directory v.dir_descriptor s ≡ (success, some ent, s')
      → list_rows calls (suc fuel) v s
        ≡ list_rows calls fuel
            (record v { directory_entry = ent })
            (calls.print (row (dump_directory_entry ent)) s')
  unfolding list_rows
  list_rows-step fuel v s {ent} {s'} printable e =
      ap (list_rows_answer fuel v) e
      ∙ ap
          (λ b.
            if b
            then list_rows calls fuel (record v { directory_entry = ent })
                (calls.print (row (dump_directory_entry ent)) s')
            else none)
          printable

  list_current-opened :
      (fuel : ℕ) (v : Locals) (s : S) {d : ℤ} {s' s'' : S} {v' : Locals}
      → calls.open_directory v.directory_name s ≡ (success, some d, s')
      → list_rows calls fuel (record v { dir_descriptor = d }) (calls.print heading s')
        ≡ some (v', s'')
      → list_current calls fuel v s ≡ some (v', calls.close_directory v'.dir_descriptor s'')
  unfolding list_current
  list_current-opened fuel v s e e₁ = ap (list_current_answer fuel v) e ∙ ap closed e₁

-- Every entry has a NUL in its long name.
abbrev pub ArePrintable : List DirEntry → Type 0
ArePrintable ents = (i : ℕ) (e : DirEntry) → get_elem? ents i ≡ some e → is_printable e ≡ true

module _ (read_at : ℕ → ℕ → List ℕ) (blank : DirEntry) (junk : ℤ) (ref : ℕ) where
  -- `ref` is the address of each variable that a call stores into.
  abbrev pub console_calls : DirectoryCalls Console
  console_calls = record {
    current = λ c. on_vm c (vm_directory_current c.vm ref);
    open_directory = λ name c. on_vm c (vm_directory_open read_at blank junk c.vm (some name) ref);
    read_directory = λ d c. on_vm c (vm_directory_read c.vm d ref);
    close_directory = λ d c. record c { vm = (vm_directory_close c.vm d).2 };
    print = λ p c. record c { printed = c.printed ++ (p ∷ []) };
  }

  abbrev pub rows : List DirEntry → List Printed
  rows = map (λ e. row (dump_directory_entry e))

  -- An open directory is listed from its position to its end.
  rows_lem :
      (n fuel : ℕ) (v : Locals) (c : Console) (dir : Dir)
      → n < fuel
      → ref ≢ null
      → length c.vm.vmfat.root_ents < u32_mod
      → find_dir v.dir_descriptor c.vm.dirs ≡ some dir
      → dir.pos + n ≡ length c.vm.vmfat.root_ents
      → ArePrintable c.vm.vmfat.root_ents
      → (v' : Locals) × (c' : Console) × (list_rows console_calls fuel v c ≡ some (v', c'))
        × (c'.printed ≡ c.printed ++ rows (drop dir.pos c.vm.vmfat.root_ents))
  rows_lem n zero v c dir enough nn narrow found all printable = absurd (omega (arith, enough))
  rows_lem zero (suc fuel) v c dir enough nn narrow found all printable =
      let ents = c.vm.vmfat.root_ents in
      let here : dir.pos ≡ length ents = omega (arith, all) in
      let ended : drop dir.pos ents ≡ [] = drop_all dir.pos ents (omega (arith, here)) in
      let c' = record c { vm = resume (suspend c.vm) } in
      (
        v,
        c',
        list_rows-stop console_calls fuel v c refl
            (ap (on_vm c) (read-end c.vm v.dir_descriptor ref dir nn found (omega (arith, here)))),
        sym (ap (λ es. c.printed ++ rows es) ended ∙ append-nil c.printed),
      )
  rows_lem (suc n) (suc fuel) v c dir enough nn narrow found all printable =
      let ents = c.vm.vmfat.root_ents in
      let d = v.dir_descriptor in
      let inside : dir.pos < length ents = omega (arith, all) in
      let (ent, at_pos, split) = get_elem?-drop ents dir.pos inside in
      let step = read-some c.vm d ref dir ent nn found inside at_pos in
      let next_pos : add32 dir.pos 1 ≡ dir.pos + 1 = mod-eq_of_lt (omega (arith, inside, narrow)) in
      let v₁ = record v { directory_entry = ent } in
      let c₁ : Console = record {
        vm = moved c.vm d;
        printed = c.printed ++ (row (dump_directory_entry ent) ∷ []);
      } in
      let (v', c', ran, out) =
        rows_lem n fuel v₁ c₁ (inc_pos dir) (omega (arith, enough)) nn narrow
          (find-change_dir_at inc_pos d c.vm.dirs (λ x. refl) found) (omega (arith, next_pos, all))
          printable in
      (
        v',
        c',
        list_rows-step console_calls fuel v c (printable dir.pos ent at_pos) (ap (on_vm c) step)
            ∙ ran,
        out
            ∙ append_assoc c.printed (row (dump_directory_entry ent) ∷ [])
                (rows (drop (add32 dir.pos 1) ents))
            ∙ ap (λ p. c.printed ++ (row (dump_directory_entry ent) ∷ rows (drop p ents))) next_pos
            ∙ sym (ap (λ es. c.printed ++ rows es) split),
      )

  -- The root as it is opened, and the state then.
  abbrev pub root_dir : Vm → Dir
  root_dir v = record { dirent = fill_dir_ent blank v.vmfat.root; dirdesc = pos 0; pos = 0 }

  abbrev pub with_root : Vm → Vm
  with_root v = resume (record (suspend v) { dirs = v.dirs ++ (root_dir v ∷ []) })

  pub open-root :
      (v : Vm) (name : List ℕ)
      → names_root name ≡ true
      → ref ≢ null
      → vm_directory_open read_at blank junk v (some name) ref
        ≡ (success, some (pos 0), with_root v)
  unfolding vm_directory_open new_dir
  open-root v name root nn = let ok : (ref == null) ≡ false = ground arith in rw (ok, root) refl

  -- In the root, where descriptor 0 is not open yet, the variables have an address, there are
  -- fewer than 2 ^ 32 root entries, and what stood in the long name of each, which the program
  -- never sets, has a NUL, the shell's ls ends, and prints the heading and then one line for each
  -- root entry of the mounted image, in their order, that long name included, and nothing else.
  pub list_current-rows :
      (v : Locals) (c : Console)
      → names_root v.directory_name ≡ true
      → ref ≢ null
      → length c.vm.vmfat.root_ents < u32_mod
      → find_dir (pos 0) c.vm.dirs ≡ none
      → ArePrintable c.vm.vmfat.root_ents
      → (v' : Locals) × (c' : Console) × (list_current console_calls
            (suc (length c.vm.vmfat.root_ents))
            v
            c
          ≡ some (v', c'))
        × (c'.printed ≡ c.printed ++ (heading ∷ rows c.vm.vmfat.root_ents))
  list_current-rows v c root nn narrow fresh printable =
      let dir = root_dir c.vm in
      let opened = open-root c.vm v.directory_name root nn in
      let w = with_root c.vm in
      let c₁ : Console = record { vm = w; printed = c.printed ++ (heading ∷ []) } in
      let v₁ = record v { dir_descriptor = pos 0 } in
      let (v', c', ran, out) =
        rows_lem (length c.vm.vmfat.root_ents) (suc (length c.vm.vmfat.root_ents)) v₁ c₁ dir
          (omega arith) nn narrow (find-snoc (pos 0) c.vm.dirs dir fresh refl) (omega arith)
          printable in
      (
        v',
        record c' { vm = (vm_directory_close c'.vm v'.dir_descriptor).2 },
        list_current-opened console_calls (suc (length c.vm.vmfat.root_ents)) v c
            (ap (on_vm c) opened) ran,
        out ∙ append_assoc c.printed (heading ∷ []) (rows c.vm.vmfat.root_ents),
      )
