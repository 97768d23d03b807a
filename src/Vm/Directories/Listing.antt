-- ===== src/Vm/Directories/Listing.antt =====
-- Calls of `VMDirectoryRead` (VirtualMachine.cpp), one after the other, on an open directory.
use proj.Base.Int.{pos}
use proj.Fat.Entries.{fill_dir_ent}
use proj.Vm.Directories.{names_root, new_dir, vm_directory_open}
use mathlib.Core.Option.{some-injective}
use native.Mathlib.Nat.{mod-eq_of_lt}
use Prim.Native.Nat.add
use proj.Base.{[]}
use proj.Base.{
  Bool-cases, List, Option, ap, arith, drop, false, get_elem?, inl, inr, leb, length, none, refl,
  some, suc, sym, true, zero, ℕ, ◌++◌, ◌+◌, ◌<◌, ◌==◌, ◌∙◌, ◌∷◌, ◌∷◌, ◌≡◌, ◌≢◌, ◌≤◌,
}
use proj.Base.Int.{ℤ, ◌==ℤ◌}
use proj.Base.Words.{add32, null, u32_mod}
use proj.Fat.Entries.{DirEntry}
use proj.Fat.Image.{get_root_ent}
use proj.Vm.Directories.{change_dir_at, find_dir, inc_pos, read_dir, vm_directory_read}
use proj.Vm.State.{Dir, Vm, failure, resume, success, suspend}

pub get_elem?-drop :
    {A : Type 0}
    → (xs : List A) (p : ℕ) → p < length xs
    → (x : A) × (get_elem? xs p ≡ some x) × (drop p xs ≡ x ∷ drop (p + 1) xs)
get_elem?-drop [] p h = elim h [ ]
get_elem?-drop (x ∷ xs) zero h = (x, refl, refl)
get_elem?-drop (x ∷ xs) (suc p) h =
    let (y, at_p, rest) = get_elem?-drop xs p (omega (arith, h)) in (y, at_p, rw add.suc rest)

pub drop-length : {A : Type 0} → (xs : List A) → drop (length xs) xs ≡ []
drop-length [] = refl
drop-length (x ∷ xs) = drop-length xs

-- A change that keeps the descriptor is made in the object that is found.
pub find-change_dir_at :
    (change : Dir → Dir) (d : ℤ) (dirs : List Dir) {dir : Dir}
    → ((x : Dir) → (change x).dirdesc ≡ x.dirdesc)
    → find_dir d dirs ≡ some dir
    → find_dir d (change_dir_at d change dirs) ≡ some (change dir)
unfolding find_dir change_dir_at
find-change_dir_at change d [] keeps e = cc
find-change_dir_at change d (x ∷ xs) keeps e = elim (Bool-cases (x.dirdesc ==ℤ d)) [
  | inl hit ↦
      let hit' : ((change x).dirdesc ==ℤ d) ≡ true = ap (λ y. y ==ℤ d) (keeps x) ∙ hit in
      rw hit (rw hit' (ap (λ y. some (change y)) (some-injective _ _ (rw hit at e))))
  | inr miss ↦ rw miss (rw miss (find-change_dir_at change d xs keeps (rw miss at e)))
]

-- The state after a read that succeeded.
abbrev pub moved : Vm → ℤ → Vm
moved v d = resume (record (suspend v) { dirs = change_dir_at d inc_pos v.dirs })

pub read-some :
    (v : Vm) (d : ℤ) (ref : ℕ) (dir : Dir) (ent : DirEntry)
    → ref ≢ null
    → find_dir d v.dirs ≡ some dir
    → dir.pos < length v.vmfat.root_ents
    → get_elem? v.vmfat.root_ents dir.pos ≡ some ent
    → vm_directory_read v d ref ≡ (success, some ent, moved v d)
unfolding vm_directory_read read_dir get_root_ent
read-some v d ref dir ent nn found inside at_pos =
    let ok : (ref == null) ≡ false = ground arith in
    let more : leb (length v.vmfat.root_ents) dir.pos ≡ false = ground arith in
    rw (ok, found, read_dir, get_root_ent, more, at_pos)

pub read-end :
    (v : Vm) (d : ℤ) (ref : ℕ) (dir : Dir)
    → ref ≢ null
    → find_dir d v.dirs ≡ some dir
    → length v.vmfat.root_ents ≤ dir.pos
    → vm_directory_read v d ref ≡ (failure, none, resume (suspend v))
unfolding vm_directory_read read_dir get_root_ent
read-end v d ref dir nn found out =
    let ok : (ref == null) ≡ false = ground arith in
    let done : leb (length v.vmfat.root_ents) dir.pos ≡ true = ground arith in
    rw (ok, found, read_dir, get_root_ent, done)

-- `n` reads: the entries that they stored, and the state.
abbrev pub stored_entry : Option DirEntry → List DirEntry
stored_entry none = []
stored_entry (some ent) = ent ∷ []

abbrev pub listed : ℕ → ℤ → (ref : ℕ) → Vm → List DirEntry × Vm
listed zero d ref v = ([], v)
listed (suc n) d ref v =
    let r = vm_directory_read v d ref in
    let rest = listed n d ref r.2 in (stored_entry r.1 ++ rest.0, rest.1)

pub listed_lem :
    (n : ℕ) (v : Vm) (d : ℤ) (ref : ℕ) (dir : Dir)
    → ref ≢ null
    → length v.vmfat.root_ents < u32_mod
    → find_dir d v.dirs ≡ some dir
    → dir.pos + n ≡ length v.vmfat.root_ents
    → ((listed n d ref v).0 ≡ drop dir.pos v.vmfat.root_ents)
      × ((vm_directory_read (listed n d ref v).1 d ref).0 ≡ failure)
listed_lem zero v d ref dir nn narrow found all =
    let here : dir.pos ≡ length v.vmfat.root_ents = omega (arith, all) in
    (
      rw here (sym (drop-length v.vmfat.root_ents)),
      ap (λ r. r.0) (read-end v d ref dir nn found (omega (arith, here))),
    )
listed_lem (suc n) v d ref dir nn narrow found all =
    let ents = v.vmfat.root_ents in
    let inside : dir.pos < length ents = omega (arith, all) in
    let (ent, at_pos, split) = get_elem?-drop ents dir.pos inside in
    let step = read-some v d ref dir ent nn found inside at_pos in
    let next : add32 dir.pos 1 ≡ dir.pos + 1 = mod-eq_of_lt (omega (arith, inside, narrow)) in
    let rest =
      listed_lem n (moved v d) d ref (inc_pos dir) nn narrow
        (find-change_dir_at inc_pos d v.dirs (λ x. refl) found) (omega (arith, next, all)) in
    rw (step, split) (ap (◌∷◌ ent) (rest.0 ∙ ap (λ p. drop p ents) next), rest.1)

pub find-snoc :
    (d : ℤ) (dirs : List Dir) (dir : Dir)
    → find_dir d dirs ≡ none
    → (dir.dirdesc ==ℤ d) ≡ true
    → find_dir d (dirs ++ (dir ∷ [])) ≡ some dir
unfolding find_dir
find-snoc d [] dir e same = rw same
find-snoc d (x ∷ xs) dir e same = elim (Bool-cases (x.dirdesc ==ℤ d)) [
  | inl hit ↦ cc (rw hit at e)
  | inr miss ↦ rw miss (find-snoc d xs dir (rw miss at e) same)
]

module _ (read_at : ℕ → ℕ → List ℕ) (blank : DirEntry) (junk : ℤ) where
  -- Where descriptor 0 is not open yet, references are not NULL and there are fewer than 2 ^ 32
  -- root entries, the root directory that VMDirectoryOpen opens is listed by VMDirectoryRead: as
  -- many calls as there are root entries store them all, in order, and the next call fails.
  pub vm_directory_open-listed :
      (v : Vm) (name : List ℕ) (dirdescriptor ref : ℕ)
      → names_root name ≡ true
      → dirdescriptor ≢ null
      → ref ≢ null
      → length v.vmfat.root_ents < u32_mod
      → find_dir (pos 0) v.dirs ≡ none
      → let w = (vm_directory_open read_at blank junk v (some name) dirdescriptor).2 in
        let n = length v.vmfat.root_ents in
        ((listed n (pos 0) ref w).0 ≡ v.vmfat.root_ents)
        × ((vm_directory_read (listed n (pos 0) ref w).1 (pos 0) ref).0 ≡ failure)
  unfolding vm_directory_open new_dir
  vm_directory_open-listed v name dirdescriptor ref root nd nr narrow fresh =
      let ok : (dirdescriptor == null) ≡ false = ground arith in
      let dir : Dir = record {
        dirent = fill_dir_ent blank v.vmfat.root;
        dirdesc = pos 0;
        pos = 0;
      } in
      let w = resume (record (suspend v) { dirs = v.dirs ++ (dir ∷ []) }) in
      rw (ok, root)
        (listed_lem (length v.vmfat.root_ents) w (pos 0) ref dir nr narrow
          (find-snoc (pos 0) v.dirs dir fresh refl) (omega arith))
