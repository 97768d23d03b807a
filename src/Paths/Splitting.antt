-- ===== src/Paths/Splitting.antt =====
-- A path that is put together by `VMFileSystemConsolidatePath` is taken apart again by
-- `VMFileSystemDirectoryFromFullPath` and `VMFileSystemFileFromFullPath` (VirtualMachineUtils.c).
use proj.Base.{subst}
use proj.Base.{
  drop, drop-append, drop-drop, if_intro, if◌then◌else◌, inl, inr, leb, length-append, sym, take,
  take-append_lt, take_all, ◌-◌,
}
use proj.Paths.{consolidate_path, max_path}
use native.Mathlib.Nat.{mod-eq_of_lt}
use proj.Base.{
  Bool, List, Option, [], ap, arith, false, length, none, refl, some, ℕ, ◌++◌, ◌+◌, ◌<◌, ◌==◌, ◌∙◌,
  ◌∷◌, ◌≡◌, ◌≢◌, ◌⊎◌,
}
use proj.Base.Words.{add32, u32_mod}
use proj.Paths.{
  IsName, Made, consolidate_loop, delimiter, delimiter_position, directory_from_full_path,
  file_from_full_path, made, string_length, string_length_loop,
}
use proj.Vm.State.{success}

delimiter_position-append :
    (s t : List ℕ) (index : ℕ) (found : Option ℕ)
    → delimiter_position (s ++ t) index found
      ≡ delimiter_position t (index + length s) (delimiter_position s index found)
unfolding delimiter_position
delimiter_position-append [] t index found = ap (λ i. delimiter_position t i found) (omega arith)
delimiter_position-append (c ∷ s) t index found =
    let seen = if c == delimiter then some index else found in
    delimiter_position-append s t (index + 1) seen
    ∙ ap (λ i. delimiter_position t i (delimiter_position s (index + 1) seen)) (omega arith)

delimiter_position_name :
    (s : List ℕ) (index : ℕ) (found : Option ℕ)
    → IsName s
    → delimiter_position s index found ≡ found
unfolding delimiter_position
delimiter_position_name [] index found h = refl
delimiter_position_name (c ∷ s) index found (hc, h) =
    let other : (c == delimiter) ≡ false = ground (arith, hc) in
    rw other (delimiter_position_name s (index + 1) found h)

-- The last delimiter of a path is the one behind the directory.
last_delimiter :
    (dir file : List ℕ)
    → IsName file
    → delimiter_position (dir ++ (delimiter ∷ file)) 0 none ≡ some (length dir)
unfolding delimiter_position
last_delimiter dir file h =
    delimiter_position-append dir (delimiter ∷ file) 0 none
    ∙ delimiter_position_name file (0 + length dir + 1) (some (0 + length dir)) h
    ∙ ap some (omega arith)

string_length_loop_lem :
    (s : List ℕ) (n : ℕ) → n + length s < u32_mod → string_length_loop s n ≡ n + length s
unfolding string_length_loop
string_length_loop_lem [] n h = omega arith
string_length_loop_lem (c ∷ s) n h =
    let step : add32 n 1 ≡ n + 1 = mod-eq_of_lt (omega (arith, h)) in
    ap (string_length_loop s) step
    ∙ string_length_loop_lem s (n + 1) (omega (arith, h))
    ∙ omega arith

pub string_length_lem : (s : List ℕ) → length s < u32_mod → string_length s ≡ length s
unfolding string_length
string_length_lem s h = string_length_loop_lem s 0 (omega (arith, h)) ∙ omega arith

-- The last of the bytes.
abbrev pub ends_with : (c : ℕ) → List ℕ → ℕ
ends_with c [] = c
ends_with c (d ∷ cs) = ends_with d cs

-- A directory in the form of the file system: the root, or a name that does not end in a delimiter.
abbrev pub IsDirectory : List ℕ → Type 0
IsDirectory [] = ⊥
IsDirectory (c ∷ cs) = ((c ≡ 47) × (cs ≡ [])) ⊎ (ends_with c cs ≢ 47)

pub consolidate_loop_lem :
    (c : ℕ) (cs : List ℕ) (index : ℕ) (was_last : Bool)
    → index + length cs < 255
    → consolidate_loop (c ∷ cs) index was_last
      ≡ some (index + length cs + 1, ends_with c cs == delimiter)
unfolding consolidate_loop
consolidate_loop_lem c [] index was_last h =
    let inside : (index == 255) ≡ false = ground (arith, h) in
    rw inside (ap (λ i. some (i, c == delimiter)) (omega arith))
consolidate_loop_lem c (d ∷ cs) index was_last h =
    let inside : (index == 255) ≡ false = ground (arith, h) in
    rw inside (
      consolidate_loop_lem d cs (index + 1) (c == delimiter) (omega (arith, h))
      ∙ ap (λ i. some (i, ends_with d cs == delimiter)) (omega arith))

module _ (dir file : List ℕ) (is_name : IsName file) (short : length dir + length file < 255) where
  abbrev path : List ℕ
  path = dir ++ (delimiter ∷ file)

  file_lem : file_from_full_path path ≡ made file
  unfolding file_from_full_path
  file_lem =
      let behind : drop (length dir + 1) path ≡ file =
        sym (drop-drop (length dir) 1 path) ∙ ap (drop 1) (drop-append dir (delimiter ∷ file)) in
      let fits : leb max_path (length path - length dir - 1) ≡ false =
        ground (arith, short, length-append {0} dir (delimiter ∷ file)) in
      rw (file_from_full_path, last_delimiter dir file is_name, fits, behind) refl

  directory_lem :
      directory_from_full_path path ≡ made (if length dir == 0 then delimiter ∷ [] else dir)
  unfolding directory_from_full_path
  directory_lem =
      let front : take (length dir) path ≡ dir =
        take-append_lt (length dir) dir (delimiter ∷ file) (omega arith)
        ∙ take_all (length dir) dir (omega arith) in
      let fits : leb max_path (length dir) ≡ false = ground (arith, short) in
      rw (directory_from_full_path, last_delimiter dir file is_name, fits, front)
        (if_intro (λ r. r ≡ made (if length dir == 0 then delimiter ∷ [] else dir))
          (length dir == 0) (λ root. rw root refl) (λ named. rw named refl))

-- What the three functions do with a directory and a name.
abbrev pub Splits : (dir file : List ℕ) → Made → Type 0
Splits dir file (success, some path) =
    (directory_from_full_path path ≡ made dir) × (file_from_full_path path ≡ made file)
Splits dir file _ = ⊥

-- The length that is tested, for a path that fits.
pub length_fits :
    (file : List ℕ) (n : ℕ)
    → n + length file < 256
    → leb max_path (add32 (string_length file) n) ≡ false
length_fits file n short =
    let total : add32 (string_length file) n ≡ length file + n =
      ap (λ l. add32 l n) (string_length_lem file (omega (arith, short)))
      ∙ mod-eq_of_lt (omega (arith, short)) in
    rw total (ground (arith, short))

pub consolidate_root :
    (file : List ℕ)
    → length file < 255
    → consolidate_path (delimiter ∷ []) file ≡ made (delimiter ∷ file)
unfolding consolidate_path consolidate_loop
consolidate_root file short = rw (length_fits file 1 (omega (arith, short))) refl

pub consolidate_inner :
    (c : ℕ) (cs file : List ℕ)
    → ends_with c cs ≢ 47
    → length (c ∷ cs) + length file < 255
    → consolidate_path (c ∷ cs) file ≡ made (c ∷ (cs ++ (delimiter ∷ file)))
unfolding consolidate_path consolidate_loop
consolidate_inner c cs file inner short =
    let open_end : (ends_with c cs == 47) ≡ false = ground (arith, inner) in
    let loop : consolidate_loop (c ∷ cs) 0 false ≡ some (0 + length cs + 1, false) =
      consolidate_loop_lem c cs 0 false (omega (arith, short))
      ∙ ap (λ b. some (0 + length cs + 1, b)) open_end in
    rw (loop, length_fits file (0 + length cs + 1 + 1) (omega (arith, short))) refl

path-Splits :
    (dir file : List ℕ)
    → IsName file
    → length dir + length file < 255
    → Splits
        (if length dir == 0 then delimiter ∷ [] else dir)
        file
        (made (dir ++ (delimiter ∷ file)))
path-Splits dir file is_name short =
    (directory_lem dir file is_name short, file_lem dir file is_name short)

-- A directory, the root or a path that does not end in a delimiter, and a name without delimiters,
-- short enough together, are consolidated, and VMFileSystemDirectoryFromFullPath and
-- VMFileSystemFileFromFullPath take the result apart into the same directory and name.
pub consolidate_path-Splits :
    (dir file : List ℕ)
    → IsDirectory dir
    → IsName file
    → length dir + length file < 255
    → Splits dir file (consolidate_path dir file)
unfolding consolidate_path
consolidate_path-Splits [] file h is_name short = elim h [ ]
consolidate_path-Splits (c ∷ cs) file (inl (is_root, alone)) is_name short =
    let root : c ∷ cs ≡ delimiter ∷ [] = rw (is_root, alone) refl in
    subst (λ d. Splits d file (consolidate_path d file)) (sym root)
      (subst (Splits (delimiter ∷ []) file) (sym (consolidate_root file (omega (arith, short))))
        (path-Splits [] file is_name (omega (arith, short))))
consolidate_path-Splits (c ∷ cs) file (inr inner) is_name short =
    let not_empty : (length (c ∷ cs) == 0) ≡ false = ground arith in
    subst (Splits (c ∷ cs) file) (sym (consolidate_inner c cs file inner short)) (
      subst
        (λ t.
          Splits (if t then delimiter ∷ [] else c ∷ cs) file
            (made (c ∷ (cs ++ (delimiter ∷ file)))))
        not_empty (path-Splits (c ∷ cs) file is_name short))
