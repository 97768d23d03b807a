-- ===== src/Paths/Simplify/Parent.antt =====
-- A name under a directory and `..` behind it, by `VMFileSystemSimplifyPath` (VirtualMachineUtils.c).
-- A name is added byte by byte.
use proj.Paths.Simplify.Names.{
  Closed, IsName-reverse_aux, add_entry_name, directory-Closed, get_or-reverse_aux,
  up_directory_name,
}
use proj.Paths.{is_absolute_path}
use proj.Paths.Simplify.Rooted.{IsSimple, simplify_path-IsSimple}
use mathlib.Core.List.{reverse-append}
use proj.Base.{ltb, suc, sym, true, zero}
use proj.Paths.Simplify.{Simplified, finish}
use mathlib.Core.List.{reverse_aux-eq, reverse_aux-reverse_aux-nil}
use proj.Base.{subst, ◌<◌, ◌∙◌, ◌≢◌}
use proj.Paths.{Made, consolidate_path, period, made}
use proj.Paths.Simplify.{Entry, entry_of, simplify_loop, simplify_path}
use proj.Paths.Simplify.Rooted.{length-reverse_aux}
use proj.Vm.State.{success}
use mathlib.Core.List.{reverse-reverse}
use mathlib.Core.List.{reverse_aux}
use proj.Base.{
  List, [], ap, arith, false, get_or, length, refl, reverse, some, ℕ, ◌++◌, ◌+◌, ◌==◌, ◌∷◌, ◌≡◌,
  ◌≤◌,
}
use proj.Paths.{IsName, delimiter, max_path}
use proj.Paths.Simplify.{close_entry, trim_last, up_directory}
use proj.Paths.Splitting.{IsDirectory, ends_with}

ends_with_name : (c : ℕ) (cs : List ℕ) → IsName (c ∷ cs) → ends_with c cs ≢ 47
ends_with_name c [] h = h.0
ends_with_name c (d ∷ cs) h = ends_with_name d cs h.1

trim_last_other : (s : List ℕ) → get_or s 0 0 ≢ 47 → trim_last s ≡ s
unfolding trim_last
trim_last_other [] h = refl
trim_last_other (c ∷ []) h = refl
trim_last_other (c ∷ d ∷ s) h =
    let other : (c == delimiter) ≡ false = ground (arith, h) in rw other refl

simplify_loop-nil :
    (fuel : ℕ) (sim : List ℕ) → simplify_loop fuel sim [] ≡ Simplified.simplified sim
unfolding simplify_loop
simplify_loop-nil zero sim = refl
simplify_loop-nil (suc fuel) sim = refl

loop_name :
    (fuel : ℕ) (sim b : List ℕ) (c : ℕ) (cs : List ℕ)
    → close_entry sim ≡ delimiter ∷ b
    → IsName (c ∷ cs)
    → entry_of (c ∷ cs) ≡ Entry.named
    → length b + length (c ∷ cs) < 256
    → simplify_loop (suc fuel) sim (c ∷ cs)
      ≡ Simplified.simplified (reverse_aux (c ∷ cs) (delimiter ∷ b))
unfolding simplify_loop
loop_name fuel sim b c cs closed is_name is_named short =
    rw
      (
        simplify_loop,
        is_named,
        closed,
        add_entry_name (delimiter ∷ b) (c ∷ cs) is_name (omega (arith, short)),
      )
      (simplify_loop-nil fuel _)

-- The tests before the loop.
simplify_checked :
    (abspath relpath : List ℕ)
    → get_or relpath 0 0 ≢ 47
    → get_or abspath 0 0 ≡ 47
    → length abspath ≤ 256
    → simplify_path abspath relpath
      ≡ finish (simplify_loop (length relpath) (reverse abspath) relpath)
unfolding simplify_path
simplify_checked abspath relpath relative absolute short =
    let relative' : (get_or relpath 0 0 == delimiter) ≡ false = ground (arith, relative) in
    let absolute' : (get_or abspath 0 0 == delimiter) ≡ true = ground (arith, absolute) in
    let short' : ltb max_path (length abspath) ≡ false = ground (arith, short) in
    rw (relative', absolute', short') refl

simplify_name :
    (dir b : List ℕ) (c : ℕ) (cs : List ℕ)
    → get_or dir 0 0 ≡ 47
    → Closed dir b
    → IsName (c ∷ cs)
    → entry_of (c ∷ cs) ≡ Entry.named
    → length dir + length (c ∷ cs) < 255
    → simplify_path dir (c ∷ cs) ≡ made (reverse (delimiter ∷ b) ++ (c ∷ cs))
unfolding finish
simplify_name dir b c cs absolute (closed, trimmed, short_b, together) is_name is_named short =
    let name = c ∷ cs in
    simplify_checked dir name is_name.0 absolute (omega (arith, short))
    ∙ ap finish (
        loop_name (length cs) (reverse dir) b c cs closed is_name is_named
          (omega (arith, short, short_b)))
    ∙ ap (λ s. made (reverse s))
        (trim_last_other (reverse_aux name (delimiter ∷ b)) (
          subst (λ x. x ≢ 47) (sym (get_or-reverse_aux c cs (delimiter ∷ b)))
            (ends_with_name c cs is_name)))
    ∙ ap made
        (reverse_aux-reverse_aux-nil name (delimiter ∷ b) ∙ reverse_aux-eq (delimiter ∷ b) name)

first_of : (t : List ℕ) → 0 < length t → (x : ℕ) × (s : List ℕ) × (t ≡ x ∷ s)
first_of [] h = elim h [ ]
first_of (x ∷ s) h = (x, s, refl)

loop_parent :
    (sim up : List ℕ)
    → up_directory sim ≡ some up
    → simplify_loop 2 sim (period ∷ period ∷ []) ≡ Simplified.simplified up
unfolding simplify_loop entry_of
loop_parent sim up h = rw (simplify_loop, h) refl

-- `..` behind the path of a name.
simplify_parent :
    (dir b : List ℕ) (c : ℕ) (cs : List ℕ)
    → Closed dir b
    → IsName (c ∷ cs)
    → let path = reverse (delimiter ∷ b) ++ (c ∷ cs) in
      (get_or path 0 0 ≡ 47)
      → length path ≤ 256
      → simplify_path path (period ∷ period ∷ []) ≡ made dir
unfolding finish
simplify_parent dir b c cs (closed, trimmed, short_b, together) is_name absolute short =
    let path = reverse (delimiter ∷ b) ++ (c ∷ cs) in
    let (x, s, e) = first_of (reverse (c ∷ cs)) (omega (arith, length-reverse_aux (c ∷ cs) [])) in
    let backwards : reverse path ≡ x ∷ (s ++ (delimiter ∷ b)) =
      reverse-append (reverse (delimiter ∷ b)) (c ∷ cs)
      ∙ ap (λ t. reverse (c ∷ cs) ++ t) (reverse-reverse (delimiter ∷ b))
      ∙ ap (λ t. t ++ (delimiter ∷ b)) e in
    let is_name' : IsName (x ∷ s) = subst IsName e (IsName-reverse_aux (c ∷ cs) [] is_name tt) in
    simplify_checked path (period ∷ period ∷ []) (omega arith) absolute short
    ∙ ap (λ sim. finish (simplify_loop 2 sim (period ∷ period ∷ []))) backwards
    ∙ ap finish (
        loop_parent (x ∷ (s ++ (delimiter ∷ b))) (delimiter ∷ b) (up_directory_name x s b is_name'))
    ∙ ap made trimmed

absolute_lem : (path : List ℕ) → is_absolute_path path ≡ success → get_or path 0 0 ≡ 47
unfolding is_absolute_path
absolute_lem path h = ground (arith, h)

-- A name under a directory: the path is the one of `VMFileSystemConsolidatePath`, and `..` takes it
-- back.
abbrev pub Descends : (dir name : List ℕ) → Made → Type 0
Descends dir name (success, some path) =
    (consolidate_path dir name ≡ made path) × (simplify_path path (period ∷ period ∷ []) ≡ made dir)
Descends dir name _ = ⊥

-- For an absolute directory in normal form and a name that is not empty, has no delimiter and is
-- not taken for a dot entry, short enough together, VMFileSystemSimplifyPath gives the path that
-- VMFileSystemConsolidatePath gives, and simplifying `..` behind that path gives the directory
-- again.
pub simplify_path-Descends :
    (dir : List ℕ) (c : ℕ) (cs : List ℕ)
    → is_absolute_path dir ≡ success
    → IsDirectory dir
    → IsName (c ∷ cs)
    → entry_of (c ∷ cs) ≡ Entry.named
    → length dir + length (c ∷ cs) < 255
    → Descends dir (c ∷ cs) (simplify_path dir (c ∷ cs))
simplify_path-Descends dir c cs absolute is_dir is_name is_named short =
    let (b, closing) = directory-Closed dir is_dir in
    let name = c ∷ cs in
    let path = reverse (delimiter ∷ b) ++ name in
    let simple_eq : simplify_path dir name ≡ made path =
      simplify_name dir b c cs (absolute_lem dir absolute) closing is_name is_named short in
    let is_simple : IsSimple (made path) =
      subst IsSimple simple_eq (simplify_path-IsSimple dir name) in
    subst (Descends dir name) (sym simple_eq) (
      closing.3 name short,
      simplify_parent dir b c cs closing is_name (absolute_lem path is_simple.0) is_simple.1,
    )
