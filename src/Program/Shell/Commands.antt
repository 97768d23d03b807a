-- ===== src/Program/Shell/Commands.antt =====
-- The commands of the shell (apps/shell.c) that take a path.
use proj.Base.{length, lt→ltb, refl, some, ◌<◌}
use proj.Program.Shell.{line_size, line, read_command, read_line, unknown}
use proj.Program.Shell.Lines.{read_line_lem}
use mathlib.Core.List.{append_assoc}
use proj.Base.{All, arith, subst, sym, ◌∙◌}
use proj.Base.Strings.{IsString, c_string, c_string_self}
use proj.Program.Shell.{command_in}
use proj.Program.Shell.Lines.{spaces-IsTyped, trim_lem}
use proj.Base.{List, [], ap, suc, ℕ, ◌++◌, ◌∷◌, ◌≡◌, ◌≢◌}
use proj.Program.Shell.{
  Command, cat_text, cd_text, change_directory, command_of, make_directory, mkdir_text, or_slash,
  path_behind, print_file, remove, rm_text, string_match, string_match_n,
}
use proj.Program.Shell.Lines.{IsTyped, skip_spaces-append, spaces}

pub data Verb : Type 0 where
  cd rm mkdir cat : Verb

abbrev pub verb_text : Verb → List ℕ
verb_text cd = cd_text
verb_text rm = rm_text
verb_text mkdir = mkdir_text
verb_text cat = cat_text

abbrev pub with_path : Verb → List ℕ → Command
with_path cd path = change_directory path
with_path rm path = remove path
with_path mkdir path = make_directory path
with_path cat path = print_file path

-- A path that is typed: it has no space at either end.
abbrev pub IsWord : List ℕ → Type 0
IsWord path =
    (p : ℕ) × (u : List ℕ) × (q : ℕ) × (us : List ℕ) × (path ≡ p ∷ u)
    × (path ≡ us ++ (q ∷ []))
    × (p ≢ b' ')
    × (q ≢ b' ')
    × IsTyped path

word-IsTyped : (path : List ℕ) → IsWord path → IsTyped path
word-IsTyped path (p, u, q, us, starts, ends, hp, hq, all) = all

-- What is typed behind the spaces in front.
abbrev pub typed_text : Verb → (k : ℕ) (path : List ℕ) → List ℕ
typed_text verb k path = verb_text verb ++ (spaces (suc k) ++ path)

command_of_typed :
    (verb : Verb) (k p : ℕ) (path : List ℕ)
    → p ≢ b' '
    → command_of (typed_text verb k (p ∷ path)) ≡ with_path verb (p ∷ path)
unfolding command_of string_match string_match_n path_behind or_slash
command_of_typed cd k p path h =
    ap (λ s. change_directory (or_slash s)) (skip_spaces-append k p path h)
command_of_typed rm k p path h = ap (λ s. remove (or_slash s)) (skip_spaces-append k p path h)
command_of_typed mkdir k p path h =
    ap (λ s. make_directory (or_slash s)) (skip_spaces-append k p path h)
command_of_typed cat k p path h = ap print_file (skip_spaces-append k p path h)

verb-IsTyped : (verb : Verb) (s : List ℕ) → IsTyped s → IsTyped (verb_text verb ++ s)
verb-IsTyped cd s h = ground (arith, h)
verb-IsTyped rm s h = ground (arith, h)
verb-IsTyped mkdir s h = ground (arith, h)
verb-IsTyped cat s h = ground (arith, h)

All-append {ℓ κ} :
    {A : Type ℓ} (P : A → Type κ) (xs ys : List A) → All P xs → All P ys → All P (xs ++ ys)
All-append P [] ys hx hy = hy
All-append P (x ∷ xs) ys hx hy = (hx.0, All-append P xs ys hx.1 hy)

-- No character of such a text ends the string.
IsTyped-IsString : (s : List ℕ) → IsTyped s → IsString s
IsTyped-IsString [] h = tt
IsTyped-IsString (c ∷ s) h = (h.0.0, IsTyped-IsString s h.1)

typed_text-IsTyped :
    (verb : Verb) (k : ℕ) (path : List ℕ) → IsTyped path → IsTyped (typed_text verb k path)
typed_text-IsTyped verb k path h =
    verb-IsTyped verb (spaces (suc k) ++ path)
      (All-append (λ c. (c ≢ 0) × (c ≢ b'\n')) (spaces (suc k)) path (spaces-IsTyped (suc k)) h)

-- A line with spaces behind it stands for the command that the line without them does.
command_in-spaces :
    (u : List ℕ) (c j : ℕ)
    → c ≢ b' '
    → IsTyped (u ++ (c ∷ []))
    → command_in ((u ++ (c ∷ [])) ++ spaces j) ≡ command_of (u ++ (c ∷ []))
unfolding command_in
command_in-spaces u c j h all =
    ap (λ s. command_of (c_string s)) (trim_lem u c j h)
    ∙ ap command_of (c_string_self (u ++ (c ∷ [])) (IsTyped-IsString (u ++ (c ∷ [])) all))

typed_command :
    (verb : Verb) (k j : ℕ) (path : List ℕ)
    → IsWord path
    → command_in (typed_text verb k path ++ spaces j) ≡ with_path verb path
typed_command verb k j path (p, u, q, us, starts, ends, hp, hq, all) =
    let front = verb_text verb ++ (spaces (suc k) ++ us) in
    let whole : typed_text verb k path ≡ front ++ (q ∷ []) =
      ap (typed_text verb k) ends
      ∙ ap (λ s. verb_text verb ++ s) (sym (append_assoc (spaces (suc k)) us (q ∷ [])))
      ∙ sym (append_assoc (verb_text verb) (spaces (suc k) ++ us) (q ∷ [])) in
    let kept = typed_text-IsTyped verb k path all in
    ap (λ s. command_in (s ++ spaces j)) whole
    ∙ command_in-spaces front q j hq (subst IsTyped whole kept)
    ∙ ap command_of (sym whole)
    ∙ ap (λ s. command_of (typed_text verb k s)) starts
    ∙ command_of_typed verb k p u hp
    ∙ ap (with_path verb) (sym starts)

-- A command's name alone, which is not followed by a space once the line is cut.
bare_command : (verb : Verb) (j : ℕ) → command_in (verb_text verb ++ spaces j) ≡ unknown
unfolding command_of string_match string_match_n
bare_command cd j =
    command_in-spaces (b'c' ∷ []) b'd' j (λ e. omega (arith, e)) (verb-IsTyped cd [] tt)
bare_command rm j =
    command_in-spaces (b'r' ∷ []) b'm' j (λ e. omega (arith, e)) (verb-IsTyped rm [] tt)
bare_command mkdir j =
    command_in-spaces (b'm' ∷ b'k' ∷ b'd' ∷ b'i' ∷ []) b'r' j (λ e. omega (arith, e))
      (verb-IsTyped mkdir [] tt)
bare_command cat j =
    command_in-spaces (b'c' ∷ b'a' ∷ []) b't' j (λ e. omega (arith, e)) (verb-IsTyped cat [] tt)

verb_line :
    (verb : Verb) (i : ℕ) (s rest : List ℕ)
    → IsTyped s
    → length (verb_text verb ++ s) < line_size
    → read_line [] (spaces i ++ ((verb_text verb ++ s) ++ (b'\n' ∷ rest)))
      ≡ line (verb_text verb ++ s) rest
verb_line cd i s rest h fits =
    read_line_lem i b'c' (b'd' ∷ s) rest (λ e. omega (arith, e)) (verb-IsTyped cd s h)
    ∙ rw (lt→ltb _ _ fits) refl
verb_line rm i s rest h fits =
    read_line_lem i b'r' (b'm' ∷ s) rest (λ e. omega (arith, e)) (verb-IsTyped rm s h)
    ∙ rw (lt→ltb _ _ fits) refl
verb_line mkdir i s rest h fits =
    read_line_lem i b'm' (b'k' ∷ b'd' ∷ b'i' ∷ b'r' ∷ s) rest (λ e. omega (arith, e))
      (verb-IsTyped mkdir s h)
    ∙ rw (lt→ltb _ _ fits) refl
verb_line cat i s rest h fits =
    read_line_lem i b'c' (b'a' ∷ b't' ∷ s) rest (λ e. omega (arith, e)) (verb-IsTyped cat s h)
    ∙ rw (lt→ltb _ _ fits) refl

-- Where `cd`, `rm`, `mkdir` or `cat` is typed with spaces and a path behind it, any number of
-- spaces in front and at the end, and a newline, in fewer characters than the buffer has, the
-- shell takes the line for that command with exactly that path, and leaves what is typed next.
pub read_command_typed :
    (verb : Verb) (i k j : ℕ) (path rest : List ℕ)
    → IsWord path
    → length (typed_text verb k path ++ spaces j) < line_size
    → read_command (spaces i ++ ((typed_text verb k path ++ spaces j) ++ (b'\n' ∷ rest)))
      ≡ some (with_path verb path, rest)
unfolding read_command
read_command_typed verb i k j path rest word fits =
    let s = (spaces (suc k) ++ path) ++ spaces j in
    let same : typed_text verb k path ++ spaces j ≡ verb_text verb ++ s =
      append_assoc (verb_text verb) (spaces (suc k) ++ path) (spaces j) in
    let kept : IsTyped s =
      All-append (λ c. (c ≢ 0) × (c ≢ b'\n')) (spaces (suc k) ++ path) (spaces j)
        (All-append (λ c. (c ≢ 0) × (c ≢ b'\n')) (spaces (suc k)) path (spaces-IsTyped (suc k))
          (word-IsTyped path word))
        (spaces-IsTyped j) in
    let fits' : length (verb_text verb ++ s) < line_size =
      subst (λ l. length l < line_size) same fits in
    rw (same, read_command, verb_line verb i s rest kept fits')
      (ap (λ c. some (c, rest)) (ap command_in (sym same) ∙ typed_command verb k j path word))

-- `cd`, `rm`, `mkdir` and `cat` alone, with any number of spaces before and behind that fits in
-- the buffer, are no command: the spaces behind are cut before the name is looked for with a space
-- behind it.
pub read_command_bare :
    (verb : Verb) (i j : ℕ) (rest : List ℕ)
    → length (verb_text verb ++ spaces j) < line_size
    → read_command (spaces i ++ ((verb_text verb ++ spaces j) ++ (b'\n' ∷ rest)))
      ≡ some (unknown, rest)
unfolding read_command
read_command_bare verb i j rest fits =
    rw (read_command, verb_line verb i (spaces j) rest (spaces-IsTyped j) fits)
      (ap (λ c. some (c, rest)) (bare_command verb j))
