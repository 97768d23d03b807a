-- ===== src/Program/Shell.antt =====
-- How the shell (apps/shell.c) reads a line and which command it takes it for. A string is the list
-- of its characters before the NUL, which is what `*p` gives behind the last one.
use proj.Base.{Option, none, some}
use proj.Base.{
  Bool, List, [], drop, false, get_or, if◌then◌else◌, leb, length, suc, take, true, zero, ℕ, ◌&&◌,
  ◌++◌, ◌==◌, ◌∷◌,
}
use proj.Base.Strings.{c_string}
pub mod Matching
pub mod Lines
pub mod Commands

unfoldable pub string_match : (left right : List ℕ) → Bool
string_match [] [] = true
string_match (c ∷ left) [] = false
string_match [] (d ∷ right) = false
string_match (c ∷ left) (d ∷ right) =
    let rest = string_match left right in if c == d then rest else false

unfoldable pub string_match_n : (left right : List ℕ) (n : ℕ) → Bool
string_match_n left right zero = true
string_match_n [] [] (suc n) = true
string_match_n (c ∷ left) [] (suc n) = false
string_match_n [] (d ∷ right) (suc n) = false
string_match_n (c ∷ left) (d ∷ right) (suc n) =
    let rest = string_match_n left right n in if c == d then rest else false

-- What reading the keyboard comes to: a line and the characters behind it, no newline yet, or a
-- character that is stored behind the buffer's end.
pub data Line : Type 0 where
  line : (text rest : List ℕ) → Line
  unfinished : Line
  overrun : Line

abbrev pub buffer_size : ℕ
buffer_size = 1024

-- `VMFileRead` stores a NUL behind each character, which needs a place in the buffer as well.
abbrev pub line_size : ℕ
line_size = 1023

-- The loop that reads character after character: `text` is the buffer up to `CharactersIn`, and
-- spaces in front are passed over. Each round writes into the buffer before it looks.
unfoldable pub read_line : (text input : List ℕ) → Line
read_line text [] = unfinished
read_line text (c ∷ input) =
    let skipped = read_line text input in
    let kept = read_line (text ++ (c ∷ [])) input in
    if leb line_size (length text)
    then overrun
    else if c == b'\n'
    then line text input
    else if length text == 0 && c == b' '
    then skipped
    else kept

-- The loop that cuts the spaces at the end: `n` is `CharactersIn`.
unfoldable pub trim : (n : ℕ) (text : List ℕ) → List ℕ
trim zero text = text
trim (suc n) text =
    let shorter = trim n (take n text) in if get_or text n 0 == b' ' then shorter else text

unfoldable pub skip_spaces : List ℕ → List ℕ
skip_spaces [] = []
skip_spaces (c ∷ s) = let rest = skip_spaces s in if c == b' ' then rest else c ∷ s

pub data Command : Type 0 where
  exit list_directory unknown : Command
  change_directory remove make_directory print_file : (path : List ℕ) → Command

abbrev pub is_exit : Command → Bool
is_exit exit = true
is_exit _ = false

-- The path behind a command's name of `n` characters: what follows the spaces. Where nothing does,
-- `cd`, `rm` and `mkdir` put a slash there.
unfoldable pub path_behind : (n : ℕ) (text : List ℕ) → List ℕ
unfolding skip_spaces
path_behind n text = skip_spaces (drop n text)

unfoldable pub or_slash : List ℕ → List ℕ
or_slash [] = b'/' ∷ []
or_slash (c ∷ path) = c ∷ path

abbrev pub cd_text : List ℕ
cd_text = b'c' ∷ b'd' ∷ []

abbrev pub rm_text : List ℕ
rm_text = b'r' ∷ b'm' ∷ []

abbrev pub mkdir_text : List ℕ
mkdir_text = b'm' ∷ b'k' ∷ b'd' ∷ b'i' ∷ b'r' ∷ []

abbrev pub cat_text : List ℕ
cat_text = b'c' ∷ b'a' ∷ b't' ∷ []

abbrev pub space : List ℕ
space = b' ' ∷ []

unfoldable pub command_of : (text : List ℕ) → Command
unfolding string_match string_match_n path_behind or_slash
command_of text =
    if string_match text (b'e' ∷ b'x' ∷ b'i' ∷ b't' ∷ [])
    then exit
    else if string_match text (b'l' ∷ b's' ∷ [])
    then list_directory
    else if string_match_n text (cd_text ++ space) 3
    then change_directory (or_slash (path_behind 2 text))
    else if string_match_n text (rm_text ++ space) 3
    then remove (or_slash (path_behind 2 text))
    else if string_match_n text (mkdir_text ++ space) 6
    then make_directory (or_slash (path_behind 5 text))
    else if string_match_n text (cat_text ++ space) 4
    then print_file (path_behind 3 text)
    else unknown

-- The command that a line in the buffer stands for.
unfoldable pub command_in : (buffer : List ℕ) → Command
unfolding trim command_of
command_in buffer = command_of (c_string (trim (length buffer) buffer))

-- A line and its command, with what is typed behind; there is none where the keyboard has no whole
-- line, or the buffer overflows.
unfoldable pub read_command : (input : List ℕ) → Option (Command × List ℕ)
unfolding read_line command_in
read_command input = elim (read_line [] input) [
  | line text rest ↦ some (command_in text, rest)
  | unfinished ↦ none
  | overrun ↦ none
]
