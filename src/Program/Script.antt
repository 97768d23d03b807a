-- ===== src/Program/Script.antt =====
-- A whole session of the shell (apps/shell.c), against the commands that are typed.
use proj.Base.{List, Option, [], length, none, some, ℕ, ◌++◌, ◌<◌, ◌∷◌}
use proj.Program.Host.{DirectoryCalls, FileCalls, NodeCalls, prompt}
use proj.Program.Session.{Locals, run_command, assigned}
use proj.Program.Shell.{Command, line_size}
use proj.Program.Shell.Commands.{IsWord, Verb, typed_text}
use proj.Program.Shell.Lines.{spaces}

-- A line with a command and its path, and the spaces around them.
pub record TypedLine : Type 0 where
  pub verb : Verb
  pub before : ℕ
  pub between : ℕ
  pub behind : ℕ
  pub path : List ℕ

abbrev pub text_of : TypedLine → List ℕ
text_of e = typed_text e.verb e.between e.path ++ spaces e.behind

-- The path is a word, and the line fits in the buffer.
abbrev pub IsTypedLine : TypedLine → Type 0
IsTypedLine e = IsWord e.path × (length (text_of e) < line_size)

-- What is typed for the lines, and for `exit` behind them.
abbrev pub script : List TypedLine → List ℕ
script [] = b'e' ∷ b'x' ∷ b'i' ∷ b't' ∷ b'\n' ∷ []
script (e ∷ es) = spaces e.before ++ (text_of e ++ (b'\n' ∷ script es))

module _ {S : Type 0} (dirs : DirectoryCalls S) (nodes : NodeCalls S) (files : FileCalls S)
    (fuel : ℕ) where
  -- The prompt, with the path that VMDirectoryCurrent gives.
  abbrev pub prompted : Locals → S → Locals × S
  prompted v s =
      let (st, name, s₁) = dirs.current s in
      let directory = assigned v.directory_name name in
      (record v { directory_name = directory }, dirs.print (prompt directory) s₁)

  -- The commands one after the other, each behind a prompt, and the prompt of the last line.
  abbrev pub run_all : List Command → Locals → S → Option (Locals × S)
  run_all [] v s = some (prompted v s)
  run_all (c ∷ cs) v s =
      elim (run_command dirs nodes files fuel c (prompted v s).0 (prompted v s).1) [
        | none ↦ none
        | some (v', s') ↦ run_all cs v' s'
      ]

  -- What is left of the input, if anything went on to the end.
  abbrev pub ended_with : List ℕ → Option (Locals × S) → Option (List ℕ × Locals × S)
  ended_with rest none = none
  ended_with rest (some (v, s)) = some (rest, v, s)
