-- ===== src/Program/Options/Usage.antt =====
-- The command line of `main` (main.c) as its messages describe it: each option by its letter, and the
-- variable that it sets.
use mathlib.Core.Option.{some-injective}
use proj.Base.{
  List, Option, Option-cases, [], ap, inl, inr, map, none, refl, some, suc, sym, zero, ℕ, ◌++◌, ◌↔◌,
  ◌∙◌, ◌∷◌, ◌≡◌, ◌≢◌, ◌⊎◌,
}
use proj.Base.Int.{negsuc, pos, ℤ}
use proj.Program.Options.{
  Flag, Settings, checked_int, checked_unsigned, flag_of, flag_text, heap, machine_tick, mount,
  read_options, run, set_option, shared, tick,
}
use proj.Program.Options.Grammar.{
  IsModule, Runs-reads, flag_of-flag_text, flag_of→eq, reads-Runs, render, set_all,
}

module _ (scan_int : List ℕ → Option ℤ) (scan_unsigned : List ℕ → Option ℕ) where
  -- `-t` with a positive number.
  abbrev SetsTick : (name param : List ℕ) → Settings → Settings → Type 0
  SetsTick name param s u =
      (name ≡ b'-' ∷ b't' ∷ [])
      × (n : ℕ) × (scan_int param ≡ some (pos (suc n)))
      × (record s { tick_time_ms = pos (suc n) } ≡ u)

  -- `-m` with a positive number.
  abbrev SetsMachineTick : (name param : List ℕ) → Settings → Settings → Type 0
  SetsMachineTick name param s u =
      (name ≡ b'-' ∷ b'm' ∷ [])
      × (n : ℕ) × (scan_int param ≡ some (pos (suc n)))
      × (record s { machine_tick_time = pos (suc n) } ≡ u)

  -- `-h` with a positive number.
  abbrev SetsHeap : (name param : List ℕ) → Settings → Settings → Type 0
  SetsHeap name param s u =
      (name ≡ b'-' ∷ b'h' ∷ [])
      × (n : ℕ) × (scan_unsigned param ≡ some (suc n))
      × (record s { heap_size = suc n } ≡ u)

  -- `-s` with a positive number.
  abbrev SetsShared : (name param : List ℕ) → Settings → Settings → Type 0
  SetsShared name param s u =
      (name ≡ b'-' ∷ b's' ∷ [])
      × (n : ℕ) × (scan_unsigned param ≡ some (suc n))
      × (record s { shared_size = suc n } ≡ u)

  -- `-f` with the name of the image.
  abbrev SetsMount : (name param : List ℕ) → Settings → Settings → Type 0
  SetsMount name param s u = (name ≡ b'-' ∷ b'f' ∷ []) × (record s { fat_mount = param } ≡ u)

  abbrev pub Sets : (name param : List ℕ) → Settings → Settings → Type 0
  Sets name param s u =
      SetsTick name param s u
      ⊎ (SetsMachineTick name param s u
          ⊎ (SetsHeap name param s u ⊎ (SetsShared name param s u ⊎ SetsMount name param s u)))

  -- The options one after the other: a later one wins.
  abbrev pub SetAll : List (List ℕ × List ℕ) → Settings → Settings → Type 0
  SetAll [] s t = s ≡ t
  SetAll ((name, param) ∷ os) s t = (u : Settings) × Sets name param s u × SetAll os u t

  abbrev pub arguments : List (List ℕ × List ℕ) → List (List ℕ)
  arguments [] = []
  arguments ((name, param) ∷ os) = name ∷ param ∷ arguments os

  -- A module follows, whose name is no option.
  abbrev pub NamesModule : List (List ℕ) → Type 0
  NamesModule [] = ⊥
  NamesModule (arg ∷ args) =
      (arg ≢ b'-' ∷ b't' ∷ [])
      × (arg ≢ b'-' ∷ b'm' ∷ [])
      × (arg ≢ b'-' ∷ b'h' ∷ [])
      × (arg ≢ b'-' ∷ b's' ∷ [])
      × (arg ≢ b'-' ∷ b'f' ∷ [])

  abbrev pub Spells : Settings → List (List ℕ) → Settings → List (List ℕ) → Type 0
  Spells s argv t modargs =
      (os : List (List ℕ × List ℕ)) × (argv ≡ arguments os ++ modargs)
      × SetAll os s t
      × NamesModule modargs

  checked_int-cases :
      (r : Option ℤ)
      → (checked_int r ≡ none)
        ⊎ ((n : ℕ) × (r ≡ some (pos (suc n))) × (checked_int r ≡ some (pos (suc n))))
  checked_int-cases none = inl refl
  checked_int-cases (some (pos zero)) = inl refl
  checked_int-cases (some (pos (suc n))) = inr (n, refl, refl)
  checked_int-cases (some (negsuc n)) = inl refl

  checked_unsigned-cases :
      (r : Option ℕ)
      → (checked_unsigned r ≡ none)
        ⊎ ((n : ℕ) × (r ≡ some (suc n)) × (checked_unsigned r ≡ some (suc n)))
  checked_unsigned-cases none = inl refl
  checked_unsigned-cases (some zero) = inl refl
  checked_unsigned-cases (some (suc n)) = inr (n, refl, refl)

  set_option-Sets :
      (o : Flag) (param : List ℕ) (s u : Settings)
      → set_option scan_int scan_unsigned o param s ≡ some u
      → Sets (flag_text o) param s u
  unfolding set_option
  set_option-Sets tick param s u e = elim (checked_int-cases (scan_int param)) [
    | inl bad ↦ cc (rw (set_option, bad) at e)
    | inr (n, given, good) ↦ inl (refl, n, given, some-injective _ _ (rw (set_option, good) at e))
  ]
  set_option-Sets machine_tick param s u e = elim (checked_int-cases (scan_int param)) [
    | inl bad ↦ cc (rw (set_option, bad) at e)
    | inr (n, given, good) ↦
        inr (inl (refl, n, given, some-injective _ _ (rw (set_option, good) at e)))
  ]
  set_option-Sets heap param s u e = elim (checked_unsigned-cases (scan_unsigned param)) [
    | inl bad ↦ cc (rw (set_option, bad) at e)
    | inr (n, given, good) ↦
        inr (inr (inl (refl, n, given, some-injective _ _ (rw (set_option, good) at e))))
  ]
  set_option-Sets shared param s u e = elim (checked_unsigned-cases (scan_unsigned param)) [
    | inl bad ↦ cc (rw (set_option, bad) at e)
    | inr (n, given, good) ↦
        inr (inr (inr (inl (refl, n, given, some-injective _ _ (rw (set_option, good) at e)))))
  ]
  set_option-Sets mount param s u e = inr (inr (inr (inr (refl, some-injective _ _ e))))

  Sets-set_option :
      (name param : List ℕ) (s u : Settings)
      → Sets name param s u
      → (o : Flag) × (name ≡ flag_text o) × (set_option scan_int scan_unsigned o param s ≡ some u)
  unfolding set_option
  Sets-set_option name param s u (inl (e, n, given, same)) =
      (tick, e, rw (set_option, given) (ap some same))
  Sets-set_option name param s u (inr (inl (e, n, given, same))) =
      (machine_tick, e, rw (set_option, given) (ap some same))
  Sets-set_option name param s u (inr (inr (inl (e, n, given, same)))) =
      (heap, e, rw (set_option, given) (ap some same))
  Sets-set_option name param s u (inr (inr (inr (inl (e, n, given, same))))) =
      (shared, e, rw (set_option, given) (ap some same))
  Sets-set_option name param s u (inr (inr (inr (inr (e, same))))) = (mount, e, ap some same)

  flag_of-none : (arg : List ℕ) (o : Flag) → flag_of arg ≡ none → arg ≢ flag_text o
  flag_of-none arg o e same = cc (ap flag_of (sym same) ∙ e, flag_of-flag_text o)

  IsModule-NamesModule : (modargs : List (List ℕ)) → IsModule modargs → NamesModule modargs
  IsModule-NamesModule [] m = m
  IsModule-NamesModule (arg ∷ args) m = (
    flag_of-none arg tick m,
    flag_of-none arg machine_tick m,
    flag_of-none arg heap m,
    flag_of-none arg shared m,
    flag_of-none arg mount m,
  )

  no_flag : (arg : List ℕ) (o : Flag) → NamesModule (arg ∷ []) → arg ≢ flag_text o
  no_flag arg tick m = m.0
  no_flag arg machine_tick m = m.1
  no_flag arg heap m = m.2
  no_flag arg shared m = m.3
  no_flag arg mount m = m.4

  NamesModule-IsModule : (modargs : List (List ℕ)) → NamesModule modargs → IsModule modargs
  NamesModule-IsModule [] m = m
  NamesModule-IsModule (arg ∷ args) m = elim (Option-cases (flag_of arg)) [
    | inl e ↦ e
    | inr (o, e) ↦ absurd (no_flag arg o m (flag_of→eq arg o e))
  ]

  -- The two descriptions of a list of options agree.
  abbrev spelled : List (Flag × List ℕ) → List (List ℕ × List ℕ)
  spelled = map (λ (o, param). (flag_text o, param))

  set_all-SetAll :
      (os : List (Flag × List ℕ)) (s t : Settings)
      → set_all scan_int scan_unsigned os s ≡ some t
      → (arguments (spelled os) ≡ render os) × SetAll (spelled os) s t
  set_all-SetAll [] s t e = (refl, some-injective _ _ e)
  set_all-SetAll ((o, param) ∷ os) s t e =
      elim (Option-cases (set_option scan_int scan_unsigned o param s)) [
        | inl bad ↦ cc (rw (set_all, bad) at e)
        | inr (u, good) ↦
            let (text, rest) = set_all-SetAll os u t (rw (set_all, good) at e) in
            (ap (λ r. flag_text o ∷ param ∷ r) text, (u, set_option-Sets o param s u good, rest))
      ]

  SetAll-set_all :
      (os : List (List ℕ × List ℕ)) (s t : Settings)
      → SetAll os s t
      → (fs : List (Flag × List ℕ)) × (arguments os ≡ render fs)
        × (set_all scan_int scan_unsigned fs s ≡ some t)
  SetAll-set_all [] s t e = ([], refl, ap some e)
  SetAll-set_all ((name, param) ∷ os) s t (u, set, rest) =
      let (o, named, good) = Sets-set_option name param s u set in
      let (fs, text, all) = SetAll-set_all os u t rest in
      (
        (o, param) ∷ fs,
        ap (λ n. n ∷ param ∷ arguments os) named ∙ ap (λ r. flag_text o ∷ param ∷ r) text,
        rw (set_all, good) all,
      )

  -- The loop of main ends in a call of VMStart with settings `t` and arguments `modargs` exactly
  -- where the command line is a list of options that make `t` of the settings one after the other,
  -- followed by `modargs`, whose first is none of the names: -t with a positive number sets the
  -- ticks, -m those of the machine, -h the size of the heap, -s that of the shared memory, and -f
  -- the name of the image.
  pub read_options_lem :
      (s t : Settings) (argv modargs : List (List ℕ))
      → (read_options scan_int scan_unsigned s argv ≡ run t modargs) ↔ Spells s argv t modargs
  read_options_lem s t argv modargs = (
    λ e.
        let (os, text, all, m) = reads-Runs scan_int scan_unsigned s t argv modargs e in
        let (same, set) = set_all-SetAll os s t all in
        (spelled os, text ∙ ap (λ r. r ++ modargs) (sym same), set, IsModule-NamesModule modargs m),
    λ (os, text, set, m).
        let (fs, same, all) = SetAll-set_all os s t set in
        ap (read_options scan_int scan_unsigned s) (text ∙ ap (λ r. r ++ modargs) same)
        ∙ Runs-reads scan_int scan_unsigned fs s t modargs all (NamesModule-IsModule modargs m),
  )
