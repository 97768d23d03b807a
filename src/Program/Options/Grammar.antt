-- ===== src/Program/Options/Grammar.antt =====
-- The command lines that `main` (main.c) accepts, and what they mean.
use proj.Base.{◌<◌}
use proj.Base.Int.{pos_part}
use proj.Program.Options.{default_settings}
use proj.Base.{subst, sym}
use mathlib.Core.Option.{some-injective}
use proj.Base.{
  List, Option, Option-cases, [], ap, arith, inl, inr, none, refl, some, ℕ, ◌++◌, ◌∙◌, ◌∷◌, ◌≡◌,
}
use proj.Base.Int.{ℤ}
use proj.Base.Strings.{string_eq, string_eq→eq}
use proj.Program.Options.{
  Flag, Settings, flag_of, flag_text, heap, machine_tick, mount, read_options, run, set_option,
  shared, tick,
}

-- The arguments that spell a list of options.
abbrev pub render : List (Flag × List ℕ) → List (List ℕ)
render [] = []
render ((o, param) ∷ os) = flag_text o ∷ param ∷ render os

-- The arguments of the program that is loaded: its name is not an option.
abbrev pub IsModule : List (List ℕ) → Type 0
IsModule [] = ⊥
IsModule (arg ∷ args) = flag_of arg ≡ none

pub flag_of-flag_text : (o : Flag) → flag_of (flag_text o) ≡ some o
unfolding flag_of string_eq
flag_of-flag_text tick = refl
flag_of-flag_text machine_tick = refl
flag_of-flag_text heap = refl
flag_of-flag_text shared = refl
flag_of-flag_text mount = refl

pub flag_of→eq : (arg : List ℕ) (o : Flag) → flag_of arg ≡ some o → arg ≡ flag_text o
unfolding flag_of
flag_of→eq arg o h = ground (
  arith,
  string_eq→eq arg (flag_text tick),
  string_eq→eq arg (flag_text machine_tick),
  string_eq→eq arg (flag_text heap),
  string_eq→eq arg (flag_text shared),
  string_eq→eq arg (flag_text mount),
)

module _ (scan_int : List ℕ → Option ℤ) (scan_unsigned : List ℕ → Option ℕ) where
  -- The options one after the other: a later one wins.
  abbrev pub set_all : List (Flag × List ℕ) → Settings → Option Settings
  set_all [] s = some s
  set_all ((o, param) ∷ os) s = elim (set_option scan_int scan_unsigned o param s) [
    | none ↦ none
    | some t ↦ set_all os t
  ]

  -- A list of options with their parameters, and then a module, by the options of the program.
  abbrev pub Runs : Settings → List (List ℕ) → Settings → List (List ℕ) → Type 0
  Runs s argv t modargs =
      (os : List (Flag × List ℕ)) × (argv ≡ render os ++ modargs)
      × (set_all os s ≡ some t)
      × IsModule modargs

  module_first :
      (s : Settings) (args : List (List ℕ))
      → IsModule args
      → read_options scan_int scan_unsigned s args ≡ run s args
  unfolding read_options
  module_first s [] h = absurd h
  module_first s (arg ∷ []) h = rw (read_options, h) refl
  module_first s (arg ∷ param ∷ rest) h = rw (read_options, h) refl

  pub Runs-reads :
      (os : List (Flag × List ℕ)) (s t : Settings) (modargs : List (List ℕ))
      → set_all os s ≡ some t
      → IsModule modargs
      → read_options scan_int scan_unsigned s (render os ++ modargs) ≡ run t modargs
  unfolding read_options
  Runs-reads [] s t modargs e m =
      module_first s modargs m ∙ ap (λ u. run u modargs) (some-injective _ _ e)
  Runs-reads ((o, param) ∷ os) s t modargs e m =
      elim (Option-cases (set_option scan_int scan_unsigned o param s)) [
        | inl e₁ ↦ cc (rw (set_all, e₁) at e)
        | inr (u, e₁) ↦
            rw (read_options, flag_of-flag_text o, e₁)
              (Runs-reads os u t modargs (rw (set_all, e₁) at e) m)
      ]

  stop :
      (s t : Settings) (args modargs : List (List ℕ))
      → IsModule args
      → read_options scan_int scan_unsigned s args ≡ run t modargs
      → Runs s args t modargs
  stop s t args modargs m h =
      let e : run s args ≡ run t modargs = sym (module_first s args m) ∙ h in
      let same : args ≡ modargs = cc e in ([], same, cc e, subst IsModule same m)

  pub reads-Runs :
      (s t : Settings) (argv modargs : List (List ℕ))
      → read_options scan_int scan_unsigned s argv ≡ run t modargs
      → Runs s argv t modargs
  unfolding read_options
  reads-Runs s t [] modargs h = cc h
  reads-Runs s t (arg ∷ []) modargs h = elim (Option-cases (flag_of arg)) [
    | inl e ↦ stop s t (arg ∷ []) modargs e h
    | inr (o, e) ↦ cc (rw (read_options, e) at h)
  ]
  reads-Runs s t (arg ∷ param ∷ rest) modargs h = elim (Option-cases (flag_of arg)) [
    | inl e ↦ stop s t (arg ∷ param ∷ rest) modargs e h
    | inr (o, e) ↦ elim (Option-cases (set_option scan_int scan_unsigned o param s)) [
      | inl e₁ ↦ cc (rw (read_options, e, e₁) at h)
      | inr (u, e₁) ↦
          let (os, spelled, all, m) = reads-Runs u t rest modargs (rw (read_options, e, e₁) at h) in
          (
            (o, param) ∷ os,
            ap (λ a. a ∷ param ∷ rest) (flag_of→eq arg o e)
                ∙ ap (λ r. flag_text o ∷ param ∷ r) spelled,
            rw (set_all, e₁) all,
            m,
          )
    ]
  ]

-- Times and sizes are positive.
pub record IsPositive (s : Settings) : Type 0 where
  pub ticks : 0 < pos_part s.tick_time_ms
  pub machine_ticks : 0 < pos_part s.machine_tick_time
  pub heaps : 0 < s.heap_size
  pub shares : 0 < s.shared_size

module _ (scan_int : List ℕ → Option ℤ) (scan_unsigned : List ℕ → Option ℕ) where
  set_option-IsPositive :
      (o : Flag) (param : List ℕ) (s t : Settings)
      → IsPositive s
      → set_option scan_int scan_unsigned o param s ≡ some t
      → IsPositive t
  unfolding set_option
  set_option-IsPositive o param s t h e = ground arith

  set_all-IsPositive :
      (os : List (Flag × List ℕ)) (s t : Settings)
      → IsPositive s
      → set_all scan_int scan_unsigned os s ≡ some t
      → IsPositive t
  set_all-IsPositive [] s t h e = subst IsPositive (some-injective _ _ e) h
  set_all-IsPositive ((o, param) ∷ os) s t h e =
      elim (Option-cases (set_option scan_int scan_unsigned o param s)) [
        | inl e₁ ↦ cc (rw (set_all, e₁) at e)
        | inr (u, e₁) ↦
            set_all-IsPositive os u t (set_option-IsPositive o param s u h e₁)
              (rw (set_all, e₁) at e)
      ]

  -- Whatever sscanf makes of the parameters, the ticks and sizes that main hands to VMStart are
  -- positive.
  pub read_options-IsPositive :
      (argv modargs : List (List ℕ)) (t : Settings)
      → read_options scan_int scan_unsigned default_settings argv ≡ run t modargs
      → IsPositive t
  read_options-IsPositive argv modargs t e =
      let (os, spelled, all, m) =
        reads-Runs scan_int scan_unsigned default_settings t argv modargs e in
      set_all-IsPositive os default_settings t (omega arith) all
