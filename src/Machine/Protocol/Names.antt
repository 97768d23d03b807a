-- ===== src/Machine/Protocol/Names.antt =====
-- The request to open a file (Machine.cpp): the name, its NUL and two integers behind it.
use proj.Base.{ap}
use proj.Base.{
  List, [], arith, drop, inl, length, length-append, length-drop, take, take-append_ge, ℕ, ◌++◌,
  ◌+◌, ◌-◌, ◌∙◌, ◌∷◌, ◌≡◌, ◌≤◌,
}
use proj.Base.Int.{IsInt, ℤ}
use proj.Machine.Requests.{put_string}
use proj.Machine.Wire.{machine_get_int, machine_set_int}
use proj.Machine.Wire.Laws.{
  get_int-set_int, get_int-set_int_other, length-machine_set_int, take-machine_set_int,
}

module _ (junk name : List ℕ) (flags mode : ℤ) where
  abbrev n : ℕ
  n = length name

  abbrev named : List ℕ
  named = put_string name junk

  abbrev flagged : List ℕ
  flagged = machine_set_int named (n + 1) flags

  abbrev pub open_payload : List ℕ
  open_payload = machine_set_int flagged (n + 5) mode

module _ (junk name : List ℕ) (flags mode : ℤ) (room : length name + 16 ≤ length junk) where
  length-named : length (named junk name flags mode) ≡ length junk
  length-named = omega (
    arith,
    room,
    length-append {0} name (0 ∷ drop (length name + 1) junk),
    length-drop {0} (length name + 1) junk,
  )

  pub length-open_payload : length (open_payload junk name flags mode) ≡ length junk
  length-open_payload =
      length-machine_set_int (flagged junk name flags mode) (length name + 5) mode
      ∙ length-machine_set_int (named junk name flags mode) (length name + 1) flags
      ∙ length-named

  pub open_flags :
      IsInt flags → machine_get_int (open_payload junk name flags mode) (length name + 1) ≡ flags
  open_flags ok =
      get_int-set_int_other (flagged junk name flags mode) (length name + 5) (length name + 1) mode
        (inl (omega arith))
      ∙ get_int-set_int (named junk name flags mode) (length name + 1) flags
          (omega (arith, room, length-named)) ok

  pub open_mode :
      IsInt mode → machine_get_int (open_payload junk name flags mode) (length name + 5) ≡ mode
  open_mode ok =
      get_int-set_int (flagged junk name flags mode) (length name + 5) mode
        (omega (
          arith,
          room,
          length-named,
          length-machine_set_int (named junk name flags mode) (length name + 1) flags,
        ))
        ok

  pub open_name : take (length name + 1) (open_payload junk name flags mode) ≡ name ++ (0 ∷ [])
  open_name =
      let one : length name + 1 - length name ≡ 1 = omega arith in
      take-machine_set_int (flagged junk name flags mode) (length name + 5) mode (length name + 1)
        (omega arith)
      ∙ take-machine_set_int (named junk name flags mode) (length name + 1) flags (length name + 1)
          (omega arith)
      ∙ take-append_ge (length name + 1) name (0 ∷ drop (length name + 1) junk) (omega arith)
      ∙ ap (λ k. name ++ take k (0 ∷ drop (length name + 1) junk)) one
