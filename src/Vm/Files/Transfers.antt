-- ===== src/Vm/Files/Transfers.antt =====
-- The loop of `VMFileWrite` (VirtualMachine.cpp) that hands a buffer over in blocks.
use mathlib.Core.List.{append-nil}
use proj.Base.{[]}
use proj.Base.{
  All, Bool-cases, List, ap, arith, drop, drop-drop, inl, inr, length, length-take-le, ltb, min,
  suc, sym, take, append-take-drop, zero, ℕ, ◌*◌, ◌++◌, ◌+◌, ◌-◌, ◌/◌, ◌<◌, ◌∙◌, ◌∷◌, ◌≡◌, ◌≤◌,
}
use proj.Vm.Files.{blocks}

-- Enough rounds for `len` bytes: one for each whole block, and one more.
abbrev pub transfers : List ℕ → (len : ℕ) → List (List ℕ)
transfers localdata len = blocks (suc (len / 512)) localdata 0 len

abbrev pub join : List (List ℕ) → List ℕ
join [] = []
join (b ∷ bs) = b ++ join bs

join-blocks :
    (fuel : ℕ) (l : List ℕ) (i len : ℕ)
    → len < 512 * fuel
    → join (blocks fuel l i len) ≡ take len (drop (i * 512) l)
unfolding blocks
join-blocks zero l i len enough = absurd (omega (arith, enough))
join-blocks (suc n) l i len enough = elim (Bool-cases (ltb len 512)) [
  | inl e ↦
      let part : min len 512 ≡ len = ground arith in
      rw (e, part) (append-nil (take len (drop (i * 512) l)))
  | inr e ↦
      let part : min len 512 ≡ 512 = ground arith in
      let more : 512 + (len - 512) ≡ len = ground arith in
      let place : (i + 1) * 512 ≡ i * 512 + 512 = omega arith in
      rw (e, part, join-blocks n l (i + 1) (len - 512) (ground arith), place)
        (ap (λ xs. take 512 (drop (i * 512) l) ++ take (len - 512) xs)
            (sym (drop-drop (i * 512) 512 l))
          ∙ append-take-drop 512 (len - 512) (drop (i * 512) l)
          ∙ ap (λ m. take m (drop (i * 512) l)) more)
]

pub blocks-short :
    (cap fuel : ℕ) (l : List ℕ) (i len : ℕ)
    → len ≤ cap
    → All (λ b. length b ≤ min cap 512) (blocks fuel l i len)
unfolding blocks
blocks-short cap zero l i len within = tt
blocks-short cap (suc n) l i len within =
    let short : length (take (min len 512) (drop (i * 512) l)) ≤ min cap 512 =
      omega (arith, length-take-le (min len 512) (drop (i * 512) l), within) in
    elim (Bool-cases (ltb len 512)) [
      | inl e ↦ rw e (short, tt)
      | inr e ↦ rw e (short, blocks-short cap n l (i + 1) (len - 512) (omega (arith, within)))
    ]

-- The blocks that VMFileWrite hands over, put together, are the first `len` bytes of its buffer,
-- and no block is longer than `len` or 512; the fuel, one round for each whole block and one more,
-- is enough.
pub transfers_lem :
    (l : List ℕ) (len : ℕ)
    → (join (transfers l len) ≡ take len l) × All (λ b. length b ≤ min len 512) (transfers l len)
transfers_lem l len = (
  join-blocks (suc (len / 512)) l 0 len (omega arith),
  blocks-short len (suc (len / 512)) l 0 len (omega arith),
)
