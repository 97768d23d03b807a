-- ===== src/Vm/Files/Sharing.antt =====
-- What the loops of `VMFileWrite` and `VMFileRead` (VirtualMachine.cpp) take from the shared memory,
-- and what the second process (Machine.cpp) allows.
use proj.Base.{Bool-cases, leb}
use proj.Base.Int.{negsuc}
use proj.Base.Strings.{c_string}
use proj.Vm.Files.{vm_file_write, with_cd}
use proj.Vm.State.{suspend}
use proj.Vm.Files.Transfers.{transfers_lem}
use proj.Vm.Pools.Rounding.{round_up_lem}
use proj.Base.{
  All, List, [], ap, arith, inl, inr, length, min, some, subst, sym, true, ℕ, ◌+◌, ◌<◌, ◌∙◌, ◌∷◌,
  ◌≡◌, ◌≤◌,
}
use proj.Base.Int.{pos}
use mathlib.Core.Option.{some-injective}
use proj.Machine.Server.{transfer_allowed}
use proj.Machine.Wire.{machine_valid_share_pointer}
use proj.Memory.{MemBlock, Mpcb}
use proj.Memory.Alloc.{IsGapOf}
use proj.Memory.Fit.{Apart}
use proj.Vm.Files.{share_round}
use proj.Vm.Files.Transfers.{transfers}
use proj.Vm.Pools.{find_mem_pool, round_up}
use proj.Vm.Pools.Handles.{vm_allocate_lem}
use proj.Vm.Pools.Validity.{PoolsValid}
use proj.Vm.State.{Vm, resume}
use mathlib.Core.Option.{none-ne-some}

-- The bytes from an address on, so many as a block has, are in no block that is handed out.
abbrev pub IsFree : Mpcb → ℕ → List ℕ → Type 0
IsFree p r block = Apart r (length block) p.allocated

Apart-le : (r m n : ℕ) (bs : List MemBlock) → m ≤ n → Apart r n bs → Apart r m bs
Apart-le r m n [] le free = tt
Apart-le r m n (b ∷ bs) le (inl low, rest) = (inl (omega arith), Apart-le r m n bs le rest)
Apart-le r m n (b ∷ bs) le (inr high, rest) = (inr high, Apart-le r m n bs le rest)

-- A block that lies in the shared memory is allowed.
allowed :
    (base size r n : ℕ)
    → base ≤ r
    → r < base + size
    → n ≤ 512
    → transfer_allowed base size r (pos n) ≡ true
unfolding transfer_allowed machine_valid_share_pointer
allowed base size r n above below short = ground arith

-- What a round gets.
share_round-gap :
    (v : Vm) (shareid len r : ℕ) (p : Mpcb)
    → PoolsValid v
    → find_mem_pool shareid v.pools ≡ some p
    → 0 < len
    → (share_round v shareid len).1 ≡ some r
    → IsGapOf p r (round_up (min len 512))
unfolding share_round
share_round-gap v shareid len r p ok found pos_len got =
    elim (vm_allocate_lem (resume v) shareid (min len 512) 1 p ok (λ e. omega (arith, e))
      (λ e. omega (arith, e, pos_len)) (omega arith) found) [
        | inl (a, call, gap, _) ↦
            let same : a ≡ r = some-injective _ _ (sym (ap (λ t. t.1) call) ∙ got) in
            subst (λ x. IsGapOf p x (round_up (min len 512))) same gap
        | inr (call, _) ↦ cc
      ]

allowed-blocks :
    (p : Mpcb) (r n : ℕ) (blocks : List (List ℕ))
    → 0 < n
    → n ≤ 512
    → IsGapOf p r (round_up n)
    → All (λ block. length block ≤ n) blocks
    → All
        (λ block.
          (transfer_allowed p.start p.size r (pos (length block)) ≡ true)
          × (r + length block ≤ p.start + p.size)
          × IsFree p r block)
        blocks
allowed-blocks p r n [] pos_n short gap tt = tt
allowed-blocks p r n (b ∷ bs) pos_n short gap (this, rest) =
    let room = round_up_lem n (omega (arith, short)) in
    (
      (
        allowed p.start p.size r (length b) gap.above (omega (arith, gap.below, room, pos_n))
            (omega (arith, this, short)),
        omega (arith, gap.below, room, this),
        Apart-le r (length b) (round_up n) p.allocated (omega (arith, room, this)) gap.apart,
      ),
      allowed-blocks p r n bs pos_n short gap rest,
    )

share_round-allowed :
    (v : Vm) (shareid len r : ℕ) (data_ : List ℕ) (p : Mpcb)
    → PoolsValid v
    → find_mem_pool shareid v.pools ≡ some p
    → 0 < len
    → (share_round v shareid len).1 ≡ some r
    → All
        (λ block.
          (transfer_allowed p.start p.size r (pos (length block)) ≡ true)
          × (r + length block ≤ p.start + p.size)
          × IsFree p r block)
        (transfers data_ len)
share_round-allowed v shareid len r data_ p ok found pos_len got =
    allowed-blocks p r (min len 512) (transfers data_ len) (omega (arith, pos_len)) (omega arith)
      (share_round-gap v shareid len r p ok found pos_len got) (transfers_lem data_ len).1

-- Where the pool of the shared memory is valid and the first round of VMFileWrite for a positive
-- length succeeds, each of the blocks it then hands over from its buffer, at the address it got,
-- is one that the second process allows, lies whole in the shared memory, and is in no block that
-- was handed out before.
pub vm_file_write-allowed :
    (v : Vm) (shareid len r : ℕ) (data_ localdata : List ℕ) (p : Mpcb)
    → PoolsValid v
    → find_mem_pool shareid v.pools ≡ some p
    → 0 < len
    → (vm_file_write v shareid (some data_) (some (pos len))).1 ≡ some r
    → All
        (λ block.
          (transfer_allowed p.start p.size r (pos (length block)) ≡ true)
          × (r + length block ≤ p.start + p.size)
          × IsFree p r block)
        (transfers localdata len)
unfolding vm_file_write
vm_file_write-allowed v shareid len r data_ localdata p ok found pos_len got =
    elim (Bool-cases (leb (length (c_string data_)) len)) [
      | inl e ↦
          share_round-allowed (with_cd (suspend v) (negsuc 738)) shareid len r localdata p ok found
            pos_len (rw e at got)
      | inr e ↦ absurd (none-ne-some r (rw e at got))
    ]
