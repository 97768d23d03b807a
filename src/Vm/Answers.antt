-- ===== src/Vm/Answers.antt =====
-- The file calls of VirtualMachine.cpp together with Machine.cpp: the request that a call makes, with
-- `fileCallback` and the running thread, and the callback that its reply leads to.
pub mod Delivery
use proj.Base.{List, Option, [], none, some, ℕ, ◌∷◌}
use proj.Base.Int.{ℤ}
use proj.Machine.Requests.{
  Machine, PendingCallback, machine_file_close, machine_file_open, machine_file_seek,
}
use proj.Vm.Files.{vm_file_close, vm_file_open, vm_file_seek}
use proj.Vm.Interrupts.{vm_file_callback}
use proj.Vm.State.{Outcome, Vm, returned, switched, undefined}

module _ (callback_address : ℕ) (junk : List ℕ) where
  -- `fileCallback` and `(void*)tr`.
  abbrev pub callback_of : Vm → PendingCallback
  callback_of v = record { d_callback = callback_address; d_calldata = v.kernel.tr }

  -- `VMFileOpen`, `VMFileClose` and `VMFileSeek` up to the switch, and the machine they leave.
  unfoldable pub open_and_ask :
      (filename : Option (List ℕ)) (flags mode : ℤ) (filedescriptor : ℕ)
      → Vm
      → Machine
      → Outcome × Machine
  unfolding vm_file_open
  open_and_ask filename flags mode filedescriptor v m =
      let (asked, o) = vm_file_open v filename filedescriptor in
      elim asked [
        | none ↦ (o, m)
        | some s ↦ (o, machine_file_open junk (callback_of v) s flags mode m)
      ]

  unfoldable pub close_and_ask : (filedescriptor : ℤ) → Vm → Machine → Outcome × Machine
  unfolding vm_file_close
  close_and_ask filedescriptor v m =
      (vm_file_close v, machine_file_close junk (callback_of v) filedescriptor m)

  unfoldable pub seek_and_ask :
      (filedescriptor offset whence : ℤ) → Vm → Machine → Outcome × Machine
  unfolding vm_file_seek
  seek_and_ask filedescriptor offset whence v m =
      (vm_file_seek v, machine_file_seek junk (callback_of v) filedescriptor offset whence m)

-- The callbacks that the handler of replies calls, one after the other; there is no result where
-- one never returns.
unfoldable pub deliver : List (PendingCallback × ℤ) → Vm → Option Vm
unfolding vm_file_callback
deliver [] v = some v
deliver ((cb, result) ∷ cs) v = elim (vm_file_callback v cb.d_calldata result) [
  | returned st out w ↦ deliver cs w
  | switched w ↦ none
  | undefined ↦ none
]
