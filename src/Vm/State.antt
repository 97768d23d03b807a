-- ===== src/Vm/State.antt =====
-- The global variables of VirtualMachine.cpp, the status codes, and the signal mask that each call
-- suspends and resumes (`MachineSuspendSignals` and `MachineResumeSignals` of Machine.cpp).
use proj.Base.{ℕ, List, Bool, true, Option, none, some}
use proj.Base.Int.{ℤ}
use proj.Memory.{Mpcb}
use proj.Kernel.State.{Kernel}
use proj.Fat.Entries.{DirEntry}
use proj.Fat.Image.{FatData}

pub data Status : Type 0 where
  failure success invalid_parameter invalid_id invalid_state insufficient_resources : Status

-- `blocked` says whether the timer's signal, SIGALRM, is masked, and `saved` whether it is in the mask
-- kept in the global `sigs`. The handler of that signal runs with it unmasked, and with the others
-- masked (`MachineRequestAlarm`); the mask of the others is not modelled.
pub record Signals : Type 0 where
  pub blocked : Bool
  pub saved : Bool

-- An open directory (Dir.h).
pub record Dir : Type 0 where
  pub dirent : DirEntry
  pub dirdesc : ℤ
  pub pos : ℕ

-- `pools` and the static `MPCB::idInc`; the threads and mutexes; the mounted image, the open
-- directories and the current path.
pub record Vm : Type 0 where
  pub signals : Signals
  pub pools : List Mpcb
  pub id_inc : ℕ
  pub kernel : Kernel
  pub vmfat : FatData
  pub dirs : List Dir
  pub cur_path : List ℕ

abbrev pub suspend_signals : Signals → Signals
suspend_signals s = record { blocked = true; saved = s.blocked }

abbrev pub resume_signals : Signals → Signals
resume_signals s = record { blocked = s.saved; saved = s.saved }

abbrev pub suspend : Vm → Vm
suspend v = record v { signals = suspend_signals v.signals }

abbrev pub resume : Vm → Vm
resume v = record v { signals = resume_signals v.signals }

-- What a call returns: the status, what it stored through its out-parameter, and the state.
abbrev pub Reply : Type 0 → Type 0
Reply A = Status × Option A × Vm

-- A call that may give up the processor. `returned` has the status, what is stored through the
-- out-parameter and the state. `switched` is the state in which the scheduler's choice
-- goes on; what the caller does when it runs again is a function of its own. `undefined` is
-- behaviour that C++ leaves undefined.
pub data Outcome : Type 0 where
  returned : Status → Option ℕ → Vm → Outcome
  switched : Vm → Outcome
  undefined : Outcome

-- The end of a call that has called `scheduler`, which resumes the signals before it switches.
abbrev pub switch_to : Vm → Option Kernel → Outcome
switch_to v none = undefined
switch_to v (some k) = switched (resume (record v { kernel = k }))

abbrev pub with_kernel : Vm → Kernel → Vm
with_kernel v k = record v { kernel = k }
