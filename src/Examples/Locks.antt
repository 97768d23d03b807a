-- ===== src/Examples/Locks.antt =====
-- Two threads, a mutex and a transfer: the calls of VirtualMachine.cpp.
use proj.Base.{List}
use proj.Vm.Calls.{Call, Reach, after, call, here, next}
use proj.Base.Strings.{c_string}
use proj.Vm.Files.{file_read, localdata}
use proj.Vm.State.{success}
use proj.Base.{if◌then◌else◌, suc, ◌+◌, ◌/◌, ◌==◌}
use proj.Base.Int.{negsuc, pos}
use proj.Vm.Files.{read_rounds, written_rounds}
use proj.Vm.Files.Rounds.{read_rounds-transfers, served}
use proj.Vm.Start.Shutdown.{AreFree, clear_mutexes, clear_mutexes-past_end, past_end}
use proj.Base.{length}
use proj.Vm.Files.Transfers.{join, transfers}
use proj.Base.{arith, ℕ, ◌∷◌, ◌≢◌, ◌⊎◌}
use proj.Examples.Pools.{kernel}
use proj.Kernel.Exclusion.Moves.{owner_of}
use proj.Kernel.State.{update}
use proj.Vm.Mutexes.{vm_mutex_release}
use proj.Vm.Mutexes.Handover.{acquired-handover, resumed}
use proj.Vm.State.{failure, invalid_id, invalid_state, resume, returned, suspend, with_kernel}
use proj.Base.{Option, inl, none, refl, some, ◌≡◌}
use proj.Examples.Pools.{machine}
use proj.Kernel.Exclusion.Lists.{In}
use proj.Kernel.Exclusion.Moves.{IsExclusive, held}
use proj.Kernel.Mutexes.{acquire, acquire_from, new_mutex}
use proj.Kernel.Threads.{acquire_mutex, acquire_new, acquire_unless, find_held, find_mutex_of}
use proj.Vm.Exclusion.Reach.{Reach-IsExclusive, Reach-exclusion}
use proj.Vm.Mutexes.{acquired, find_mutex, or_wait, vm_mutex_acquire, vm_mutex_create}
use proj.Vm.State.{Vm}
use proj.Base.{[]}

abbrev or_else : Option Vm → Vm → Vm
or_else none v = v
or_else (some w) v = w

-- Thread 0 makes a mutex and takes it.
abbrev with_mutex : Vm
unfolding call vm_mutex_create new_mutex
with_mutex = or_else (after (call (Call.mutex_create 8) machine)) machine

abbrev locked : Vm
unfolding call vm_mutex_acquire find_mutex or_wait acquired acquire_mutex acquire_unless acquire_new
    acquire acquire_from find_mutex_of find_held
locked = or_else (after (call (Call.mutex_acquire 0 0) with_mutex)) with_mutex

machine-IsExclusive : IsExclusive machine.kernel
machine-IsExclusive = record {
  owned = λ t m i. absurd i;
  once = λ t. tt;
  allocated = λ t m i. absurd i;
  known = tt;
}

locked-Reach : Reach machine locked
unfolding call vm_mutex_create new_mutex vm_mutex_acquire find_mutex or_wait acquired acquire_mutex
    acquire_unless acquire_new acquire acquire_from find_mutex_of find_held
locked-Reach = next (next here (Call.mutex_create 8) refl) (Call.mutex_acquire 0 0) refl

holds : In 0 (held locked.kernel 0)
unfolding call vm_mutex_create new_mutex vm_mutex_acquire find_mutex or_wait acquired acquire_mutex
    acquire_unless acquire_new acquire acquire_from find_mutex_of find_held
holds = inl refl

Reach-exclusion_example : ◌≡◌ {A = ℕ} 0 0
Reach-exclusion_example =
    Reach-exclusion machine locked 0 0 0 machine-IsExclusive locked-Reach holds holds

Reach-IsExclusive_example : IsExclusive locked.kernel
Reach-IsExclusive_example = Reach-IsExclusive machine locked machine-IsExclusive locked-Reach

-- Thread 0 holds the mutex 0, and thread 1 waits for it.
abbrev contended : Vm
contended = with_kernel machine (record kernel {
  thread = update kernel.thread 0 (record (kernel.thread 0) { held_mutex = 0 ∷ [] });
  mutex = λ m. record { id = m; qtex = 1 ∷ []; owner = some 0 };
  next_mutex = 1;
  id_counter = 1;
  mutexes = 0 ∷ [];
})

found : find_mutex_of contended.kernel 0 0 ≡ some 0
unfolding find_mutex_of find_held
found = refl

lacking : find_mutex_of contended.kernel 1 0 ≡ none
unfolding find_mutex_of find_held
lacking = refl

other : ◌≢◌ {A = ℕ} 1 0
other e = absurd (omega (arith, e))

acquired-handover_example :
    (owner_of (resumed contended 0 0 1).kernel 0 ≡ some 1)
    × (acquired (resumed contended 0 0 1) 0
        ≡ returned failure none (resume (resumed contended 0 0 1)))
    × ((vm_mutex_release (resumed contended 0 0 1) 0
          ≡ returned invalid_id none (resume (suspend (resumed contended 0 0 1))))
        ⊎ (vm_mutex_release (resumed contended 0 0 1) 0
            ≡ returned invalid_state none (resume (suspend (resumed contended 0 0 1)))))
acquired-handover_example = acquired-handover contended 0 1 0 0 [] found refl other lacking

abbrev behind : ℕ → List ℕ
behind i = 9 ∷ []

abbrev letters : List ℕ
letters = b'a' ∷ b'b' ∷ 0 ∷ b'c' ∷ []

size : length (localdata letters (7 ∷ 7 ∷ [])) ≡ 4 + 1
unfolding c_string
size = refl

-- "ab" in buffers of four bytes and a NUL, with other bytes behind each round's in the shared memory.
read_rounds-transfers_example :
    let (total, filled) =
      read_rounds
        (suc (4 / 512))
        (served (join (transfers (localdata letters (7 ∷ 7 ∷ [])) 4)) behind 4)
        0
        4
        (pos 0)
        (5 ∷ 5 ∷ 5 ∷ 5 ∷ 0 ∷ []) in
    file_read total filled machine
    ≡ (some (4, c_string letters), returned success none (resume machine))
read_rounds-transfers_example =
    read_rounds-transfers machine letters (7 ∷ 7 ∷ []) behind 4 (5 ∷ 5 ∷ 5 ∷ 5 ∷ 0 ∷ []) size refl
      refl

-- A round of 512 bytes, and one that fails: the sum hides the failure.
masked_run : written_rounds 2 (λ i. if i == 0 then pos 512 else negsuc 0) 0 600 (pos 0) ≡ pos 511
unfolding written_rounds
masked_run = refl

-- The mutex that was made is not owned.
with_mutex-AreFree : AreFree with_mutex
unfolding call vm_mutex_create new_mutex
with_mutex-AreFree = (refl, tt)

one_mutex : length with_mutex.kernel.mutexes ≡ 0 + 0 + 1
unfolding call vm_mutex_create new_mutex
one_mutex = refl

clear_mutexes-past_end_example : clear_mutexes 2 with_mutex 0 ≡ past_end
clear_mutexes-past_end_example = clear_mutexes-past_end 0 with_mutex with_mutex-AreFree one_mutex
