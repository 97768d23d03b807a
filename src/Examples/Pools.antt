-- ===== src/Examples/Pools.antt =====
-- A machine with one memory pool, and the pool calls of VirtualMachine.cpp on it.
use proj.Base.{All, List, length, true, ◌+◌}
use proj.Base.Int.{pos}
use proj.Base.Strings.{c_string}
use proj.Machine.Server.{transfer_allowed}
use proj.Vm.Files.{share_round, vm_file_write}
use proj.Vm.Files.Sharing.{IsFree, vm_file_write-allowed}
use proj.Vm.Files.Transfers.{transfers}
use proj.Base.{ℕ, ◌⊎◌}
use proj.Memory.{place_first}
use proj.Memory.Alloc.{IsGapOf}
use proj.Vm.Pools.{put_pool, vm_memory_pool_deallocate}
use proj.Vm.Pools.Cycles.{vm_allocate_wraps, vm_deallocate-allocate}
use proj.Vm.Pools.Handles.{vm_allocate_lem, with_pools}
use proj.Vm.State.{insufficient_resources, success}
use proj.Base.{arith, false, none, refl, some, ◌∷◌, ◌≡◌, ◌≢◌, ◌≤◌}
use proj.Base.Int.{negsuc}
use proj.Base.Words.{null}
use proj.Fat.Image.{FatData}
use proj.Kernel.State.{Kernel, Thread, priority_normal, running}
use proj.Memory.{Mpcb, allocate, fully_free, mem_block, place}
use proj.Vm.Pools.{
  allocate_in, delete_pool, find_mem_pool, round_up, vm_memory_pool_allocate, vm_memory_pool_delete,
}
use proj.Vm.Pools.Validity.{PoolsValid}
use proj.Vm.State.{Vm, invalid_parameter, invalid_state}
use proj.Base.{[]}

abbrev nothing_mounted : FatData
nothing_mounted = record {
  bytes_per_sector = 512;
  sectors_per_cluster = 1;
  reserved_sector_count = 1;
  root_entry_count = 0;
  total_sectors16 = 0;
  fat_sz16 = 1;
  total_sectors32 = 0;
  data_start = 3;
  num_clusters = 0;
  bpb = [];
  fat = [];
  root = [];
  root_ents = [];
  file_starts = [];
}

abbrev idle_thread : Thread
idle_thread = record {
  priority = priority_normal;
  state = running;
  id = 0;
  ticks = negsuc 4;
  stack_base = 0;
  stack_size = 0;
  entry = 0;
  param = 0;
  cd = negsuc 4;
  held_mutex = [];
  waiting_on = none;
}

abbrev pub kernel : Kernel
kernel = record {
  thread = λ t. record idle_thread { id = t };
  mutex = λ m. record { id = m; qtex = []; owner = none };
  next_thread = 2;
  next_mutex = 0;
  next_id = 2;
  id_counter = 0;
  threads = 0 ∷ 1 ∷ [];
  mutexes = [];
  ready_q = λ p. [];
  tr = 0;
}

abbrev pool : Mpcb
pool = record { id = 0; start = 4096; size = 1024; allocated = mem_block 4096 64 ∷ [] }

abbrev pub machine : Vm
machine = record {
  signals = record { blocked = false; saved = false };
  pools = pool ∷ [];
  id_inc = 1;
  kernel = kernel;
  vmfat = nothing_mounted;
  dirs = [];
  cur_path = b'/' ∷ [];
}

machine-PoolsValid : PoolsValid machine
machine-PoolsValid = (
  record {
    nonnull = omega arith;
    addressable = omega arith;
    narrow = omega arith;
    fits = (omega arith, omega arith, omega arith);
  },
  omega arith,
  tt,
  tt,
)

found : find_mem_pool 0 machine.pools ≡ some pool
unfolding find_mem_pool
found = refl

ne_null : 8 ≢ null
ne_null e = absurd (omega (arith, e))

run-allocate : (vm_memory_pool_allocate machine 0 100 8).1 ≡ some 4160
unfolding vm_memory_pool_allocate allocate_in find_mem_pool round_up allocate place_first place
run-allocate = refl

run-unknown : (vm_memory_pool_allocate machine 5 100 8).0 ≡ invalid_parameter
unfolding vm_memory_pool_allocate find_mem_pool
run-unknown = refl

run-delete : (vm_memory_pool_delete machine 0).0 ≡ invalid_state
unfolding vm_memory_pool_delete delete_pool fully_free
run-delete = refl

size_ne_zero : ◌≢◌ {A = ℕ} 100 0
size_ne_zero e = absurd (omega (arith, e))

vm_allocate_lem_example :
    ((r : ℕ) × (vm_memory_pool_allocate machine 0 100 8 ≡ (
      success,
      some r,
      with_pools machine (put_pool (allocate pool (round_up 100)).1 machine.pools),
    ))
      × IsGapOf pool r (round_up 100)
      × ((a : ℕ) → IsGapOf pool a (round_up 100) → r ≤ a))
    ⊎ ((vm_memory_pool_allocate machine 0 100 8
          ≡ (insufficient_resources, none, with_pools machine machine.pools))
        × ((a : ℕ) → ¬ IsGapOf pool a (round_up 100)))
vm_allocate_lem_example =
    vm_allocate_lem machine 0 100 8 pool machine-PoolsValid ne_null size_ne_zero (omega arith) found

-- The machine after a request for 100 bytes.
abbrev taken : Mpcb
taken = record pool { allocated = mem_block 4096 64 ∷ mem_block 4160 128 ∷ [] }

abbrev allocated_machine : Vm
allocated_machine = with_pools machine (taken ∷ [])

done : vm_memory_pool_allocate machine 0 100 8 ≡ (success, some 4160, allocated_machine)
unfolding vm_memory_pool_allocate allocate_in find_mem_pool put_pool round_up allocate place_first
    place
done = refl

vm_deallocate-allocate_example :
    vm_memory_pool_deallocate allocated_machine 0 4160
    ≡ (success, none, with_pools allocated_machine machine.pools)
vm_deallocate-allocate_example =
    vm_deallocate-allocate machine 0 100 8 pool machine-PoolsValid ne_null size_ne_zero
      (omega arith) found done

base_ne_null : 8192 ≢ null
base_ne_null e = absurd (omega (arith, e))

vm_allocate_wraps_example : vm_memory_pool_allocate machine 0 4294967295 8 ≡ (
  success,
  some 4096,
  with_pools machine
      (put_pool (record pool { allocated = mem_block 4096 0 ∷ pool.allocated }) machine.pools),
)
vm_allocate_wraps_example =
    vm_allocate_wraps machine 0 4294967295 8 pool machine-PoolsValid ne_null (omega arith)
      (omega arith) found

-- A write of five bytes.
abbrev greeting : List ℕ
greeting = b'h' ∷ b'e' ∷ b'l' ∷ b'l' ∷ b'o' ∷ []

given : (vm_file_write machine 0 (some greeting) (some (pos 5))).1 ≡ some 4160
unfolding vm_file_write share_round vm_memory_pool_allocate allocate_in find_mem_pool round_up
    allocate place_first place c_string
given = refl

vm_file_write-allowed_example :
    All
      (λ block.
        (transfer_allowed 4096 1024 4160 (pos (length block)) ≡ true)
        × (4160 + length block ≤ 5120)
        × IsFree pool 4160 block)
      (transfers greeting 5)
vm_file_write-allowed_example =
    vm_file_write-allowed machine 0 5 4160 greeting greeting pool machine-PoolsValid found
      (omega arith) given
