-- ===== src/Machine/Startup.antt =====
-- `MachineInitialize` and `MachineTerminate` (Machine.cpp), as the parent runs them, and the state that
-- the child begins in. `mapped` is what `mmap` gives. A failing call of the system, on which the code
-- ends the process, is not modelled.
-- The value of an `int` as a `size_t`.
use proj.Base.{ap}
use proj.Base.{arith}
use proj.Base.{List, [], false, if◌then◌else◌, true, ℕ, ◌%◌, ◌*◌, ◌+◌, ◌-◌, ◌/◌, ◌<◌, ◌^◌, ◌≡◌, ◌≤◌}
use proj.Base.Int.{negsuc, pos, signed32, ℤ}
use proj.Base.Words.{u32_mod, u64_mod}
use proj.Machine.Requests.{Machine, Message, request_terminate, send_request}
use proj.Machine.Server.{Server}

abbrev size_of_int : ℤ → ℕ
size_of_int (pos n) = n
size_of_int (negsuc n) = u64_mod - (n + 1)

-- `PageCount` is an `int`; the sum before it is a `size_t`.
unfoldable pub page_count : ℕ → ℤ
page_count sharesize = signed32 ((4095 + sharesize) % u64_mod / 4096 % u32_mod)

-- The result is the address of the shared memory, `NULL` (0) when there is one already.
unfoldable pub machine_initialize : (sharesize mapped : ℕ) → Machine → ℕ × Machine
unfolding page_count
machine_initialize sharesize mapped m = if m.machine_initialized then (0, m) else (
  mapped,
  record m {
    machine_initialized = true;
    d_shared_base = mapped;
    d_shared_size = 4096 * size_of_int (page_count sharesize) % u64_mod;
    request_channel = [];
    reply_channel = [];
  },
)

-- The static variables before it.
abbrev pub machine_unset : Machine
machine_unset = record {
  machine_initialized = false;
  d_shared_base = 0;
  d_shared_size = 0;
  machine_request_id = 0;
  machine_pending_callbacks = [];
  request_channel = [];
  reply_channel = [];
}

abbrev pub server_started : (signal_pipe : ℤ) → Message → Server
server_started pipe buffer = record {
  signal_pipe = pipe;
  poll_fds = [];
  pending_reads = [];
  terminated = false;
  message = buffer;
}

-- `junk` is what stands in the buffer; its callback is NULL.
unfoldable pub machine_terminate : (junk : List ℕ) → Machine → Machine
machine_terminate junk =
    send_request request_terminate 11 junk (record { d_callback = 0; d_calldata = 0 })

page_count_lem :
    (sharesize : ℕ)
    → sharesize + 4096 < 2 ^ 31 * 4096
    → page_count sharesize ≡ pos ((4095 + sharesize) / 4096)
unfolding page_count
page_count_lem sharesize small = ground arith

-- Before a first MachineInitialize, a size whose pages an int can count is rounded up to the next
-- whole number of pages of 4096 bytes: no less than was asked for, and less than one page more.
pub machine_initialize_size :
    (sharesize mapped : ℕ) (m : Machine)
    → m.machine_initialized ≡ false
    → sharesize + 4096 < 2 ^ 31 * 4096
    → let size = (machine_initialize sharesize mapped m).1.d_shared_size in
      (sharesize ≤ size) × (size < sharesize + 4096) × (size % 4096 ≡ 0)
unfolding machine_initialize
machine_initialize_size sharesize mapped m down small =
    rw (down, page_count_lem sharesize small) (omega arith, omega arith, omega arith)

machine_initialize_address :
    (sharesize mapped : ℕ) (m : Machine)
    → m.machine_initialized ≡ false
    → (machine_initialize sharesize mapped m).0 ≡ mapped
unfolding machine_initialize
machine_initialize_address sharesize mapped m down = ground (arith, down)

pub machine_initialize_lem :
    (sharesize mapped : ℕ) (m : Machine)
    → m.machine_initialized ≡ false
    → machine_initialize sharesize mapped m ≡ (mapped, (machine_initialize sharesize mapped m).1)
unfolding machine_initialize
machine_initialize_lem sharesize mapped m down =
    ap (λ n. (n, (machine_initialize sharesize mapped m).1))
      (machine_initialize_address sharesize mapped m down)

pub machine_initialize_up :
    (sharesize mapped : ℕ) (m : Machine)
    → (machine_initialize sharesize mapped m).1.machine_initialized ≡ true
unfolding machine_initialize
machine_initialize_up sharesize mapped m = ground arith
