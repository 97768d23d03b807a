-- ===== src/Machine/Requests.antt =====
-- The side of the virtual machine in Machine.cpp: `MachineAddRequest`, the `MachineFile` calls and
-- `MachineReplySignalHandler`. The message queues of the system are lists of messages, the oldest
-- first. A message has the bytes of its payload that are sent; `junk` is what stands in the buffer
-- before it is filled.
use proj.Base.{
  Bool, List, Option, [], drop, if◌then◌else◌, length, none, some, take, ℕ, ◌++◌, ◌+◌, ◌==◌, ◌∷◌,
}
use proj.Base.Int.{ℤ}
use proj.Base.Words.{add32}
use proj.Machine.Wire.{machine_get_int, machine_set_int, machine_set_pointer}

pub record Message : Type 0 where
  pub d_type : ℕ
  pub d_request_id : ℕ
  pub d_payload : List ℕ

-- SMachinePendingCallback: the addresses of the function and of its argument.
pub record PendingCallback : Type 0 where
  pub d_callback : ℕ
  pub d_calldata : ℕ

-- The static variables, and the two channels.
pub record Machine : Type 0 where
  pub machine_initialized : Bool
  pub d_shared_base : ℕ
  pub d_shared_size : ℕ
  pub machine_request_id : ℕ
  pub machine_pending_callbacks : List (ℕ × PendingCallback)
  pub request_channel : List Message
  pub reply_channel : List Message

-- MACHINE_REQUEST_OPEN and the others, and MACHINE_MAX_TRANSFER_SIZE.
abbrev pub request_open : ℕ
request_open = 2

abbrev pub request_read : ℕ
request_read = 3

abbrev pub request_write : ℕ
request_write = 4

abbrev pub request_seek : ℕ
request_seek = 5

abbrev pub request_close : ℕ
request_close = 6

abbrev pub request_terminate : ℕ
request_terminate = 7

abbrev pub max_transfer_size : ℕ
max_transfer_size = 512

-- `MachinePendingCallbacks[id] = callback`.
unfoldable pub put_callback :
    ℕ → PendingCallback → List (ℕ × PendingCallback) → List (ℕ × PendingCallback)
put_callback id cb [] = (id, cb) ∷ []
put_callback id cb ((j, c) ∷ cs) =
    let rest = put_callback id cb cs in if j == id then (id, cb) ∷ cs else (j, c) ∷ rest

-- `find` and `erase` of the map.
unfoldable pub find_callback : ℕ → List (ℕ × PendingCallback) → Option PendingCallback
find_callback id [] = none
find_callback id ((j, c) ∷ cs) = let rest = find_callback id cs in if j == id then some c else rest

unfoldable pub erase_callback : ℕ → List (ℕ × PendingCallback) → List (ℕ × PendingCallback)
erase_callback id [] = []
erase_callback id ((j, c) ∷ cs) =
    let rest = erase_callback id cs in if j == id then cs else (j, c) ∷ rest

unfoldable pub machine_add_request : PendingCallback → Machine → ℕ × Machine
unfolding put_callback
machine_add_request cb m =
    let id = add32 m.machine_request_id 1 in
    (
      id,
      record m {
        machine_request_id = id;
        machine_pending_callbacks = put_callback id cb m.machine_pending_callbacks;
      },
    )

-- What the five calls do alike: nothing before `MachineInitialize`; else the request is entered and
-- sent. `size` is the number of payload bytes that `msgsnd` sends: its argument counts the
-- request's id as well, and `sizeof(SMachineRequest)` is 16.
unfoldable pub send_request : (request_type size : ℕ) → List ℕ → PendingCallback → Machine → Machine
unfolding machine_add_request
send_request request_type size payload cb m =
    let (id, m') = machine_add_request cb m in
    if m.machine_initialized
    then record m' {
      request_channel =
          m'.request_channel
          ++ (record { d_type = request_type; d_request_id = id; d_payload = take size payload }
              ∷ []);
    }
    else m

-- `strcpy` to the beginning of a buffer.
abbrev pub put_string : List ℕ → List ℕ → List ℕ
put_string s buf = s ++ (0 ∷ drop (length s + 1) buf)

module _ (junk : List ℕ) (cb : PendingCallback) where
  unfoldable pub machine_file_open : (filename : List ℕ) (flags mode : ℤ) → Machine → Machine
  machine_file_open filename flags mode =
      let n = length filename in
      send_request request_open (n + 16)
        (machine_set_int (machine_set_int (put_string filename junk) (n + 1) flags) (n + 5) mode) cb

  unfoldable pub machine_file_read : (fd : ℤ) (data_ : ℕ) (length_ : ℤ) → Machine → Machine
  machine_file_read fd data_ length_ =
      send_request request_read 27
        (machine_set_pointer (machine_set_int (machine_set_int junk 0 fd) 4 length_) 8 data_) cb

  unfoldable pub machine_file_write : (fd : ℤ) (data_ : ℕ) (length_ : ℤ) → Machine → Machine
  machine_file_write fd data_ length_ =
      send_request request_write 27
        (machine_set_pointer (machine_set_int (machine_set_int junk 0 fd) 4 length_) 8 data_) cb

  unfoldable pub machine_file_seek : (fd offset whence : ℤ) → Machine → Machine
  machine_file_seek fd offset whence =
      send_request request_seek 23
        (machine_set_int (machine_set_int (machine_set_int junk 0 fd) 4 offset) 8 whence) cb

  unfoldable pub machine_file_close : (fd : ℤ) → Machine → Machine
  machine_file_close fd = send_request request_close 15 (machine_set_int junk 0 fd) cb

-- `MachineReplySignalHandler` takes all replies that are there. The results are the calls of
-- callbacks that it makes, in order, each with the value that is passed, and the state.
unfoldable pub handle_replies :
    List Message
    → List (ℕ × PendingCallback)
    → List (PendingCallback × ℤ) × List (ℕ × PendingCallback)
unfolding find_callback erase_callback
handle_replies [] cbs = ([], cbs)
handle_replies (q ∷ qs) cbs =
    let found = handle_replies qs (erase_callback q.d_request_id cbs) in
    let skipped = handle_replies qs cbs in
    elim (find_callback q.d_request_id cbs) [
      | none ↦ skipped
      | some cb ↦ ((cb, machine_get_int q.d_payload 0) ∷ found.0, found.1)
    ]

unfoldable pub machine_reply_signal_handler : Machine → List (PendingCallback × ℤ) × Machine
unfolding handle_replies
machine_reply_signal_handler m =
    let handled = handle_replies m.reply_channel m.machine_pending_callbacks in
    (handled.0, record m { machine_pending_callbacks = handled.1; reply_channel = [] })
