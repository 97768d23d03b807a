-- ===== src/Machine/Server.antt =====
-- The second process of Machine.cpp, the child in `MachineInitialize`: the loop that takes requests,
-- makes the system calls and sends replies. `Os` stands for the system: each call gives its result
-- and the system's next state.
use proj.Base.{
  Bool, List, Option, [], drop, false, if◌then◌else◌, length, none, not, some, take, true, ℕ, ◌&&◌,
  ◌++◌, ◌+◌, ◌==◌, ◌||◌, ◌∷◌,
}
use proj.Base.Int.{ltb_ℤ, negsuc, pos, ℤ, ◌==ℤ◌}
use proj.Base.Strings.{c_string}
use proj.Machine.Requests.{
  Message, max_transfer_size, request_close, request_open, request_read, request_seek,
  request_terminate, request_write,
}
use proj.Machine.Wire.{
  machine_get_int, machine_get_pointer, machine_set_int, machine_valid_share_pointer,
}

pub record Os : Type 1 where
  pub State : Type 0
  pub open_file : State → (name : List ℕ) (flags mode : ℤ) → ℤ × State
  pub read_file : State → (fd : ℤ) (buffer : ℕ) (length_ : ℤ) → ℤ × State
  pub write_file : State → (fd : ℤ) (buffer : ℕ) (length_ : ℤ) → ℤ × State
  pub seek_file : State → (fd offset whence : ℤ) → ℤ × State
  pub close_file : State → (fd : ℤ) → ℤ × State

pub record PendingRead : Type 0 where
  pub d_request_id : ℕ
  pub d_file_descriptor : ℤ
  pub d_length : ℤ
  pub d_buffer : ℕ

-- `poll_fds` are the descriptors of `PollFDs` behind the first, which is the pipe's; `message` is
-- what stands in `Buffer`.
pub record Server : Type 0 where
  pub signal_pipe : ℤ
  pub poll_fds : List ℤ
  pub pending_reads : List PendingRead
  pub terminated : Bool
  pub message : Message

-- `msgrcv` writes the bytes that were sent over the beginning of the buffer.
abbrev pub receive : Message → Server → Server
receive q sv = record sv {
  message = record q { d_payload = q.d_payload ++ drop (length q.d_payload) sv.message.d_payload };
}

-- The reply with a result: `MachineSetInt` on the payload, and what `MachineSendReply` sends.
abbrev pub answer : Server → ℤ → Server
answer sv result = record sv {
  message = record sv.message { d_payload = machine_set_int sv.message.d_payload 0 result };
}

abbrev pub machine_send_reply : Server → List Message
machine_send_reply sv = record sv.message { d_payload = take 15 sv.message.d_payload } ∷ []

unfoldable pub includes : ℤ → List ℤ → Bool
includes fd [] = false
includes fd (x ∷ xs) = x ==ℤ fd || includes fd xs

-- A transfer is allowed from an address in the shared memory, and of no more than 512 bytes.
unfoldable pub transfer_allowed : (shared_base shared_size buffer : ℕ) → ℤ → Bool
transfer_allowed shared_base shared_size buffer length_ =
    machine_valid_share_pointer shared_base shared_size buffer
    && not (ltb_ℤ (pos max_transfer_size) length_)

-- The first read that waits for a descriptor, and the others.
unfoldable pub take_read : (fd : ℤ) → List PendingRead → Option (PendingRead × List PendingRead)
take_read fd [] = none
take_read fd (r ∷ rs) =
    let rest = take_read fd rs in
    if r.d_file_descriptor ==ℤ fd
    then some (r, rs)
    else elim rest [ none ↦ none | some (s, ss) ↦ some (s, r ∷ ss) ]

-- The loop that drops the descriptors for which no read waits.
unfoldable pub waited_for : (fd : ℤ) → List PendingRead → Bool
waited_for fd [] = false
waited_for fd (r ∷ rs) = r.d_file_descriptor ==ℤ fd || waited_for fd rs

unfoldable pub prune : List PendingRead → List ℤ → List ℤ
unfolding waited_for
prune reads [] = []
prune reads (fd ∷ fds) =
    let rest = prune reads fds in if waited_for fd reads then fd ∷ rest else rest

module _ (os : Os) (shared_base shared_size : ℕ) where
  open os use {State, open_file, read_file, write_file, seek_file, close_file}

  -- The server, the system's state and the replies sent.
  abbrev pub Served : Type 0
  Served = Server × State × List Message

  -- A reply with what a system call returned.
  abbrev pub reply_with : Server → ℤ × State → Served
  reply_with sv (result, st) = (answer sv result, st, machine_send_reply (answer sv result))

  -- The cases of the `switch`. The arguments are read from the payload, `p`.
  unfoldable pub serve_open : Server → State → Served
  serve_open sv st =
      let p = sv.message.d_payload in
      let n = length (c_string p) in
      reply_with sv
        (open_file st (c_string p) (machine_get_int p (n + 1)) (machine_get_int p (n + 5)))

  unfoldable pub serve_read : Server → State → Served
  unfolding includes
  serve_read sv st =
      let p = sv.message.d_payload in
      let fd = machine_get_int p 0 in
      let len = machine_get_int p 4 in
      let buffer = machine_get_pointer p 8 in
      let read : PendingRead = record {
        d_request_id = sv.message.d_request_id;
        d_file_descriptor = fd;
        d_length = len;
        d_buffer = buffer;
      } in
      if transfer_allowed shared_base shared_size buffer len
      then (
        record sv {
          poll_fds =
              if includes fd (sv.signal_pipe ∷ sv.poll_fds)
              then sv.poll_fds
              else sv.poll_fds ++ (fd ∷ []);
          pending_reads = sv.pending_reads ++ (read ∷ []);
        },
        st,
        [],
      )
      else reply_with sv (negsuc 0, st)

  unfoldable pub serve_write : Server → State → Served
  serve_write sv st =
      let p = sv.message.d_payload in
      let fd = machine_get_int p 0 in
      let len = machine_get_int p 4 in
      let buffer = machine_get_pointer p 8 in
      if transfer_allowed shared_base shared_size buffer len
      then reply_with sv (write_file st fd buffer len)
      else reply_with sv (negsuc 0, st)

  unfoldable pub serve_seek : Server → State → Served
  serve_seek sv st =
      let p = sv.message.d_payload in
      reply_with sv (seek_file st (machine_get_int p 0) (machine_get_int p 4) (machine_get_int p 8))

  unfoldable pub serve_close : Server → State → Served
  serve_close sv st = reply_with sv (close_file st (machine_get_int sv.message.d_payload 0))

  unfoldable pub serve_message : Server → State → Served
  serve_message sv st =
      let kind = sv.message.d_type in
      if kind == request_open
      then serve_open sv st
      else if kind == request_read
      then serve_read sv st
      else if kind == request_write
      then serve_write sv st
      else if kind == request_seek
      then serve_seek sv st
      else if kind == request_close
      then serve_close sv st
      else if kind == request_terminate
      then (record sv { terminated = true }, st, [])
      else (sv, st, [])

  unfoldable pub complete_read : Server → State → PendingRead × List PendingRead → Served
  complete_read sv st (r, rest) =
      let asked = record sv {
        pending_reads = rest;
        message = record sv.message { d_request_id = r.d_request_id };
      } in
      reply_with asked (read_file st r.d_file_descriptor r.d_buffer r.d_length)

  -- The loop over the descriptors that `poll` reports: the first read that waits for each is made.
  unfoldable pub complete_reads : (revents : ℤ → Bool) → List ℤ → Server → State → Served
  unfolding take_read complete_read
  complete_reads revents [] sv st = (sv, st, [])
  complete_reads revents (fd ∷ fds) sv st =
      let skipped = complete_reads revents fds sv st in
      if revents fd
      then elim (take_read fd sv.pending_reads) [
        | none ↦ skipped
        | some found ↦
            let made = complete_read sv st found in
            let rest = complete_reads revents fds made.0 made.1 in
            (rest.0, rest.1, made.2 ++ rest.2)
      ]
      else skipped

  -- What follows the switch, in each round of the loop.
  unfoldable pub serve_poll : (revents : ℤ → Bool) → Server → State → Served
  unfolding complete_reads prune
  serve_poll revents sv st =
      let (sv', st', replies) = complete_reads revents sv.poll_fds sv st in
      (record sv' { poll_fds = prune sv'.pending_reads sv'.poll_fds }, st', replies)
