-- ===== src/Machine/Protocol/Serving.antt =====
-- Whatever is asked for by a `MachineFile` call (Machine.cpp) is what the child does.
use proj.Machine.Protocol.Answers.{close_lem, open_lem, seek_lem}
use proj.Machine.Protocol.Messages.{message_of, request-message_of}
use proj.Machine.Protocol.Transfers.{read_lem, write_lem}
use proj.Machine.Requests.{Machine, Message, PendingCallback}
use proj.Base.{List, [], length, true, ℕ, ◌++◌, ◌∷◌, ◌≡◌, ◌≤◌}
use proj.Base.Words.{add32}
use proj.Machine.Protocol.{Request, IsRequest, Meets, perform, ReturnsInt, request}
use proj.Machine.Server.{Os, Server, receive, serve_message}

module _ (os : Os) (shared_base shared_size : ℕ) (sv : Server) (st : os.State) where
  request-Meets :
      (junk : List ℕ) (id : ℕ) (r : Request)
      → 27 ≤ length junk
      → IsRequest (length junk) r
      → ReturnsInt os
      → Meets os shared_base shared_size id r sv st
          (perform os shared_base shared_size r st)
          (serve_message os shared_base shared_size (receive (message_of junk id r) sv) st)
  request-Meets junk id (Request.open_file name flags mode) room ok ints =
      open_lem os shared_base shared_size sv st junk id name flags mode ok ints
  request-Meets junk id (Request.read_file fd buffer len) room ok ints =
      read_lem os shared_base shared_size sv st junk id fd buffer len room ok
  request-Meets junk id (Request.write_file fd buffer len) room ok ints =
      write_lem os shared_base shared_size sv st junk id fd buffer len room ok ints
  request-Meets junk id (Request.seek_file fd offset whence) room ok ints =
      seek_lem os shared_base shared_size sv st junk id fd offset whence room ok ints
  request-Meets junk id (Request.close_file fd) room ok ints =
      close_lem os shared_base shared_size sv st junk id fd room ok ints

  -- After MachineInitialize, a MachineFile call whose arguments are values of their C types queues
  -- one message, and when the child takes it, with anything in its buffer, the system call is made
  -- with the arguments that were given and its result goes back under the request's id: a
  -- refinement of a direct call. A transfer with a bad address or length is answered with -1, and
  -- a read that is allowed is kept. The results of the system calls are values of an int and the
  -- buffers have room.
  pub request-served :
      (junk : List ℕ) (cb : PendingCallback) (r : Request) (m : Machine)
      → 27 ≤ length junk
      → IsRequest (length junk) r
      → ReturnsInt os
      → m.machine_initialized ≡ true
      → (q : Message) × ((request junk cb r m).request_channel ≡ m.request_channel ++ (q ∷ []))
        × Meets os shared_base shared_size
            (add32 m.machine_request_id 1)
            r
            sv
            st
            (perform os shared_base shared_size r st)
            (serve_message os shared_base shared_size (receive q sv) st)
  request-served junk cb r m room ok ints up =
      let id = add32 m.machine_request_id 1 in
      (
        message_of junk id r,
        request-message_of junk cb r m up,
        request-Meets junk id r room ok ints,
      )
