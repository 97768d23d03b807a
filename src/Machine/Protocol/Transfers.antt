-- ===== src/Machine/Protocol/Transfers.antt =====
-- The requests that move data (Machine.cpp): the child checks the address and the length first.
use proj.Machine.Protocol.Answers.{reply-DoneBy}
use proj.Machine.Protocol.Messages.{message_of}
use proj.Base.{Bool, false, if◌then◌else◌, none, some}
use proj.Base.Int.{negsuc}
use proj.Machine.Server.{PendingRead}
use proj.Base.{◌<◌}
use proj.Base.Words.{u64_mod}
use proj.Machine.Protocol.Arguments.{
  get_pointer-received, length-transfer_payload, transfer_fd, transfer_length, transfer_pointer,
}
use proj.Machine.Server.{serve_read, serve_write, transfer_allowed}
use proj.Machine.Wire.{machine_get_pointer}
use proj.Machine.Protocol.Arguments.{get_int-received, length-received, received}
use proj.Machine.Wire.{machine_get_int}
use proj.Machine.Protocol.Arguments.{transfer_payload}
use proj.Machine.Requests.{Message}
use proj.Base.{List, [], ap, arith, length, refl, true, ℕ, ◌++◌, ◌∙◌, ◌∷◌, ◌≡◌, ◌≤◌}
use proj.Base.Int.{IsInt, ℤ}
use proj.Machine.Protocol.{Request, IsRequest, Meets, perform, ReturnsInt}
use proj.Machine.Server.{Os, Server, receive, reply_with, serve_message}

module _ (os : Os) (shared_base shared_size : ℕ) (sv : Server) (st : os.State) where
  -- The arguments of a transfer, in the child.
  transfer_args :
      (junk : List ℕ) (fd : ℤ) (buffer : ℕ) (len : ℤ)
      → 27 ≤ length junk
      → IsInt fd × (buffer < u64_mod) × IsInt len
      → let p = received (transfer_payload junk fd buffer len) sv.message.d_payload 27 in
        (27 ≤ length p)
        × (machine_get_int p 0 ≡ fd)
        × (machine_get_int p 4 ≡ len)
        × (machine_get_pointer p 8 ≡ buffer)
  transfer_args junk fd buffer len room (is_fd, is_buffer, is_len) =
      let buf = transfer_payload junk fd buffer len in
      let old = sv.message.d_payload in
      let long : 27 ≤ length buf =
        omega (arith, room, length-transfer_payload junk fd buffer len room) in
      (
        length-received buf old 27 long,
        get_int-received buf old 27 long 0 (omega arith)
            ∙ transfer_fd junk fd buffer len room is_fd,
        get_int-received buf old 27 long 4 (omega arith)
            ∙ transfer_length junk fd buffer len room is_len,
        get_pointer-received buf old 27 long 8 (omega arith)
            ∙ transfer_pointer junk fd buffer len room is_buffer,
      )

  -- A transfer that is refused is answered with -1.
  write_case :
      (q : Message) (fd : ℤ) (buffer : ℕ) (len : ℤ) (allowed : Bool) (x y : ℤ × os.State)
      → x ≡ y
      → 15 ≤ length (receive q sv).message.d_payload
      → IsInt y.0
      → Meets os shared_base shared_size q.d_request_id
          (Request.write_file fd buffer len)
          sv
          st
          (if allowed then some y else some (negsuc 0, st))
          (if allowed
            then reply_with os shared_base shared_size (receive q sv) x
            else reply_with os shared_base shared_size (receive q sv) (negsuc 0, st))
  write_case q fd buffer len true x y e long ok =
      reply-DoneBy os shared_base shared_size sv st q x y e long ok
  write_case q fd buffer len false x y e long ok =
      reply-DoneBy os shared_base shared_size sv st q _ _ refl long (omega arith)

  pub write_lem :
      (junk : List ℕ) (id : ℕ) (fd : ℤ) (buffer : ℕ) (len : ℤ)
      → 27 ≤ length junk
      → IsRequest (length junk) (Request.write_file fd buffer len)
      → ReturnsInt os
      → let r = Request.write_file fd buffer len in
        Meets os shared_base shared_size id r sv st
          (perform os shared_base shared_size r st)
          (serve_message os shared_base shared_size (receive (message_of junk id r) sv) st)
  unfolding serve_message serve_write
  write_lem junk id fd buffer len room ok ints =
      let (long, fd_eq, len_eq, buffer_eq) = transfer_args junk fd buffer len room ok in
      let q = message_of junk id (Request.write_file fd buffer len) in
      let p = (receive q sv).message.d_payload in
      let test_eq : transfer_allowed shared_base shared_size (machine_get_pointer p 8)
            (machine_get_int p 4)
          ≡ transfer_allowed shared_base shared_size buffer len =
        rw (len_eq, buffer_eq) refl in
      let call_eq : os.write_file st (machine_get_int p 0) (machine_get_pointer p 8)
            (machine_get_int p 4)
          ≡ os.write_file st fd buffer len =
        rw (fd_eq, len_eq, buffer_eq) refl in
      rw test_eq (
        write_case q fd buffer len (transfer_allowed shared_base shared_size buffer len) _ _ call_eq
          (omega (arith, long)) (ints.write_int st fd buffer len))

  read_case :
      (q : Message) (fd : ℤ) (buffer : ℕ) (len : ℤ) (allowed : Bool) (fds : List ℤ)
      (read : PendingRead)
      → read ≡ record {
        d_request_id = q.d_request_id;
        d_file_descriptor = fd;
        d_length = len;
        d_buffer = buffer;
      }
      → 15 ≤ length (receive q sv).message.d_payload
      → Meets os shared_base shared_size q.d_request_id
          (Request.read_file fd buffer len)
          sv
          st
          (if allowed then none else some (negsuc 0, st))
          (if allowed
            then (
              record (receive q sv) {
                poll_fds = fds;
                pending_reads = sv.pending_reads ++ (read ∷ []);
              },
              st,
              [],
            )
            else reply_with os shared_base shared_size (receive q sv) (negsuc 0, st))
  read_case q fd buffer len true fds read e long =
      (ap (λ r. sv.pending_reads ++ (r ∷ [])) e, refl, refl)
  read_case q fd buffer len false fds read e long =
      reply-DoneBy os shared_base shared_size sv st q _ _ refl long (omega arith)

  pub read_lem :
      (junk : List ℕ) (id : ℕ) (fd : ℤ) (buffer : ℕ) (len : ℤ)
      → 27 ≤ length junk
      → IsRequest (length junk) (Request.read_file fd buffer len)
      → let r = Request.read_file fd buffer len in
        Meets os shared_base shared_size id r sv st
          (perform os shared_base shared_size r st)
          (serve_message os shared_base shared_size (receive (message_of junk id r) sv) st)
  unfolding serve_message serve_read
  read_lem junk id fd buffer len room ok =
      let (long, fd_eq, len_eq, buffer_eq) = transfer_args junk fd buffer len room ok in
      let q = message_of junk id (Request.read_file fd buffer len) in
      let p = (receive q sv).message.d_payload in
      let test_eq : transfer_allowed shared_base shared_size (machine_get_pointer p 8)
            (machine_get_int p 4)
          ≡ transfer_allowed shared_base shared_size buffer len =
        rw (len_eq, buffer_eq) refl in
      rw test_eq (
        read_case q fd buffer len (transfer_allowed shared_base shared_size buffer len) _ _
          (rw (fd_eq, len_eq, buffer_eq) refl) (omega (arith, long)))
