-- ===== src/Machine/Protocol/Answers.antt =====
-- The requests that the child (Machine.cpp) answers at once.
use proj.Machine.Protocol.Messages.{message_of}
use proj.Base.{inl}
use proj.Base.Strings.{c_string}
use proj.Machine.Protocol.Arguments.{c_string-received, get_int-received, length-received, received}
use proj.Machine.Protocol.Names.{length-open_payload, open_flags, open_mode, open_name}
use proj.Machine.Server.{serve_close, serve_open, serve_seek}
use proj.Machine.Wire.{machine_get_int}
use proj.Machine.Wire.Laws.{get_int-set_int_other, length-machine_set_int}
use proj.Machine.Protocol.Names.{open_payload}
use proj.Machine.Requests.{Message}
use proj.Machine.Wire.{machine_set_int}
use proj.Base.{List, [], ap, arith, length, refl, ℕ, ◌+◌, ◌∙◌, ◌∷◌, ◌≡◌, ◌≤◌}
use proj.Base.Int.{IsInt, ℤ}
use proj.Machine.Protocol.{results, Request, IsRequest, ReturnsInt}
use proj.Machine.Server.{
  Os, Server, answer, machine_send_reply, Served, receive, reply_with, serve_message,
}
use proj.Machine.Wire.Laws.{get_int-set_int, get_int-take}

-- A reply takes the result to the parent.
results-reply :
    (v : Server) (result : ℤ)
    → 15 ≤ length v.message.d_payload
    → IsInt result
    → results (machine_send_reply (answer v result)) ≡ (v.message.d_request_id, result) ∷ []
results-reply v result long ok =
    ap (λ r. (v.message.d_request_id, r) ∷ [])
      (get_int-take _ 15 0 (omega arith)
        ∙ get_int-set_int v.message.d_payload 0 result (omega (arith, long)) ok)

module _ (os : Os) (shared_base shared_size : ℕ) (sv : Server) (st : os.State) where
  abbrev pub DoneBy : (id : ℕ) → ℤ × os.State → Served os shared_base shared_size → Type 0
  DoneBy id done served =
      (served.0.pending_reads ≡ sv.pending_reads)
      × (served.1 ≡ done.1)
      × (results served.2 ≡ (id, done.0) ∷ [])

  pub reply-DoneBy :
      (q : Message) (x y : ℤ × os.State)
      → x ≡ y
      → 15 ≤ length (receive q sv).message.d_payload
      → IsInt y.0
      → DoneBy q.d_request_id y (reply_with os shared_base shared_size (receive q sv) x)
  reply-DoneBy q x y e long ok =
      let (i, s) = y in
      (
        refl,
        ap (λ p. p.1) e,
        ap (λ p. results (machine_send_reply (answer (receive q sv) p.0))) e
            ∙ results-reply (receive q sv) y.0 long ok,
      )

  pub open_lem :
      (junk : List ℕ) (id : ℕ) (name : List ℕ) (flags mode : ℤ)
      → IsRequest (length junk) (Request.open_file name flags mode)
      → ReturnsInt os
      → DoneBy id (os.open_file st name flags mode) (
          serve_message os shared_base shared_size
            (receive (message_of junk id (Request.open_file name flags mode)) sv)
            st)
  unfolding serve_message serve_open
  open_lem junk id name flags mode (is_name, room, is_flags, is_mode) ints =
      let n = length name in
      let buf = open_payload junk name flags mode in
      let old = sv.message.d_payload in
      let long : n + 16 ≤ length buf =
        omega (arith, room, length-open_payload junk name flags mode room) in
      let p = received buf old (n + 16) in
      let name_eq : c_string p ≡ name =
        c_string-received buf old (n + 16) long name is_name (omega arith)
          (open_name junk name flags mode room) in
      let flags_eq : machine_get_int p (n + 1) ≡ flags =
        get_int-received buf old (n + 16) long (n + 1) (omega arith)
        ∙ open_flags junk name flags mode room is_flags in
      let mode_eq : machine_get_int p (n + 5) ≡ mode =
        get_int-received buf old (n + 16) long (n + 5) (omega arith)
        ∙ open_mode junk name flags mode room is_mode in
      reply-DoneBy (message_of junk id (Request.open_file name flags mode)) _
        (os.open_file st name flags mode) (rw (name_eq, flags_eq, mode_eq) refl)
        (omega (arith, length-received buf old (n + 16) long)) (ints.open_int st name flags mode)

  pub seek_lem :
      (junk : List ℕ) (id : ℕ) (fd offset whence : ℤ)
      → 27 ≤ length junk
      → IsRequest (length junk) (Request.seek_file fd offset whence)
      → ReturnsInt os
      → DoneBy id (os.seek_file st fd offset whence) (
          serve_message os shared_base shared_size
            (receive (message_of junk id (Request.seek_file fd offset whence)) sv)
            st)
  unfolding serve_message serve_seek
  seek_lem junk id fd offset whence room (is_fd, is_offset, is_whence) ints =
      let one = machine_set_int junk 0 fd in
      let two = machine_set_int one 4 offset in
      let buf = machine_set_int two 8 whence in
      let old = sv.message.d_payload in
      let one_length = length-machine_set_int junk 0 fd in
      let two_length = length-machine_set_int one 4 offset in
      let long : 23 ≤ length buf =
        omega (arith, room, one_length, two_length, length-machine_set_int two 8 whence) in
      let p = received buf old 23 in
      let fd_eq : machine_get_int p 0 ≡ fd =
        get_int-received buf old 23 long 0 (omega arith)
        ∙ get_int-set_int_other two 8 0 whence (inl (omega arith))
        ∙ get_int-set_int_other one 4 0 offset (inl (omega arith))
        ∙ get_int-set_int junk 0 fd (omega arith) is_fd in
      let offset_eq : machine_get_int p 4 ≡ offset =
        get_int-received buf old 23 long 4 (omega arith)
        ∙ get_int-set_int_other two 8 4 whence (inl (omega arith))
        ∙ get_int-set_int one 4 offset (omega (arith, room, one_length)) is_offset in
      let whence_eq : machine_get_int p 8 ≡ whence =
        get_int-received buf old 23 long 8 (omega arith)
        ∙ get_int-set_int two 8 whence (omega (arith, room, one_length, two_length)) is_whence in
      reply-DoneBy (message_of junk id (Request.seek_file fd offset whence)) _
        (os.seek_file st fd offset whence) (rw (fd_eq, offset_eq, whence_eq) refl)
        (omega (arith, length-received buf old 23 long)) (ints.seek_int st fd offset whence)

  pub close_lem :
      (junk : List ℕ) (id : ℕ) (fd : ℤ)
      → 27 ≤ length junk
      → IsRequest (length junk) (Request.close_file fd)
      → ReturnsInt os
      → DoneBy id (os.close_file st fd) (
          serve_message os shared_base shared_size
            (receive (message_of junk id (Request.close_file fd)) sv)
            st)
  unfolding serve_message serve_close
  close_lem junk id fd room is_fd ints =
      let buf = machine_set_int junk 0 fd in
      let old = sv.message.d_payload in
      let long : 15 ≤ length buf = omega (arith, room, length-machine_set_int junk 0 fd) in
      let fd_eq : machine_get_int (received buf old 15) 0 ≡ fd =
        get_int-received buf old 15 long 0 (omega arith)
        ∙ get_int-set_int junk 0 fd (omega arith) is_fd in
      reply-DoneBy (message_of junk id (Request.close_file fd)) _ (os.close_file st fd)
        (ap (os.close_file st) fd_eq) (omega (arith, length-received buf old 15 long))
        (ints.close_int st fd)
