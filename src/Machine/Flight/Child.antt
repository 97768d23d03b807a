-- ===== src/Machine/Flight/Child.antt =====
-- The child (Machine.cpp) answers or keeps each request that it takes, and each read that it keeps.
use proj.Base.{◌==◌, ◌≤◌}
use proj.Machine.Requests.{request_close, request_open, request_read, request_seek, request_write}
use proj.Machine.Wire.{machine_get_int, machine_get_pointer}
use proj.Machine.Flight.Counts.{count-read_ids-append}
use proj.Base.{refl}
use proj.Base.{Option, false, if◌then◌else◌, none, true, ◌++◌}
use proj.Machine.Flight.{IsRequestType, one}
use proj.Machine.Flight.Counts.{count-ids-append, take_read-Taken}
use proj.Machine.Requests.{Message}
use proj.Machine.Server.{
  Served, receive, serve_close, serve_message, serve_open, serve_poll, serve_read, serve_seek,
  serve_write, take_read,
}
use proj.Base.{Bool, List, [], arith, some, ℕ, ◌+◌, ◌∷◌, ◌≡◌}
use proj.Base.Int.{ℤ}
use proj.Machine.Flight.{count, ids, read_ids}
use proj.Machine.Flight.Counts.{Taken}
use proj.Machine.Server.{Os, PendingRead, Server, complete_read, complete_reads}

no_other :
    (k : ℕ)
    → 2 ≤ k
    → k ≤ 6
    → (k == request_open) ≡ false
    → (k == request_read) ≡ false
    → (k == request_write) ≡ false
    → (k == request_seek) ≡ false
    → (k == request_close) ≡ false
    → ⊥
no_other k low high n2 n3 n4 n5 n6 = ground arith

module _ (os : Os) (shared_base shared_size : ℕ) where
  -- The child keeps or answers what it had to do.
  abbrev pub Answered : (id : ℕ) → (owed : ℕ) → Served os shared_base shared_size → Type 0
  Answered id owed done = count id (read_ids done.0.pending_reads) + count id (ids done.2) ≡ owed

  complete_reads_step :
      (id : ℕ) (sv : Server) (st : os.State) (event : Bool)
      (found : Option (PendingRead × List PendingRead))
      → Taken id sv.pending_reads found
      → (onward : Server → os.State → Served os shared_base shared_size)
      → ((v : Server) (t : os.State)
          → Answered id (count id (read_ids v.pending_reads)) (onward v t))
      → Answered id (count id (read_ids sv.pending_reads)) (
          if event
          then elim found [
            | none ↦ onward sv st
            | some r ↦
                let made = complete_read os shared_base shared_size sv st r in
                let rest = onward made.0 made.1 in (rest.0, rest.1, made.2 ++ rest.2)
          ]
          else onward sv st)
  unfolding complete_read
  complete_reads_step id sv st false found h onward answered = answered sv st
  complete_reads_step id sv st true none h onward answered = answered sv st
  complete_reads_step id sv st true (some (r, rest)) h onward answered =
      let made = complete_read os shared_base shared_size sv st (r, rest) in
      omega (arith, h, answered made.0 made.1, count-ids-append id made.2 (onward made.0 made.1).2)

  complete_reads_lem :
      (id : ℕ) (revents : ℤ → Bool) (fds : List ℤ) (sv : Server) (st : os.State)
      → Answered id
          (count id (read_ids sv.pending_reads))
          (complete_reads os shared_base shared_size revents fds sv st)
  unfolding complete_reads
  complete_reads_lem id revents [] sv st = omega arith
  complete_reads_lem id revents (fd ∷ fds) sv st =
      complete_reads_step id sv st (revents fd) (take_read fd sv.pending_reads)
        (take_read-Taken id fd sv.pending_reads)
        (complete_reads os shared_base shared_size revents fds) (complete_reads_lem id revents fds)

  pub serve_poll_lem :
      (id : ℕ) (revents : ℤ → Bool) (sv : Server) (st : os.State)
      → Answered id
          (count id (read_ids sv.pending_reads))
          (serve_poll os shared_base shared_size revents sv st)
  unfolding serve_poll
  serve_poll_lem id revents sv st = complete_reads_lem id revents sv.poll_fds sv st

  unfoldable pub Owes : ℕ → Message → Server → Served os shared_base shared_size → Type 0
  Owes id q sv = Answered id (one id q.d_request_id + count id (read_ids sv.pending_reads))

  either :
      (id : ℕ) (q : Message) (sv : Server) (test : Bool) (x y : Served os shared_base shared_size)
      → (test ≡ true → Owes id q sv x)
      → (test ≡ false → Owes id q sv y)
      → Owes id q sv (if test then x else y)
  either id q sv true x y hx hy = hx refl
  either id q sv false x y hx hy = hy refl

  serve_read_lem :
      (id : ℕ) (q : Message) (sv : Server) (st : os.State)
      → Owes id q sv (serve_read os shared_base shared_size (receive q sv) st)
  unfolding Owes serve_read
  serve_read_lem id q sv st =
      let p = (receive q sv).message.d_payload in
      let read : PendingRead = record {
        d_request_id = q.d_request_id;
        d_file_descriptor = machine_get_int p 0;
        d_length = machine_get_int p 4;
        d_buffer = machine_get_pointer p 8;
      } in
      ground (arith, count-read_ids-append id sv.pending_reads (read ∷ []))

  serve_open_lem :
      (id : ℕ) (q : Message) (sv : Server) (st : os.State)
      → Owes id q sv (serve_open os shared_base shared_size (receive q sv) st)
  unfolding Owes serve_open
  serve_open_lem id q sv st = omega arith

  serve_seek_lem :
      (id : ℕ) (q : Message) (sv : Server) (st : os.State)
      → Owes id q sv (serve_seek os shared_base shared_size (receive q sv) st)
  unfolding Owes serve_seek
  serve_seek_lem id q sv st = omega arith

  serve_close_lem :
      (id : ℕ) (q : Message) (sv : Server) (st : os.State)
      → Owes id q sv (serve_close os shared_base shared_size (receive q sv) st)
  unfolding Owes serve_close
  serve_close_lem id q sv st = omega arith

  serve_write_lem :
      (id : ℕ) (q : Message) (sv : Server) (st : os.State)
      → Owes id q sv (serve_write os shared_base shared_size (receive q sv) st)
  unfolding Owes serve_write
  serve_write_lem id q sv st = ground arith

  pub serve_message_lem :
      (id : ℕ) (q : Message) (sv : Server) (st : os.State)
      → IsRequestType q
      → Owes id q sv (serve_message os shared_base shared_size (receive q sv) st)
  unfolding serve_message
  serve_message_lem id q sv st (low, high) =
      either id q sv _ _ _ (λ _. serve_open_lem id q sv st)
        (λ n2.
          either id q sv _ _ _ (λ _. serve_read_lem id q sv st)
            (λ n3.
              either id q sv _ _ _ (λ _. serve_write_lem id q sv st)
                (λ n4.
                  either id q sv _ _ _ (λ _. serve_seek_lem id q sv st)
                    (λ n5.
                      either id q sv _ _ _ (λ _. serve_close_lem id q sv st)
                        (λ n6. absurd (no_other q.d_type low high n2 n3 n4 n5 n6))))))
