-- ===== src/Machine/Flight/Answers.antt =====
-- What follows from `InFlight` for the calls of the program: callbacks are called for replies, and
-- none is forgotten.
use proj.Base.{List, [], ap, arith, refl, ℕ, ◌∷◌, ◌≡◌}
use proj.Base.Int.{ℤ}
use proj.Machine.Flight.{InFlight, Run, System, count, ids, keys, read_ids}
use proj.Machine.Flight.Invariant.{InFlight-Awaited, InFlight-Run}
use proj.Machine.Flight.Replies.{AreCalls, handle_replies-AreCalls, handle_replies_left}
use proj.Machine.Requests.{Machine, Message, PendingCallback, machine_reply_signal_handler}
use proj.Machine.Server.{Os, Server}
use proj.Machine.Startup.{machine_initialize, machine_unset, server_started}

pub InFlight-start :
    (sharesize mapped : ℕ) (pipe : ℤ) (buffer : Message)
    → InFlight (machine_initialize sharesize mapped machine_unset).1 (server_started pipe buffer)
unfolding machine_initialize
InFlight-start sharesize mapped pipe buffer = record {
  balance = λ id. refl;
  once = λ id. omega arith;
  fresh = λ id lt. refl;
  types = tt;
}

keys-nil : (cs : List (ℕ × PendingCallback)) → ((id : ℕ) → count id (keys cs) ≡ 0) → cs ≡ []
keys-nil [] h = refl
keys-nil ((id, cb) ∷ cs) h = absurd (ground (arith, h id))

-- Nothing is under way in the child.
abbrev pub IsIdle : Machine → Server → Type 0
IsIdle m sv = (m.request_channel ≡ []) × (sv.pending_reads ≡ [])

module _ (os : Os) (sharesize mapped : ℕ) (pipe : ℤ) (buffer : Message) (st : os.State) where
  abbrev pub started_size : ℕ
  started_size = (machine_initialize sharesize mapped machine_unset).1.d_shared_size

  -- The state behind `MachineInitialize`.
  abbrev pub started : System os mapped started_size
  started = ((machine_initialize sharesize mapped machine_unset).1, server_started pipe buffer, st)

  -- In every state that MachineFile calls, served messages, polls and reply signals lead to after
  -- MachineInitialize, while the counter of ids does not wrap, the reply handler calls, for each
  -- reply in order, the callback that was entered under the reply's id, with the value of the
  -- reply, and no other.
  pub machine_reply_signal_handler-AreCalls :
      (m : Machine) (sv : Server) (t : os.State)
      → Run os mapped started_size started (m, sv, t)
      → AreCalls m.reply_channel m.machine_pending_callbacks (machine_reply_signal_handler m).0
  unfolding machine_reply_signal_handler
  machine_reply_signal_handler-AreCalls m sv t run =
      handle_replies-AreCalls m.reply_channel m.machine_pending_callbacks
        (InFlight-Awaited (InFlight-Run run (InFlight-start sharesize mapped pipe buffer)))

  -- In every state that MachineFile calls, served messages, polls and reply signals lead to after
  -- MachineInitialize, while the counter of ids does not wrap, and in which no request is queued
  -- and no read waits, the reply handler leaves no callback pending: no request is forgotten.
  pub machine_reply_signal_handler_settled :
      (m : Machine) (sv : Server) (t : os.State)
      → Run os mapped started_size started (m, sv, t)
      → IsIdle m sv
      → (machine_reply_signal_handler m).1.machine_pending_callbacks ≡ []
  unfolding machine_reply_signal_handler
  machine_reply_signal_handler_settled m sv t run (no_requests, no_reads) =
      let h = InFlight-Run run (InFlight-start sharesize mapped pipe buffer) in
      keys-nil _ (λ id. omega (
        arith,
        h.balance id,
        ap (λ qs. count id (ids qs)) no_requests,
        ap (λ rs. count id (read_ids rs)) no_reads,
        handle_replies_left m.reply_channel m.machine_pending_callbacks id (InFlight-Awaited h),
      ))
