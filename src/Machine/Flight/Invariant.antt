-- ===== src/Machine/Flight/Invariant.antt =====
-- Every step of the two processes (Machine.cpp) keeps `InFlight`.
use proj.Machine.Flight.{Step}
use proj.Base.{false, if◌then◌else◌, true}
use proj.Machine.Flight.Child.{Owes}
use proj.Machine.Flight.{Run}
use proj.Base.{inl, inr, refl, sym, ◌<◌, ◌≤◌, ◌⊎◌}
use proj.Base.Words.{add32, u32_mod}
use proj.Machine.Flight.{Run, Step, System}
use proj.Machine.Protocol.{Request, request}
use proj.Machine.Requests.{
  machine_add_request, machine_file_close, machine_file_open, machine_file_read, machine_file_seek,
  machine_file_write, send_request,
}
use native.Mathlib.Nat.{mod-eq_of_lt}
use proj.Base.{All, Bool, List, [], ap, arith, subst, ℕ, ◌++◌, ◌+◌, ◌∙◌, ◌∷◌, ◌≡◌}
use proj.Base.Int.{ℤ}
use proj.Machine.Flight.{InFlight, IsRequestType, count, ids, keys, one, sent}
use proj.Machine.Flight.Child.{serve_message_lem, serve_poll_lem}
use proj.Machine.Flight.Counts.{count-ids-append, count-put_callback}
use proj.Machine.Flight.Replies.{Awaited, handle_replies_left}
use proj.Machine.Requests.{
  Machine, Message, PendingCallback, machine_reply_signal_handler, put_callback,
}
use proj.Machine.Server.{Os, Server, receive, serve_message, serve_poll}
use proj.Machine.Flight.{called}
use proj.Machine.Flight.{served}
use proj.Machine.Flight.{polled}

All-append :
    (qs rs : List Message)
    → All IsRequestType qs
    → All IsRequestType rs
    → All IsRequestType (qs ++ rs)
All-append [] rs h k = k
All-append (q ∷ qs) rs (hq, h) k = (hq, All-append qs rs h k)

one-cases : (id x : ℕ) → (one id x ≡ 0) ⊎ ((one id x ≡ 1) × (x ≡ id))
one-cases id x = ground arith

-- A call enters its callback and queues one message, with the new id.
abbrev Queues : PendingCallback → Message → Machine → Machine → Type 0
Queues cb q m m' =
    (m'.machine_request_id ≡ m.machine_request_id + 1)
    × (m'.machine_pending_callbacks
        ≡ put_callback (m.machine_request_id + 1) cb m.machine_pending_callbacks)
    × (m'.request_channel ≡ m.request_channel ++ (q ∷ []))
    × (m'.reply_channel ≡ m.reply_channel)
    × (q.d_request_id ≡ m.machine_request_id + 1)
    × IsRequestType q

InFlight-Queues :
    {m : Machine} {sv : Server} (m' : Machine) (cb : PendingCallback) (q : Message)
    → Queues cb q m m'
    → InFlight m sv
    → InFlight m' sv
InFlight-Queues {m} {sv} m' cb q (id_eq, cbs_eq, queue_eq, replies_eq, is_id, is_type) h =
    let id = m.machine_request_id + 1 in
    let counted = λ (j : ℕ).
      ap (λ c. count j (keys c)) cbs_eq
      ∙ count-put_callback id j cb m.machine_pending_callbacks (h.fresh id (omega arith)) in
    let queued = λ (j : ℕ).
      ap (λ c. count j (ids c)) queue_eq ∙ count-ids-append j m.request_channel (q ∷ []) in
    let replies = λ (j : ℕ). ap (λ c. count j (ids c)) replies_eq in
    let own = λ (j : ℕ). ap (one j) is_id in
    record {
      balance = λ j. omega (arith, h.balance j, counted j, queued j, replies j, own j);
      once = λ j. elim (one-cases j id) [
        | inl other ↦ omega (arith, other, counted j, h.once j)
        | inr (is_one, same) ↦
            omega (arith, is_one, same, counted j, h.fresh j (omega (arith, same)))
      ];
      fresh = λ j lt. elim (one-cases j id) [
        | inl other ↦ omega (arith, other, counted j, h.fresh j (omega (arith, lt, id_eq)))
        | inr (is_one, same) ↦ absurd (omega (arith, same, lt, id_eq))
      ];
      types =
          subst (All IsRequestType) (sym queue_eq)
            (All-append m.request_channel (q ∷ []) h.types (is_type, tt));
    }

InFlight-if :
    {m n : Machine} {sv : Server} (test : Bool)
    → InFlight m sv
    → InFlight n sv
    → InFlight (if test then m else n) sv
InFlight-if true h k = h
InFlight-if false h k = k

InFlight-send_request :
    {m : Machine} {sv : Server} (kind size : ℕ) (payload : List ℕ) (cb : PendingCallback)
    → (2 ≤ kind) × (kind ≤ 6)
    → m.machine_request_id + 1 < u32_mod
    → InFlight m sv
    → InFlight (send_request kind size payload cb m) sv
unfolding send_request machine_add_request
InFlight-send_request {m} kind size payload cb is_kind small h =
    let id_eq : add32 m.machine_request_id 1 ≡ m.machine_request_id + 1 = mod-eq_of_lt small in
    InFlight-if m.machine_initialized
      (InFlight-Queues _ cb _
        (
          id_eq,
          ap (λ i. put_callback i cb m.machine_pending_callbacks) id_eq,
          refl,
          refl,
          id_eq,
          is_kind,
        )
        h)
      h

InFlight-request :
    {m : Machine} {sv : Server} (junk : List ℕ) (cb : PendingCallback) (r : Request)
    → m.machine_request_id + 1 < u32_mod
    → InFlight m sv
    → InFlight (request junk cb r m) sv
unfolding machine_file_open machine_file_read machine_file_write machine_file_seek
    machine_file_close
InFlight-request junk cb (Request.open_file name flags mode) small h =
    InFlight-send_request _ _ _ cb (omega arith, omega arith) small h
InFlight-request junk cb (Request.read_file fd buffer len) small h =
    InFlight-send_request _ _ _ cb (omega arith, omega arith) small h
InFlight-request junk cb (Request.write_file fd buffer len) small h =
    InFlight-send_request _ _ _ cb (omega arith, omega arith) small h
InFlight-request junk cb (Request.seek_file fd offset whence) small h =
    InFlight-send_request _ _ _ cb (omega arith, omega arith) small h
InFlight-request junk cb (Request.close_file fd) small h =
    InFlight-send_request _ _ _ cb (omega arith, omega arith) small h

module _ (os : Os) (shared_base shared_size : ℕ) where
  InFlight-served :
      {m : Machine} {sv : Server} (st : os.State) (q : Message) (qs : List Message)
      → m.request_channel ≡ q ∷ qs
      → InFlight m sv
      → let s =
          sent os shared_base shared_size
            (record m { request_channel = qs })
            (serve_message os shared_base shared_size (receive q sv) st) in
        InFlight s.0 s.1
  unfolding Owes
  InFlight-served {m} {sv} st q qs e h =
      let types : All IsRequestType (q ∷ qs) = subst (All IsRequestType) e h.types in
      let done = serve_message os shared_base shared_size (receive q sv) st in
      record {
        balance = λ j.
            let owes = serve_message_lem os shared_base shared_size j q sv st types.0 in
            let queue = ap (λ c. count j (ids c)) e in
            omega (arith, h.balance j, owes, queue, count-ids-append j m.reply_channel done.2);
        once = h.once;
        fresh = h.fresh;
        types = types.1;
      }

  InFlight-polled :
      {m : Machine} {sv : Server} (st : os.State) (revents : ℤ → Bool)
      → InFlight m sv
      → let s =
          sent os shared_base shared_size m (serve_poll os shared_base shared_size revents sv st) in
        InFlight s.0 s.1
  InFlight-polled {m} {sv} st revents h =
      let done = serve_poll os shared_base shared_size revents sv st in
      record {
        balance = λ j. omega (
          arith,
          h.balance j,
          serve_poll_lem os shared_base shared_size j revents sv st,
          count-ids-append j m.reply_channel done.2,
        );
        once = h.once;
        fresh = h.fresh;
        types = h.types;
      }

pub InFlight-Awaited :
    {m : Machine} {sv : Server}
    → InFlight m sv
    → Awaited m.reply_channel m.machine_pending_callbacks
InFlight-Awaited h id = (omega (arith, h.balance id), h.once id)

InFlight-replied :
    {m : Machine} {sv : Server} → InFlight m sv → InFlight (machine_reply_signal_handler m).1 sv
unfolding machine_reply_signal_handler
InFlight-replied {m} h =
    let left = λ (j : ℕ).
      handle_replies_left m.reply_channel m.machine_pending_callbacks j (InFlight-Awaited h) in
    record {
      balance = λ j. omega (arith, left j, h.balance j);
      once = λ j. omega (arith, left j, h.once j);
      fresh = λ j lt. omega (arith, left j, h.fresh j lt);
      types = h.types;
    }

pub InFlight-Step :
    {os : Os} {shared_base shared_size : ℕ} {s t : System os shared_base shared_size}
    → Step os shared_base shared_size s t
    → InFlight s.0 s.1
    → InFlight t.0 t.1
InFlight-Step (called junk cb r small) h = InFlight-request junk cb r small h
InFlight-Step {os} {shared_base = b} {shared_size = n} (served {st = st} {q} {qs} e) h =
    InFlight-served os b n st q qs e h
InFlight-Step {os} {shared_base = b} {shared_size = n} (polled {st = st} revents) h =
    InFlight-polled os b n st revents h
InFlight-Step Step.replied h = InFlight-replied h

-- From a state in which every request is in one place, the request channel, the child's waiting
-- reads or the reply channel, and exactly the requests in such a place have a callback, one each,
-- with ids that are not used again, every sequence of MachineFile calls, served messages, polls
-- and reply signals in which the counter of ids does not wrap leads to such a state.
pub InFlight-Run :
    {os : Os} {shared_base shared_size : ℕ} {s t : System os shared_base shared_size}
    → Run os shared_base shared_size s t
    → InFlight s.0 s.1
    → InFlight t.0 t.1
InFlight-Run Run.done h = h
InFlight-Run (Run.then run step) h = InFlight-Step step (InFlight-Run run h)
