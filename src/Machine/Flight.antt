-- ===== src/Machine/Flight.antt =====
-- The two processes of Machine.cpp together: requests in one channel, replies in the other, reads that
-- wait in the child, and the callbacks that wait for replies. Each step is one operation of one process.
use proj.Base.{All, Bool, [], if◌then◌else◌, not, ◌++◌, ◌+◌, ◌<◌, ◌==◌, ◌∷◌, ◌≡◌, ◌≤◌}
use proj.Base.Int.{ℤ}
use proj.Base.Words.{u32_mod}
use proj.Machine.Protocol.{Request, request}
use proj.Machine.Requests.{Machine, Message, PendingCallback, machine_reply_signal_handler}
use proj.Machine.Server.{Os, PendingRead, Served, Server, receive, serve_message, serve_poll}
pub mod Counts
pub mod Child
pub mod Replies
pub mod Invariant
pub mod Answers
use proj.Base.{List, ℕ}

-- How often an id stands in a list.
abbrev pub one : (id x : ℕ) → ℕ
one id x = if x == id then 1 else 0

abbrev pub count : ℕ → List ℕ → ℕ
count id [] = 0
count id (x ∷ xs) = one id x + count id xs

-- The ids of messages, of reads that wait and of callbacks.
abbrev pub ids : List Message → List ℕ
ids [] = []
ids (q ∷ qs) = q.d_request_id ∷ ids qs

abbrev pub read_ids : List PendingRead → List ℕ
read_ids [] = []
read_ids (r ∷ rs) = r.d_request_id ∷ read_ids rs

abbrev pub keys : List (ℕ × PendingCallback) → List ℕ
keys [] = []
keys ((id, cb) ∷ cs) = id ∷ keys cs

-- The messages that the `MachineFile` calls send.
abbrev pub IsRequestType : Message → Type 0
IsRequestType q = (2 ≤ q.d_type) × (q.d_type ≤ 6)

-- Each request is in one place, and its callback waits until its reply is taken. Ids are not used again.
pub record InFlight (m : Machine) (sv : Server) : Type 0 where
  pub balance :
      (id : ℕ)
      → count id (keys m.machine_pending_callbacks)
        ≡ count id (ids m.request_channel)
          + count id (read_ids sv.pending_reads)
          + count id (ids m.reply_channel)
  pub once : (id : ℕ) → count id (keys m.machine_pending_callbacks) ≤ 1
  pub fresh : (id : ℕ) → m.machine_request_id < id → count id (keys m.machine_pending_callbacks) ≡ 0
  pub types : All IsRequestType m.request_channel

module _ (os : Os) (shared_base shared_size : ℕ) where
  abbrev pub System : Type 0
  System = Machine × Server × os.State

  -- The child has taken a message or looked at its reads, and its replies are in the channel.
  abbrev pub sent : Machine → Served os shared_base shared_size → System
  sent m (sv, st, replies) = (record m { reply_channel = m.reply_channel ++ replies }, sv, st)

  -- The steps. The counter of ids does not wrap within a run.
  pub data Step : System → System → Type 0 where
    called :
        {m : Machine} {sv : Server} {st : os.State} (junk : List ℕ) (cb : PendingCallback)
        (r : Request)
        → m.machine_request_id + 1 < u32_mod
        → Step (m, sv, st) (request junk cb r m, sv, st)
    served :
        {m : Machine} {sv : Server} {st : os.State} {q : Message} {qs : List Message}
        → m.request_channel ≡ q ∷ qs
        → Step
            (m, sv, st)
            (sent
              (record m { request_channel = qs })
              (serve_message os shared_base shared_size (receive q sv) st))
    polled :
        {m : Machine} {sv : Server} {st : os.State} (revents : ℤ → Bool)
        → Step (m, sv, st) (sent m (serve_poll os shared_base shared_size revents sv st))
    replied :
        {m : Machine} {sv : Server} {st : os.State}
        → Step (m, sv, st) ((machine_reply_signal_handler m).1, sv, st)

  pub data Run : System → System → Type 0 where
    done : {s : System} → Run s s
    then : {s t u : System} → Run s t → Step t u → Run s u
