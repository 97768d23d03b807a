-- ===== src/Machine/Protocol.antt =====
-- What is promised of a request (Machine.cpp), without messages: the child makes the system call with
-- the arguments that were given to the `MachineFile` call, or keeps the read for later.
pub mod Arguments
pub mod Names
pub mod Serving
pub mod Messages
pub mod Answers
pub mod Transfers
use proj.Base.{
  Bool, List, Option, [], if◌then◌else◌, length, none, some, ℕ, ◌++◌, ◌+◌, ◌<◌, ◌∷◌, ◌≡◌, ◌≤◌,
}
use proj.Base.Int.{IsInt, negsuc, ℤ}
use proj.Base.Strings.{IsString}
use proj.Base.Words.{u64_mod}
use proj.Machine.Requests.{
  Machine, Message, PendingCallback, machine_file_close, machine_file_open, machine_file_read,
  machine_file_seek, machine_file_write,
}
use proj.Machine.Server.{Os, PendingRead, Served, Server, transfer_allowed}
use proj.Machine.Wire.{machine_get_int}
use proj.Vm.Calls.{next}

pub data Request : Type 0 where
  open_file : (name : List ℕ) (flags mode : ℤ) → Request
  read_file write_file : (fd : ℤ) (buffer : ℕ) (length_ : ℤ) → Request
  seek_file : (fd offset whence : ℤ) → Request
  close_file : (fd : ℤ) → Request

-- Arguments of the types of C, and a name with room behind it for the other arguments.
abbrev pub IsRequest : (room : ℕ) → Request → Type 0
IsRequest room (open_file name flags mode) =
    IsString name × (length name + 16 ≤ room) × IsInt flags × IsInt mode
IsRequest room (read_file fd buffer len) = IsInt fd × (buffer < u64_mod) × IsInt len
IsRequest room (write_file fd buffer len) = IsInt fd × (buffer < u64_mod) × IsInt len
IsRequest room (seek_file fd offset whence) = IsInt fd × IsInt offset × IsInt whence
IsRequest room (close_file fd) = IsInt fd

-- The call that makes the request.
abbrev pub request : (junk : List ℕ) → PendingCallback → Request → Machine → Machine
request junk cb (open_file name flags mode) = machine_file_open junk cb name flags mode
request junk cb (read_file fd buffer len) = machine_file_read junk cb fd buffer len
request junk cb (write_file fd buffer len) = machine_file_write junk cb fd buffer len
request junk cb (seek_file fd offset whence) = machine_file_seek junk cb fd offset whence
request junk cb (close_file fd) = machine_file_close junk cb fd

-- The ids and values that replies carry.
abbrev pub results : List Message → List (ℕ × ℤ)
results [] = []
results (q ∷ qs) = (q.d_request_id, machine_get_int q.d_payload 0) ∷ results qs

-- The results of system calls are values of an `int`.
pub record ReturnsInt (os : Os) : Type 0 where
  pub open_int : (st : os.State) (name : List ℕ) (f m : ℤ) → IsInt (os.open_file st name f m).0
  pub read_int : (st : os.State) (fd : ℤ) (b : ℕ) (n : ℤ) → IsInt (os.read_file st fd b n).0
  pub write_int : (st : os.State) (fd : ℤ) (b : ℕ) (n : ℤ) → IsInt (os.write_file st fd b n).0
  pub seek_int : (st : os.State) (fd o w : ℤ) → IsInt (os.seek_file st fd o w).0
  pub close_int : (st : os.State) (fd : ℤ) → IsInt (os.close_file st fd).0

module _ (os : Os) (shared_base shared_size : ℕ) where
  abbrev pub transfer : ℕ → ℤ → Bool
  transfer = transfer_allowed shared_base shared_size

  -- The result of a request and the system's next state; `none` where a read is kept for later.
  abbrev pub perform : Request → os.State → Option (ℤ × os.State)
  perform (open_file name flags mode) st = some (os.open_file st name flags mode)
  perform (read_file fd buffer len) st = if transfer buffer len then none else some (negsuc 0, st)
  perform (write_file fd buffer len) st =
      if transfer buffer len then some (os.write_file st fd buffer len) else some (negsuc 0, st)
  perform (seek_file fd offset whence) st = some (os.seek_file st fd offset whence)
  perform (close_file fd) st = some (os.close_file st fd)

  -- The read that is kept.
  abbrev pub kept : (id : ℕ) → Request → List PendingRead
  kept id (read_file fd buffer len) =
      record { d_request_id = id; d_file_descriptor = fd; d_length = len; d_buffer = buffer } ∷ []
  kept id _ = []

  -- What was served is what was to be performed.
  abbrev pub Meets :
      (id : ℕ)
      → Request
      → Server
      → os.State
      → Option (ℤ × os.State)
      → Served os shared_base shared_size
      → Type 0
  Meets id r sv st none served =
      (served.0.pending_reads ≡ sv.pending_reads ++ kept id r) × (served.1 ≡ st) × (served.2 ≡ [])
  Meets id r sv st (some (result, st')) served =
      (served.0.pending_reads ≡ sv.pending_reads)
      × (served.1 ≡ st')
      × (results served.2 ≡ (id, result) ∷ [])
