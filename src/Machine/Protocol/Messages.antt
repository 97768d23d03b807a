-- ===== src/Machine/Protocol/Messages.antt =====
-- The messages that the `MachineFile` calls (Machine.cpp) send.
use proj.Machine.Protocol.Arguments.{transfer_payload}
use proj.Machine.Protocol.Names.{open_payload}
use proj.Machine.Requests.{
  Machine, Message, PendingCallback, machine_add_request, machine_file_close, machine_file_open,
  machine_file_read, machine_file_seek, machine_file_write, request_close, request_open,
  request_read, request_seek, request_write, send_request,
}
use proj.Machine.Wire.{machine_set_int}
use proj.Base.{List, [], length, refl, take, true, ℕ, ◌++◌, ◌+◌, ◌∷◌, ◌≡◌}
use proj.Base.Words.{add32}
use proj.Machine.Protocol.{Request, request}

-- The bytes of a request, and how many of them are sent.
abbrev pub payload_of : List ℕ → Request → List ℕ
payload_of junk (Request.open_file name flags mode) = open_payload junk name flags mode
payload_of junk (Request.read_file fd buffer len) = transfer_payload junk fd buffer len
payload_of junk (Request.write_file fd buffer len) = transfer_payload junk fd buffer len
payload_of junk (Request.seek_file fd offset whence) =
    machine_set_int (machine_set_int (machine_set_int junk 0 fd) 4 offset) 8 whence
payload_of junk (Request.close_file fd) = machine_set_int junk 0 fd

abbrev size_of : Request → ℕ
size_of (Request.open_file name flags mode) = length name + 16
size_of (Request.read_file fd buffer len) = 27
size_of (Request.write_file fd buffer len) = 27
size_of (Request.seek_file fd offset whence) = 23
size_of (Request.close_file fd) = 15

abbrev kind_of : Request → ℕ
kind_of (Request.open_file name flags mode) = request_open
kind_of (Request.read_file fd buffer len) = request_read
kind_of (Request.write_file fd buffer len) = request_write
kind_of (Request.seek_file fd offset whence) = request_seek
kind_of (Request.close_file fd) = request_close

-- The message that a request is sent as.
abbrev pub message_of : (junk : List ℕ) (id : ℕ) → Request → Message
message_of junk id r = record {
  d_type = kind_of r;
  d_request_id = id;
  d_payload = take (size_of r) (payload_of junk r);
}

pub request-message_of :
    (junk : List ℕ) (cb : PendingCallback) (r : Request) (m : Machine)
    → m.machine_initialized ≡ true
    → (request junk cb r m).request_channel
      ≡ m.request_channel ++ (message_of junk (add32 m.machine_request_id 1) r ∷ [])
unfolding machine_file_open machine_file_read machine_file_write machine_file_seek
    machine_file_close send_request machine_add_request
request-message_of junk cb (Request.open_file name flags mode) m up = rw up refl
request-message_of junk cb (Request.read_file fd buffer len) m up = rw up refl
request-message_of junk cb (Request.write_file fd buffer len) m up = rw up refl
request-message_of junk cb (Request.seek_file fd offset whence) m up = rw up refl
request-message_of junk cb (Request.close_file fd) m up = rw up refl
