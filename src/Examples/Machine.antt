-- ===== src/Examples/Machine.antt =====
-- A request of the virtual machine to the child process (Machine.cpp), followed to its callback.
use proj.Base.{some}
use proj.Examples.Pools.{machine}
use proj.Kernel.State.{Kernel, ready, set_state, waiting}
use proj.Vm.Answers.{deliver}
use proj.Vm.Answers.Delivery.{request-answered}
use proj.Vm.State.{Vm, with_kernel}
use proj.Base.{◌++◌}
use proj.Base.Words.{add32}
use proj.Machine.Flight.{InFlight}
use proj.Machine.Flight.Answers.{
  InFlight-start, machine_reply_signal_handler-AreCalls, machine_reply_signal_handler_settled,
}
use proj.Machine.Flight.Invariant.{InFlight-Run}
use proj.Machine.Flight.Replies.{AreCalls}
use proj.Machine.Protocol.{Meets, ReturnsInt, perform}
use proj.Machine.Protocol.Serving.{request-served}
use proj.Machine.Wire.Laws.{get_int-set_int}
use proj.Base.{List, [], arith, refl, suc, true, zero, ℕ, ◌+◌, ◌∷◌, ◌≡◌}
use proj.Base.Int.{negsuc, pos}
use proj.Machine.Flight.{Run, Step, System, sent}
use proj.Machine.Flight.Answers.{started, started_size}
use proj.Machine.Protocol.{Request, request}
use proj.Machine.Protocol.Messages.{message_of, request-message_of}
use proj.Machine.Requests.{
  Machine, Message, PendingCallback, find_callback, handle_replies, machine_add_request,
  machine_file_write, machine_reply_signal_handler, put_callback, send_request,
}
use proj.Machine.Server.{Os, Server, receive, serve_message, serve_write, transfer_allowed}
use proj.Machine.Startup.{machine_initialize, machine_unset, page_count, server_started}
use proj.Machine.Wire.{
  get_bytes, get_int_loop, machine_get_int, machine_get_pointer, machine_set_int,
  machine_set_pointer, machine_valid_share_pointer, set_bytes, set_int_loop,
}

abbrev counting_os : Os
counting_os = record {
  State = ℕ;
  open_file = λ st name flags mode. (pos 5, st + 1);
  read_file = λ st fd buffer len. (pos 0, st + 1);
  write_file = λ st fd buffer len. (pos 5, st + 1);
  seek_file = λ st fd offset whence. (pos 9, st + 1);
  close_file = λ st fd. (negsuc 0, st + 1);
}

abbrev zeros : ℕ → List ℕ
zeros zero = []
zeros (suc n) = 0 ∷ zeros n

abbrev buffer : List ℕ
buffer = zeros 40

abbrev no_message : Message
no_message = record { d_type = 1; d_request_id = 0; d_payload = buffer }

abbrev callback : PendingCallback
callback = record { d_callback = 100; d_calldata = 200 }

-- 5 bytes at the beginning of the shared memory are to be written.
abbrev writing : Request
writing = Request.write_file (pos 1) 8192 (pos 5)

abbrev parent : Machine
parent = (machine_initialize 4096 8192 machine_unset).1

abbrev child : Server
child = server_started (pos 3) no_message

abbrev size : ℕ
size = started_size counting_os 4096 8192 (pos 3) no_message 0

abbrev system : System counting_os 8192 size
system = started counting_os 4096 8192 (pos 3) no_message 0

parent_up : parent.machine_initialized ≡ true
unfolding machine_initialize
parent_up = refl

size_is : size ≡ 4096
unfolding machine_initialize page_count
size_is = refl

abbrev the_message : Message
the_message = message_of buffer 1 writing

abbrev queued : System counting_os 8192 size
queued = (request buffer callback writing parent, child, 0)

abbrev written : System counting_os 8192 size
written =
    sent counting_os 8192 size (record queued.0 { request_channel = [] })
      (serve_message counting_os 8192 size (receive the_message child) 0)

queued_channel : queued.0.request_channel ≡ the_message ∷ []
unfolding machine_initialize
queued_channel = request-message_of buffer callback writing parent parent_up

run : Run counting_os 8192 size system written
unfolding machine_initialize
run =
    Run.then (Run.then Run.done (Step.called buffer callback writing (omega arith)))
      (Step.served queued_channel)

-- The reply is there, and the callback is called with the length written.
reply_run : (machine_reply_signal_handler written.0).0 ≡ (callback, pos 5) ∷ []
unfolding machine_reply_signal_handler handle_replies find_callback serve_message serve_write
    machine_file_write send_request machine_add_request put_callback machine_set_int set_int_loop
    machine_set_pointer set_bytes machine_get_int get_int_loop machine_get_pointer get_bytes
    transfer_allowed machine_valid_share_pointer machine_initialize page_count
reply_run = refl

counting_os-ReturnsInt : ReturnsInt counting_os
counting_os-ReturnsInt = record {
  open_int = λ st name f m. omega arith;
  read_int = λ st fd b len. omega arith;
  write_int = λ st fd b len. omega arith;
  seek_int = λ st fd o w. omega arith;
  close_int = λ st fd. omega arith;
}

request-served_example :
    (q : Message) × ((request buffer callback writing parent).request_channel
      ≡ parent.request_channel ++ (q ∷ []))
    × Meets counting_os 8192 4096
        (add32 parent.machine_request_id 1)
        writing
        child
        0
        (perform counting_os 8192 4096 writing 0)
        (serve_message counting_os 8192 4096 (receive q child) 0)
request-served_example =
    request-served counting_os 8192 4096 child 0 buffer callback writing parent (omega arith)
      (omega arith, omega arith, omega arith) counting_os-ReturnsInt parent_up

InFlight-Run_example : InFlight written.0 written.1
InFlight-Run_example =
    InFlight-Run {os = counting_os} {shared_base = 8192} {shared_size = size} {s = system}
      {t = written} run (InFlight-start 4096 8192 (pos 3) no_message)

machine_reply_signal_handler-AreCalls_example :
    AreCalls written.0.reply_channel written.0.machine_pending_callbacks
      (machine_reply_signal_handler written.0).0
machine_reply_signal_handler-AreCalls_example =
    machine_reply_signal_handler-AreCalls counting_os 4096 8192 (pos 3) no_message 0 written.0
      written.1 written.2 run

written_reads : written.1.pending_reads ≡ []
unfolding serve_message serve_write machine_file_write send_request machine_add_request put_callback
    machine_set_int set_int_loop machine_set_pointer set_bytes machine_get_int get_int_loop
    machine_get_pointer get_bytes transfer_allowed machine_valid_share_pointer machine_initialize
    page_count
written_reads = refl

machine_reply_signal_handler_settled_example :
    (machine_reply_signal_handler written.0).1.machine_pending_callbacks ≡ []
machine_reply_signal_handler_settled_example =
    machine_reply_signal_handler_settled counting_os 4096 8192 (pos 3) no_message 0 written.0
      written.1 written.2 run (refl, written_reads)

get_int-set_int_example : machine_get_int (machine_set_int buffer 4 (negsuc 6)) 4 ≡ negsuc 6
get_int-set_int_example = get_int-set_int buffer 4 (negsuc 6) (omega arith) (omega arith)

-- Thread 0 waits for its file to be closed.
abbrev waiting_vm : Vm
waiting_vm = with_kernel machine (set_state machine.kernel 0 waiting)

abbrev closing : Request
closing = Request.close_file (pos 5)

none_pending : parent.machine_pending_callbacks ≡ []
unfolding machine_initialize
none_pending = refl

request-answered_example :
    let asked = request buffer (record { d_callback = 100; d_calldata = 0 }) closing parent in
    (q : Message) × (asked.request_channel ≡ parent.request_channel ++ (q ∷ []))
    × (let answered = record asked {
      reply_channel = (serve_message counting_os 8192 4096 (receive q child) 0).2;
    } in
        let (calls, after_) = machine_reply_signal_handler answered in
        (after_.machine_pending_callbacks ≡ [])
        × ((k : Kernel) × (deliver calls waiting_vm ≡ some (with_kernel waiting_vm k))
            × ((k.thread 0).state ≡ ready)
            × ((k.thread 0).cd ≡ negsuc 0)
            × (k.ready_q (waiting_vm.kernel.thread 0).priority
                ≡ waiting_vm.kernel.ready_q (waiting_vm.kernel.thread 0).priority ++ (0 ∷ []))))
request-answered_example =
    request-answered counting_os 8192 4096 child 0 buffer 100 closing parent waiting_vm 0 (negsuc 0)
      1 (omega arith) (omega arith) counting_os-ReturnsInt parent_up none_pending refl refl
