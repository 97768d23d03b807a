-- ===== src/Vm/Answers/Delivery.antt =====
-- The way of a request from a file call of VirtualMachine.cpp to the child of Machine.cpp and back.
use proj.Base.{ap, subst, ◌∙◌}
use proj.Kernel.Queues.{queued}
use proj.Machine.Flight.{sent}
use proj.Machine.Protocol.{Meets}
use proj.Machine.Protocol.Serving.{request-served}
use proj.Base.{length, some, ◌≤◌}
use proj.Machine.Protocol.{IsRequest, ReturnsInt, perform}
use proj.Machine.Requests.{machine_reply_signal_handler}
use proj.Machine.Server.{Os, Served, Server, receive, serve_message}
use proj.Vm.Answers.{deliver}
use proj.Kernel.Scheduler.{file_callback}
use proj.Base.{==_refl, List, [], none, refl, true, ℕ, ◌++◌, ◌==◌, ◌∷◌, ◌≡◌}
use proj.Base.Int.{ℤ}
use proj.Base.Words.{add32}
use proj.Kernel.State.{Kernel, is_waiting, push_ready, ready, set_state, setcd, waiting}
use proj.Machine.Protocol.{Request, request, results}
use proj.Machine.Requests.{
  Machine, Message, PendingCallback, erase_callback, find_callback, handle_replies,
  machine_add_request, machine_file_close, machine_file_open, machine_file_read, machine_file_seek,
  machine_file_write, put_callback, send_request,
}
use proj.Machine.Wire.{machine_get_int}
use proj.Vm.Interrupts.{vm_file_callback}
use proj.Vm.State.{Vm, returned, success, with_kernel}

-- A waiting thread is made ready with the result.
callback_lem :
    (v : Vm) (t : ℕ) (result : ℤ)
    → (v.kernel.thread t).state ≡ waiting
    → (k : Kernel) × (vm_file_callback v t result ≡ returned success none (with_kernel v k))
      × ((k.thread t).state ≡ ready)
      × ((k.thread t).cd ≡ result)
      × (k.ready_q (v.kernel.thread t).priority
          ≡ v.kernel.ready_q (v.kernel.thread t).priority ++ (t ∷ []))
unfolding vm_file_callback file_callback
callback_lem v t result waits =
    let k₁ = setcd v.kernel t result in
    let self : (t == t) ≡ true = ==_refl t in
    let still : is_waiting (k₁.thread t).state ≡ true = rw (self, waits) refl in
    let priority_same : (k₁.thread t).priority ≡ (v.kernel.thread t).priority = rw self refl in
    (
      push_ready (set_state k₁ t ready) t,
      rw (vm_file_callback, file_callback, still) refl,
      rw self refl,
      rw self refl,
      rw (self, ==_refl (v.kernel.thread t).priority) refl,
    )

-- One callback is pending.
asked_lem :
    (junk : List ℕ) (cb : PendingCallback) (r : Request) (m : Machine)
    → m.machine_initialized ≡ true
    → (request junk cb r m).machine_pending_callbacks
      ≡ put_callback (add32 m.machine_request_id 1) cb m.machine_pending_callbacks
unfolding machine_file_open machine_file_read machine_file_write machine_file_seek
    machine_file_close send_request machine_add_request
asked_lem junk cb (Request.open_file name flags mode) m up = rw up refl
asked_lem junk cb (Request.read_file fd buffer len) m up = rw up refl
asked_lem junk cb (Request.write_file fd buffer len) m up = rw up refl
asked_lem junk cb (Request.seek_file fd offset whence) m up = rw up refl
asked_lem junk cb (Request.close_file fd) m up = rw up refl

-- One reply to one pending callback.
handled_lem :
    (qs : List Message) (id : ℕ) (cb : PendingCallback) (result : ℤ)
    → results qs ≡ (id, result) ∷ []
    → handle_replies qs ((id, cb) ∷ []) ≡ ((cb, result) ∷ [], [])
unfolding handle_replies find_callback erase_callback
handled_lem [] id cb result e = cc
handled_lem (q ∷ []) id cb result e =
    let same_id : q.d_request_id ≡ id = cc e in
    let value : machine_get_int q.d_payload 0 ≡ result = cc e in
    let hit : (id == q.d_request_id) ≡ true = rw same_id (==_refl id) in
    rw (handle_replies, find_callback, hit, value) (rw (erase_callback, hit) refl)
handled_lem (q ∷ q' ∷ qs) id cb result e = cc

module _ (os : Os) (shared_base shared_size : ℕ) (sv : Server) (st : os.State) where
  -- The end to end path of a request.
  abbrev child : Machine → Message → Served os shared_base shared_size
  child m q = serve_message os shared_base shared_size (receive q sv) st

  -- A request that is made while no other is under way, and that is not a read which the child
  -- keeps, is answered: when the child has taken its message, the handler of the replies calls one
  -- callback, which makes the thread that asked ready, if it still waits, with the result of the
  -- system call, at the end of its queue, and no request stays pending. The arguments and the
  -- results of the system calls are values of their C types, and the buffers have room.
  pub request-answered :
      (junk : List ℕ) (callback : ℕ) (r : Request) (m : Machine) (v : Vm) (t : ℕ) (result : ℤ)
      (st' : os.State)
      → 27 ≤ length junk
      → IsRequest (length junk) r
      → ReturnsInt os
      → m.machine_initialized ≡ true
      → m.machine_pending_callbacks ≡ []
      → perform os shared_base shared_size r st ≡ some (result, st')
      → (v.kernel.thread t).state ≡ waiting
      → let asked = request junk (record { d_callback = callback; d_calldata = t }) r m in
        (q : Message) × (asked.request_channel ≡ m.request_channel ++ (q ∷ []))
        × (let answered = record asked { reply_channel = (child m q).2 } in
            let (calls, after_) = machine_reply_signal_handler answered in
            (after_.machine_pending_callbacks ≡ [])
            × ((k : Kernel) × (deliver calls v ≡ some (with_kernel v k))
                × ((k.thread t).state ≡ ready)
                × ((k.thread t).cd ≡ result)
                × (k.ready_q (v.kernel.thread t).priority
                    ≡ v.kernel.ready_q (v.kernel.thread t).priority ++ (t ∷ []))))
  unfolding machine_reply_signal_handler deliver put_callback
  request-answered junk callback r m v t result st' room ok ints up none_pending performed waits =
      let cb : PendingCallback = record { d_callback = callback; d_calldata = t } in
      let id = add32 m.machine_request_id 1 in
      let asked = request junk cb r m in
      let (q, sent, meets) =
        request-served os shared_base shared_size sv st junk cb r m room ok ints up in
      let replied : results (child m q).2 ≡ (id, result) ∷ [] =
        (subst (λ p. Meets os shared_base shared_size id r sv st p (child m q)) performed
          meets).2 in
      let entered : asked.machine_pending_callbacks ≡ (id, cb) ∷ [] =
        asked_lem junk cb r m up ∙ ap (put_callback id cb) none_pending in
      let handled : handle_replies (child m q).2 asked.machine_pending_callbacks
          ≡ ((cb, result) ∷ [], []) =
        ap (handle_replies (child m q).2) entered
        ∙ handled_lem (child m q).2 id cb result replied in
      let (k, called, is_ready, has_result, queued) = callback_lem v t result waits in
      (
        q,
        sent,
        (
          ap (λ h. h.1) handled,
          (
            k,
            ap (λ h. deliver h.0 v) handled ∙ rw (deliver, called) refl,
            is_ready,
            has_result,
            queued,
          ),
        ),
      )
