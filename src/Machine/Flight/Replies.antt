-- ===== src/Machine/Flight/Replies.antt =====
-- `MachineReplySignalHandler` (Machine.cpp) calls the callback of each reply.
-- The calls for replies: of each reply, the callback that waits for it, with the reply's value.
use proj.Base.{Option, none}
use proj.Machine.Flight.Counts.{count-erase_callback, find_callback-none}
use proj.Base.{List, [], arith, refl, some, sym, ℕ, ◌+◌, ◌∙◌, ◌∷◌, ◌≡◌, ◌≤◌}
use proj.Base.Int.{ℤ}
use proj.Machine.Flight.{count, ids, keys, one}
use proj.Machine.Requests.{Message, PendingCallback, erase_callback, find_callback, handle_replies}
use proj.Machine.Wire.{machine_get_int}

abbrev pub AreCalls :
    List Message → List (ℕ × PendingCallback) → List (PendingCallback × ℤ) → Type 0
AreCalls [] cbs [] = Unit
AreCalls [] cbs (c ∷ cs) = ⊥
AreCalls (q ∷ qs) cbs [] = ⊥
AreCalls (q ∷ qs) cbs ((cb, v) ∷ cs) =
    (find_callback q.d_request_id cbs ≡ some cb)
    × (v ≡ machine_get_int q.d_payload 0)
    × AreCalls qs cbs cs

find_callback-erase_callback :
    (id j : ℕ) (cs : List (ℕ × PendingCallback))
    → one j id ≡ 0
    → find_callback j (erase_callback id cs) ≡ find_callback j cs
unfolding find_callback erase_callback
find_callback-erase_callback id j [] h = refl
find_callback-erase_callback id j ((i, c) ∷ cs) h =
    ground (arith, h, find_callback-erase_callback id j cs)

AreCalls-erase_callback :
    (id : ℕ) (qs : List Message) (cbs : List (ℕ × PendingCallback))
    (calls : List (PendingCallback × ℤ))
    → count id (ids qs) ≡ 0
    → AreCalls qs (erase_callback id cbs) calls
    → AreCalls qs cbs calls
AreCalls-erase_callback id [] cbs [] h a = tt
AreCalls-erase_callback id [] cbs (c ∷ cs) h a = elim a [ ]
AreCalls-erase_callback id (q ∷ qs) cbs [] h a = elim a [ ]
AreCalls-erase_callback id (q ∷ qs) cbs ((cb, v) ∷ cs) h (e, ev, a) = (
  sym (find_callback-erase_callback id q.d_request_id cbs (ground (arith, h))) ∙ e,
  ev,
  AreCalls-erase_callback id qs cbs cs (omega (arith, h)) a,
)

-- The replies are of requests that wait, each of another.
abbrev pub Awaited : List Message → List (ℕ × PendingCallback) → Type 0
Awaited qs cbs = (id : ℕ) → (count id (ids qs) ≤ count id (keys cbs)) × (count id (keys cbs) ≤ 1)

-- The callbacks that are left.
abbrev Left : List Message → List (ℕ × PendingCallback) → List (ℕ × PendingCallback) → Type 0
Left qs cbs left = (id : ℕ) → count id (keys left) + count id (ids qs) ≡ count id (keys cbs)

Handled :
    List Message
    → List (ℕ × PendingCallback)
    → List (PendingCallback × ℤ) × List (ℕ × PendingCallback)
    → Type 0
Handled qs cbs done = AreCalls qs cbs done.0 × Left qs cbs done.1

reply_or_skip :
    (q : Message) (qs : List Message) (cbs : List (ℕ × PendingCallback))
    (found : Option PendingCallback)
    → find_callback q.d_request_id cbs ≡ found
    → Awaited (q ∷ qs) cbs
    → ((cs : List (ℕ × PendingCallback)) → Awaited qs cs → Handled qs cs (handle_replies qs cs))
    → Handled (q ∷ qs) cbs (elim found [
      | none ↦ handle_replies qs cbs
      | some cb ↦
          let rest = handle_replies qs (erase_callback q.d_request_id cbs) in
          ((cb, machine_get_int q.d_payload 0) ∷ rest.0, rest.1)
    ])
unfolding Handled
reply_or_skip q qs cbs none e h hyp =
    let id = q.d_request_id in
    let absent = find_callback-none id cbs e in absurd (ground (arith, absent, h id))
reply_or_skip q qs cbs (some cb) e h hyp =
    let id = q.d_request_id in
    let here : one id id ≡ 1 = ground arith in
    let erased = λ (j : ℕ). count-erase_callback id j cbs (omega (arith, here, (h id).0)) in
    let awaited : Awaited qs (erase_callback id cbs) =
      λ j. (omega (arith, (h j).0, erased j), omega (arith, (h j).1, erased j)) in
    let done = hyp (erase_callback id cbs) awaited in
    let absent : count id (ids qs) ≡ 0 = omega (arith, here, (h id).0, (h id).1) in
    (
      (e, refl, AreCalls-erase_callback id qs cbs _ absent done.0),
      λ j. omega (arith, done.1 j, erased j),
    )

handle_replies-Handled :
    (qs : List Message) (cbs : List (ℕ × PendingCallback))
    → Awaited qs cbs
    → Handled qs cbs (handle_replies qs cbs)
unfolding Handled handle_replies
handle_replies-Handled [] cbs h = (tt, λ id. omega arith)
handle_replies-Handled (q ∷ qs) cbs h =
    reply_or_skip q qs cbs (find_callback q.d_request_id cbs) refl h (handle_replies-Handled qs)

pub handle_replies-AreCalls :
    (qs : List Message) (cbs : List (ℕ × PendingCallback))
    → Awaited qs cbs
    → AreCalls qs cbs (handle_replies qs cbs).0
unfolding Handled
handle_replies-AreCalls qs cbs h = (handle_replies-Handled qs cbs h).0

pub handle_replies_left :
    (qs : List Message) (cbs : List (ℕ × PendingCallback)) (id : ℕ)
    → Awaited qs cbs
    → count id (keys (handle_replies qs cbs).1) + count id (ids qs) ≡ count id (keys cbs)
unfolding Handled
handle_replies_left qs cbs id h = (handle_replies-Handled qs cbs h).1 id
