-- ===== src/Machine/Flight/Counts.antt =====
-- The counts of ids under the operations on lists, on the map of callbacks and on the child's reads.
use proj.Base.{Bool, Option, false, if◌then◌else◌, true}
use proj.Base.Int.{◌==ℤ◌}
use proj.Base.{List, [], ap, arith, none, refl, some, ℕ, ◌++◌, ◌+◌, ◌∙◌, ◌∷◌, ◌∷◌, ◌≡◌, ◌≤◌}
use proj.Base.Int.{ℤ}
use proj.Machine.Flight.{count, ids, keys, one, read_ids}
use proj.Machine.Requests.{Message, PendingCallback, erase_callback, find_callback, put_callback}
use proj.Machine.Server.{PendingRead, take_read}

pub count-append : (id : ℕ) (xs ys : List ℕ) → count id (xs ++ ys) ≡ count id xs + count id ys
count-append id [] ys = omega arith
count-append id (x ∷ xs) ys = omega (arith, count-append id xs ys)

ids-append : (qs rs : List Message) → ids (qs ++ rs) ≡ ids qs ++ ids rs
ids-append [] rs = refl
ids-append (q ∷ qs) rs = ap (◌∷◌ q.d_request_id) (ids-append qs rs)

read_ids-append : (qs rs : List PendingRead) → read_ids (qs ++ rs) ≡ read_ids qs ++ read_ids rs
read_ids-append [] rs = refl
read_ids-append (q ∷ qs) rs = ap (◌∷◌ q.d_request_id) (read_ids-append qs rs)

pub count-ids-append :
    (id : ℕ) (qs rs : List Message)
    → count id (ids (qs ++ rs)) ≡ count id (ids qs) + count id (ids rs)
count-ids-append id qs rs = ap (count id) (ids-append qs rs) ∙ count-append id (ids qs) (ids rs)

pub count-read_ids-append :
    (id : ℕ) (rs ss : List PendingRead)
    → count id (read_ids (rs ++ ss)) ≡ count id (read_ids rs) + count id (read_ids ss)
count-read_ids-append id rs ss =
    ap (count id) (read_ids-append rs ss) ∙ count-append id (read_ids rs) (read_ids ss)

pub count-put_callback :
    (id j : ℕ) (cb : PendingCallback) (cs : List (ℕ × PendingCallback))
    → count id (keys cs) ≡ 0
    → count j (keys (put_callback id cb cs)) ≡ count j (keys cs) + one j id
unfolding put_callback
count-put_callback id j cb [] h = omega arith
count-put_callback id j cb ((i, c) ∷ cs) h = ground (arith, h, count-put_callback id j cb cs)

pub find_callback-none :
    (id : ℕ) (cs : List (ℕ × PendingCallback)) → find_callback id cs ≡ none → count id (keys cs) ≡ 0
unfolding find_callback
find_callback-none id [] h = refl
find_callback-none id ((i, c) ∷ cs) h = ground (arith, h, find_callback-none id cs)

pub count-erase_callback :
    (id j : ℕ) (cs : List (ℕ × PendingCallback))
    → 1 ≤ count id (keys cs)
    → count j (keys (erase_callback id cs)) + one j id ≡ count j (keys cs)
unfolding erase_callback
count-erase_callback id j [] h = absurd (omega (arith, h))
count-erase_callback id j ((i, c) ∷ cs) h = ground (arith, h, count-erase_callback id j cs)

-- A read that is taken was there once more.
abbrev pub Taken : (id : ℕ) → List PendingRead → Option (PendingRead × List PendingRead) → Type 0
Taken id rs none = Unit
Taken id rs (some (r, rest)) =
    count id (read_ids rs) ≡ one id r.d_request_id + count id (read_ids rest)

found_or_later :
    (id : ℕ) (q : PendingRead) (qs : List PendingRead) (here : Bool)
    (later : Option (PendingRead × List PendingRead))
    → Taken id qs later
    → Taken id (q ∷ qs) (
        if here then some (q, qs) else elim later [ none ↦ none | some (s, ss) ↦ some (s, q ∷ ss) ])
found_or_later id q qs true later h = refl
found_or_later id q qs false none h = tt
found_or_later id q qs false (some (r, rest)) h = omega (arith, h)

pub take_read-Taken : (id : ℕ) (fd : ℤ) (rs : List PendingRead) → Taken id rs (take_read fd rs)
unfolding take_read
take_read-Taken id fd [] = tt
take_read-Taken id fd (q ∷ qs) =
    found_or_later id q qs (q.d_file_descriptor ==ℤ fd) (take_read fd qs) (take_read-Taken id fd qs)
