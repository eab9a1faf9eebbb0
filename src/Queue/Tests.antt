-- ===== src/Queue/Tests.antt =====
-- Runs of skynet_mq.c's queue, and its theorems at concrete queues.
use crynet.Prelude.{ℕ, zero, suc, ◌≡◌, refl, [], ◌∷◌, none, some, arith}
use crynet.Queue.{Message, MessageQueue, create, store, put, expand_queue, pop, mq_length}
use crynet.Queue.Valid.{Holds, create-Holds, put-Holds, pop-Holds, pop-Holds_empty}
use crynet.Queue.Overload.{Marked, pop-Marked}
use crynet.Queue.Fifo.{push, take, run, fifo, run-create}

abbrev msg : ℕ → Message
msg n = record { source = n; session = n; payload = 0; sz = 0 }

abbrev fill : ℕ → MessageQueue → MessageQueue
fill zero q = q
fill (suc n) q = fill n (put q (msg n))

-- Seventy messages make the queue grow from 64 cells to 128.
fill_grows : let q = fill 70 (create 9) in (q.cap ≡ 128) × (mq_length q ≡ 70)
unfolding create put store expand_queue mq_length
fill_grows = (refl, refl)

create-Holds_example : Holds (create 9) []
create-Holds_example = create-Holds 9

put-Holds_example : Holds (put (create 9) (msg 5)) (msg 5 ∷ [])
put-Holds_example = put-Holds (msg 5) (create-Holds 9)

abbrev two : MessageQueue
two = put (put (create 9) (msg 5)) (msg 6)

two-Holds : Holds two (msg 5 ∷ msg 6 ∷ [])
two-Holds = put-Holds (msg 6) put-Holds_example

pop-Holds_example :
    ((pop two).0 ≡ 0)
    × ((pop two).1 ≡ some (msg 5))
    × ((pop two).2.in_global ≡ two.in_global)
    × Holds (pop two).2 (msg 6 ∷ [])
pop-Holds_example = pop-Holds two-Holds

pop-Holds_empty_example :
    let q = create 9 in
    ((pop q).0 ≡ 1) × ((pop q).1 ≡ none) × ((pop q).2.in_global ≡ 0) × Holds (pop q).2 []
pop-Holds_empty_example = pop-Holds_empty (create-Holds 9)

pop-Marked_example : let r = (pop two).2 in Marked 1 0 1024 r.overload r.overload_threshold
unfolding create put store
pop-Marked_example = pop-Marked two-Holds (omega arith)

run-create_example :
    run (create 9) (push (msg 5) ∷ take ∷ take ∷ []) ≡ fifo [] (push (msg 5) ∷ take ∷ take ∷ [])
run-create_example = run-create 9 (push (msg 5) ∷ take ∷ take ∷ [])
