-- ===== src/Queue/Fifo.antt =====
-- No sequence of pushes and pops tells a message queue from a list of messages.
use crynet.Prelude.{ℕ, ◌≡◌, refl, List, [], ◌∷◌, ◌++◌, Option, none, some}
use crynet.Queue.{Message, MessageQueue, create, put, pop}
use crynet.Queue.Valid.{Holds, create-Holds, put-Holds, pop-Holds, pop-Holds_empty}

-- The calls that a queue's clients make.
pub data Op : Type 0 where
  push : Message → Op
  take : Op

-- What each `take` of a client's calls returns.
pub run : MessageQueue → List Op → List (ℕ × Option Message)
run q [] = []
run q (push m ∷ ops) = run (put q m) ops
run q (take ∷ ops) = let (ret, out, q') = pop q in (ret, out) ∷ run q' ops

-- The same calls on a list of messages, oldest first.
pub fifo : List Message → List Op → List (ℕ × Option Message)
fifo ms [] = []
fifo ms (push m ∷ ops) = fifo (ms ++ m ∷ []) ops
fifo [] (take ∷ ops) = (1, none) ∷ fifo [] ops
fifo (m ∷ ms) (take ∷ ops) = (0, some m) ∷ fifo ms ops

run-eq-fifo :
    (ops : List Op) {q : MessageQueue} {ms : List Message} → Holds q ms → run q ops ≡ fifo ms ops
unfolding run fifo
run-eq-fifo [] h = refl
run-eq-fifo (push m ∷ ops) h = run-eq-fifo ops (put-Holds m h)
run-eq-fifo (take ∷ ops) {q} {ms = []} h =
    let (r, o, _, h') = pop-Holds_empty h in rw (r, o, run-eq-fifo ops h')
run-eq-fifo (take ∷ ops) {q} {ms = m ∷ ms} h =
    let (r, o, _, h') = pop-Holds h in rw (r, o, run-eq-fifo ops h')

-- Whatever is pushed and popped, a new queue answers as an unbounded first-in first-out list.
pub run-create : (handle : ℕ) (ops : List Op) → run (create handle) ops ≡ fifo [] ops
run-create handle ops = run-eq-fifo ops (create-Holds handle)
