-- ===== src/Harbor/Ring.antt =====
-- A queue of the harbor is an unbounded first-in first-out list of messages.
use crynet.Prelude.{
  ℕ, suc, ◌+◌, ◌-◌, ◌*◌, ◌%◌, ◌<◌, ◌≡◌, ◌≢◌, refl, ◌∙◌, List, [], ◌∷◌, ◌++◌, Option, none, some,
  arith, length, get_elem?, get_or, set, replicate, length-set, length-replicate, get_or-set_self,
  get_or-set_ne, get_elem?-append_left, get_elem?-append_last, length-append, ==-eq, ==-ne,
}
use native.Mathlib.Decide.{dec_lt}
use crynet.Queue.Valid.{wrap, mod-eq-wrap, copy_ring-get_or, length-copy_ring}
use crynet.Harbor.{HarborMsg, HarborMsgQueue, new_queue, expand, push_queue_msg, pop_queue}

-- The queue holds exactly the messages `ms`, oldest first, and one cell stays free.
pub record Holds (q : HarborMsgQueue) (ms : List HarborMsg) : Type 0 where
  pub size : length q.cells ≡ q.size
  pub head_in : q.head < q.size
  pub room : length ms < q.size
  pub tail_at : q.tail ≡ wrap q.size (q.head + length ms)
  pub cells :
      (i : ℕ) → i < length ms → get_or q.cells (wrap q.size (q.head + i)) none ≡ get_elem? ms i

pub new_queue-Holds : Holds new_queue []
unfolding new_queue
new_queue-Holds = record {
  size = length-replicate {A = Option HarborMsg} 1024 none;
  head_in = omega arith;
  room = omega arith;
  tail_at = refl;
  cells = λ i lt. absurd (omega arith);
}

expand-Holds :
    {q : HarborMsgQueue} {ms : List HarborMsg}
    → Holds q ms
    → length ms + 1 ≡ q.size
    → Holds (expand q) ms
unfolding expand
expand-Holds {q} {ms} h full =
    let blank = replicate (q.size * 2) none in
    let wide = length-replicate {A = Option HarborMsg} (q.size * 2) none in
    record {
      size = length-copy_ring (q.size - 1) 0 q.cells q.head q.size blank ∙ wide;
      head_in = omega (arith, h.head_in);
      room = omega (arith, h.head_in);
      tail_at = ground (arith, h.head_in);
      cells = λ i lt. ground (
        arith,
        h.cells i lt,
        h.head_in,
        wide,
        mod-eq-wrap q.size (q.head + i),
        copy_ring-get_or (q.size - 1) 0 q.cells q.head q.size blank i,
      );
    }

-- `%` steps an index as the ring does.
next-wrap : (size i : ℕ) → i < size → (i + 1) % size ≡ wrap size (i + 1)
next-wrap size i h = mod-eq-wrap size (i + 1) (omega arith)

abbrev stored : HarborMsgQueue → HarborMsg → HarborMsgQueue
stored q m = record q { cells = set q.cells q.tail (some m); tail = (q.tail + 1) % q.size }

stored-Holds :
    {q : HarborMsgQueue} {ms : List HarborMsg} (m : HarborMsg)
    → Holds q ms
    → length ms + 1 < q.size
    → Holds (stored q m) (ms ++ m ∷ [])
stored-Holds {q} {ms} m h lt =
    let one = length-append ms (m ∷ []) in
    let step = next-wrap q.size q.tail (ground (arith, h.tail_at, h.head_in, h.room)) in
    record {
      size = omega (arith, h.size, length-set q.cells q.tail (some m));
      head_in = h.head_in;
      room = omega (arith, one);
      tail_at = step ∙ ground (arith, h.tail_at, h.head_in, h.room, one);
      cells = λ i lt'. ground (
        arith,
        h.cells i,
        h.size,
        h.head_in,
        h.room,
        h.tail_at,
        one,
        get_or-set_self q.cells q.tail (some m) none,
        get_or-set_ne q.cells q.tail (wrap q.size (q.head + i)) (some m) none,
        get_elem?-append_left ms (m ∷ []) i,
        get_elem?-append_last ms m i,
      );
    }

-- Pushing appends the message, with room or without.
pub push_queue_msg-Holds :
    {q : HarborMsgQueue} {ms : List HarborMsg} (m : HarborMsg)
    → Holds q ms
    → Holds (push_queue_msg q m) (ms ++ m ∷ [])
unfolding push_queue_msg expand
push_queue_msg-Holds {q} {ms} m h =
    let step = next-wrap q.size q.tail (ground (arith, h.tail_at, h.head_in, h.room)) in
    elim (dec_lt (length ms + 1) q.size) [
      | yes p ↦
          let apart : (q.tail + 1) % q.size ≢ q.head =
            ground (arith, step, h.tail_at, h.head_in, h.room) in
          rw (==-ne ((q.tail + 1) % q.size) q.head apart) (stored-Holds m h p)
      | no p ↦
          let full : length ms + 1 ≡ q.size = omega (arith, h.room) in
          let met : (q.tail + 1) % q.size ≡ q.head =
            ground (arith, step, h.tail_at, h.head_in, h.room) in
          rw (==-eq ((q.tail + 1) % q.size) q.head met)
            (stored-Holds m (expand-Holds h full) (omega (arith, h.head_in)))
    ]

pub pop_queue-Holds_empty : {q : HarborMsgQueue} → Holds q [] → pop_queue q ≡ (none, q)
unfolding pop_queue
pop_queue-Holds_empty {q} h =
    let e : q.head ≡ q.tail = ground (arith, h.tail_at, h.head_in) in
    rw (pop_queue, ==-eq q.head q.tail e) refl

-- Popping takes the oldest message, and leaves the others.
pub pop_queue-Holds :
    {q : HarborMsgQueue} {m : HarborMsg} {ms : List HarborMsg}
    → Holds q (m ∷ ms)
    → ((pop_queue q).0 ≡ some m) × Holds (pop_queue q).1 ms
unfolding pop_queue
pop_queue-Holds {q} {m} {ms} h =
    let e : q.head ≢ q.tail = ground (arith, h.tail_at, h.room, h.head_in) in
    let step = next-wrap q.size q.head h.head_in in
    rw (==-ne q.head q.tail e) (
      ground (arith, h.cells 0 (omega arith), h.head_in),
      record {
        size = h.size;
        head_in = ground (arith, step, h.head_in);
        room = omega (arith, h.room);
        tail_at = ground (arith, step, h.tail_at, h.room, h.head_in);
        cells = λ i lt.
            let c = h.cells (suc i) (omega arith) in
            let at : wrap q.size ((q.head + 1) % q.size + i) ≡ wrap q.size (q.head + suc i) =
              ground (arith, step, h.room, h.head_in) in
            rw at c;
      },
    )

pub data Op : Type 0 where
  push : HarborMsg → Op
  take : Op

-- What each `take` of a client's calls returns.
pub run : HarborMsgQueue → List Op → List (Option HarborMsg)
run q [] = []
run q (push m ∷ ops) = run (push_queue_msg q m) ops
run q (take ∷ ops) = let (out, q') = pop_queue q in out ∷ run q' ops

-- The same calls on a list of messages, oldest first.
pub fifo : List HarborMsg → List Op → List (Option HarborMsg)
fifo ms [] = []
fifo ms (push m ∷ ops) = fifo (ms ++ m ∷ []) ops
fifo [] (take ∷ ops) = none ∷ fifo [] ops
fifo (m ∷ ms) (take ∷ ops) = some m ∷ fifo ms ops

run-Holds :
    (ops : List Op) {q : HarborMsgQueue} {ms : List HarborMsg}
    → Holds q ms
    → run q ops ≡ fifo ms ops
unfolding run fifo
run-Holds [] h = refl
run-Holds (push m ∷ ops) h = run-Holds ops (push_queue_msg-Holds m h)
run-Holds (take ∷ ops) {q} {ms = []} h = rw (pop_queue-Holds_empty h, run-Holds ops h) refl
run-Holds (take ∷ ops) {q} {ms = m ∷ ms} h =
    let (out, h') = pop_queue-Holds h in rw (out, run-Holds ops h') refl

-- Whatever is pushed and popped, a new queue of the harbor answers as an unbounded first-in first-out
-- list of messages does.
pub run-new_queue : (ops : List Op) → run new_queue ops ≡ fifo [] ops
run-new_queue ops = run-Holds ops new_queue-Holds
