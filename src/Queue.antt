-- ===== src/Queue.antt =====
-- skynet/skynet-src/skynet_mq.c: one message queue, a ring that grows, without its place in the
-- global queue. `malloc` leaves cells with no value, which are `none` here.
pub mod Valid
pub mod Overload
pub mod Fifo
pub mod Flags
mod Tests
use crynet.Prelude.{
  ℕ, zero, suc, ◌+◌, ◌-◌, ◌*◌, ◌%◌, true, false, List, [], ◌∷◌, Option, none, some, ltb, leb, ◌==◌,
  if◌then◌else◌, get_or, set, replicate,
}

-- `struct skynet_message`. The fields are moved, never computed with, by the queue.
pub record Message : Type 0 where
  pub source : ℕ
  pub session : ℕ
  pub payload : ℕ
  pub sz : ℕ

-- `struct message_queue` less its lock and its link to the next queue.
pub record MessageQueue : Type 0 where
  pub handle : ℕ
  pub cap : ℕ
  pub head : ℕ
  pub tail : ℕ
  pub release : ℕ
  pub in_global : ℕ
  pub overload : ℕ
  pub overload_threshold : ℕ
  pub queue : List (Option Message)

abbrev pub default_queue_size : ℕ
default_queue_size = 64

abbrev pub mq_in_global : ℕ
mq_in_global = 1

abbrev pub mq_overload : ℕ
mq_overload = 1024

-- `skynet_mq_create`
unfoldable pub create : ℕ → MessageQueue
create handle = record {
  handle = handle;
  cap = default_queue_size;
  head = 0;
  tail = 0;
  release = 0;
  in_global = mq_in_global;
  overload = 0;
  overload_threshold = mq_overload;
  queue = replicate default_queue_size none;
}

-- `skynet_mq_length`; also the length that `skynet_mq_pop` computes, where a negative `tail - head`
-- gets `cap` added.
unfoldable pub length_of : ℕ → ℕ → ℕ → ℕ
length_of head tail cap = if leb head tail then tail - head else tail + cap - head

unfoldable pub mq_length : MessageQueue → ℕ
unfolding length_of
mq_length q = length_of q.head q.tail q.cap

-- `skynet_mq_overload`: reads the mark and resets it.
pub take_overload : MessageQueue → ℕ × MessageQueue
take_overload q = if q.overload == 0 then (0, q) else (q.overload, record q { overload = 0 })

-- `while (length > q->overload_threshold)` on fuel. The threshold is positive and doubles, so
-- `length` rounds are enough.
unfoldable pub raise : ℕ → ℕ → MessageQueue → MessageQueue
raise zero length q = q
raise (suc fuel) length q = elim (ltb q.overload_threshold length) [
  | true ↦
      raise fuel length
        (record q { overload = length; overload_threshold = q.overload_threshold * 2 })
  | false ↦ q
]

-- `q->head++` and the wrap to 0 at the capacity.
abbrev pub next_index : ℕ → ℕ → ℕ
next_index i cap = if leb cap (i + 1) then 0 else i + 1

-- `skynet_mq_pop`: the return value, what goes through `message`, and the new queue.
unfoldable pub pop : MessageQueue → ℕ × Option Message × MessageQueue
pop q =
    if q.head == q.tail
    then (1, none, record q { overload_threshold = mq_overload; in_global = 0 })
    else (let head = next_index q.head q.cap in
        let length = length_of head q.tail q.cap in
        (0, get_or q.queue q.head none, raise length length (record q { head = head })))

-- The loop of `expand_queue`, by the rounds left: `new_queue[i] = queue[(head + i) % cap]`.
unfoldable pub copy_ring :
    {A : Type 0} → ℕ → ℕ → List (Option A) → ℕ → ℕ → List (Option A) → List (Option A)
copy_ring zero i old head cap new = new
copy_ring (suc n) i old head cap new =
    copy_ring n (i + 1) old head cap (set new i (get_or old ((head + i) % cap) none))

-- `expand_queue`
unfoldable pub expand_queue : MessageQueue → MessageQueue
unfolding copy_ring
expand_queue q = record q {
  head = 0;
  tail = q.cap;
  cap = q.cap * 2;
  queue = copy_ring q.cap 0 q.queue q.head q.cap (replicate (q.cap * 2) none);
}

-- `q->queue[q->tail] = *message`, and the step of the tail.
unfoldable pub store : MessageQueue → Message → MessageQueue
store q m = record q { queue = set q.queue q.tail (some m); tail = next_index q.tail q.cap }

-- `skynet_mq_push` up to its use of the global queue.
unfoldable pub put : MessageQueue → Message → MessageQueue
put q m = let q' = store q m in if q'.head == q'.tail then expand_queue q' else q'
