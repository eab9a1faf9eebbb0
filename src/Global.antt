-- ===== src/Global.antt =====
-- skynet/skynet-src/skynet_mq.c: the global queue, a list of message queues linked through their
-- `next` fields. A message queue is known by its address. `none` as a result is an assertion that
-- fails.
pub mod Chain
mod Tests
use crynet.Prelude.{ℕ, Bool, Option, none, some, ◌==◌, if◌then◌else◌}

-- `struct global_queue` less its lock, and the `next` field of every message queue.
pub record GlobalQueue : Type 0 where
  pub head : Option ℕ
  pub tail : Option ℕ
  pub next : ℕ → Option ℕ

abbrev pub assign : (ℕ → Option ℕ) → ℕ → Option ℕ → ℕ → Option ℕ
assign next a p b = if a == b then p else next b

-- `skynet_mq_init`
unfoldable pub init : GlobalQueue
init = record { head = none; tail = none; next = λ _. none }

-- `skynet_globalmq_push`
unfoldable pub push : ℕ → GlobalQueue → Option GlobalQueue
push queue q = elim (q.next queue) [
  | some _ ↦ none
  | none ↦ some (elim q.tail [
    | some t ↦ record q { next = assign q.next t (some queue); tail = some queue }
    | none ↦ record q { head = some queue; tail = some queue }
  ])
]

-- `mq == q->tail`
unfoldable pub is_tail : ℕ → Option ℕ → Bool
is_tail mq none = Bool.false
is_tail mq (some t) = mq == t

-- `skynet_globalmq_pop`
unfoldable pub pop : GlobalQueue → Option (Option ℕ × GlobalQueue)
pop q = elim q.head [
  | none ↦ some (none, q)
  | some mq ↦ elim (q.next mq) [
    | some h ↦ some (some mq, record q { head = some h; next = assign q.next mq none })
    | none ↦
        if is_tail mq q.tail
        then some (some mq, record q { head = none; tail = none; next = assign q.next mq none })
        else none
  ]
]
