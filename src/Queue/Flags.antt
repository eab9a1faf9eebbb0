-- ===== src/Queue/Flags.antt =====
-- The flags by which a queue's place is known: `in_global` and `release`.
use crynet.Prelude.{ℕ, zero, suc, ◌≡◌, refl, Bool-cases, inl, inr, ltb, ◌==◌, arith}
use crynet.Queue.{
  Message, MessageQueue, create, put, store, expand_queue, pop, raise, next_index, length_of,
}
use crynet.Queue.Valid.{raised}

-- A new queue has its flag set, though it stands in no queue: the thread that makes it holds it.
pub create_flags : (handle : ℕ) → ((create handle).in_global ≡ 1) × ((create handle).release ≡ 0)
unfolding create
create_flags handle = (refl, refl)

-- A push leaves both flags.
pub put_flags :
    (q : MessageQueue) (m : Message)
    → ((put q m).in_global ≡ q.in_global) × ((put q m).release ≡ q.release)
unfolding put store expand_queue
put_flags q m = ground arith

release-raise : (fuel n : ℕ) (q : MessageQueue) → (raise fuel n q).release ≡ q.release
unfolding raise
release-raise zero n q = refl
release-raise (suc fuel) n q = elim (Bool-cases (ltb q.overload_threshold n)) [
  | inl e ↦ rw (e, raise) (release-raise fuel n (raised n q))
  | inr e ↦ rw (e, raise)
]

-- A pop leaves `release`.
pub pop_release : (q : MessageQueue) → (pop q).2.release ≡ q.release
unfolding pop
pop_release q =
    let head = next_index q.head q.cap in
    let n = length_of head q.tail q.cap in
    elim (Bool-cases (q.head == q.tail)) [
      | inl e ↦ rw e
      | inr e ↦ rw e (release-raise n n (record q { head = head }))
    ]
