-- ===== src/World.antt =====
-- skynet/skynet-src/skynet_mq.c: the functions on a message queue that also use the global queue.
-- Message queues stand in a store, by their addresses. Each function runs under the queue's lock,
-- so it is one step. `none` as a result is an assertion that fails.
pub mod Drop
mod Tests
use crynet.Prelude.{
  ℕ, zero, suc, ◌+◌, Bool, true, false, List, [], ◌∷◌, Option, none, some, ◌==◌, if◌then◌else◌,
  update, ◌>>=◌,
}
use crynet.Queue.{Message, MessageQueue, create, mq_length, mq_in_global, put, pop}
use crynet.Global
use crynet.Global.{GlobalQueue, assign}

pub record World : Type 0 where
  pub queue : ℕ → MessageQueue
  pub live : ℕ → Bool
  pub global : GlobalQueue

-- `skynet_mq_create` at the address `a` that `malloc` gives.
unfoldable pub mq_create : ℕ → ℕ → World → World
mq_create a handle w = record w {
  queue = update w.queue a (create handle);
  live = update w.live a true;
  global = record {
    head = w.global.head;
    tail = w.global.tail;
    next = assign w.global.next a none;
  };
}

abbrev pub with_queue : ℕ → MessageQueue → World → World
with_queue a q w = record w { queue = update w.queue a q }

-- `skynet_globalmq_push` and `skynet_globalmq_pop` in the store.
unfoldable pub globalmq_push : ℕ → World → Option World
globalmq_push a w = Global.push a w.global >>= λ g. some (record w { global = g })

unfoldable pub globalmq_pop : World → Option (Option ℕ × World)
globalmq_pop w = Global.pop w.global >>= λ (a, g). some (a, record w { global = g })

-- `skynet_mq_push`
unfoldable pub mq_push : ℕ → Message → World → Option World
unfolding globalmq_push
mq_push a m w =
    let q = put (w.queue a) m in
    if q.in_global == 0
    then globalmq_push a (with_queue a (record q { in_global = mq_in_global }) w)
    else some (with_queue a q w)

-- `skynet_mq_pop`
unfoldable pub mq_pop : ℕ → World → ℕ × Option Message × World
mq_pop a w = let (ret, out, q) = pop (w.queue a) in (ret, out, with_queue a q w)

-- `skynet_mq_mark_release`
unfoldable pub mark_release : ℕ → World → Option World
unfolding globalmq_push
mark_release a w =
    let q = w.queue a in
    let marked = with_queue a (record q { release = 1 }) w in
    if q.release == 0
    then (if q.in_global == mq_in_global then some marked else globalmq_push a marked)
    else none

-- The loop of `_drop_queue`, on fuel: the messages given to `drop_func`, and the emptied queue.
unfoldable pub drop_all : ℕ → MessageQueue → List (Option Message) × MessageQueue
drop_all zero q = ([], q)
drop_all (suc fuel) q =
    let (ret, out, q') = pop q in
    elim ret [ zero ↦ let (rest, q'') = drop_all fuel q' in (out ∷ rest, q'') | suc _ ↦ ([], q') ]

-- `_drop_queue`, and `_release`, which asserts that the queue is not linked. One round more than
-- there are messages is enough.
unfoldable pub drop_queue : ℕ → World → Option (List (Option Message) × World)
unfolding drop_all
drop_queue a w =
    let (dropped, q) = drop_all (mq_length (w.queue a) + 1) (w.queue a) in
    elim (w.global.next a) [
      | none ↦ some (dropped, record w { queue = update w.queue a q; live = update w.live a false })
      | some _ ↦ none
    ]

-- `skynet_mq_release`
unfoldable pub mq_release : ℕ → World → Option (List (Option Message) × World)
unfolding drop_queue globalmq_push
mq_release a w =
    if (w.queue a).release == 0 then (globalmq_push a w >>= λ w'. some ([], w')) else drop_queue a w
