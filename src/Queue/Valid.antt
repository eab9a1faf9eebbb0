-- ===== src/Queue/Valid.antt =====
-- What a message queue holds, and that `put` and `pop` are those of a FIFO without a bound.
use crynet.Prelude.{
  ℕ, zero, suc, ◌+◌, ◌-◌, ◌*◌, ◌%◌, ◌≤◌, ◌<◌, ◌≡◌, refl, List, [], ◌∷◌, ◌++◌, Option, none, some,
  arith, ltb, if◌then◌else◌, length, get_elem?, get_or, set, replicate, length-set,
  length-replicate, get_or-set_self, get_or-set_ne, get_elem?-append_left, get_elem?-append_last,
  length-append, Bool-cases, inl, inr, ==-eq, ==-ne, ◌∙◌, ◌≢◌,
}
use native.Mathlib.Nat.{mod-eq_of_lt, mod-eq-sub-mod}
use native.Mathlib.Decide.{dec_lt}
use crynet.Queue.{
  Message, MessageQueue, create, length_of, mq_length, pop, store, put, copy_ring, expand_queue,
  raise, next_index,
}

-- The index `x` of a ring, for `x` below twice the capacity.
abbrev pub wrap : ℕ → ℕ → ℕ
wrap cap x = if ltb x cap then x else x - cap

-- The queue holds exactly the messages `ms`, oldest first.
pub record Holds (q : MessageQueue) (ms : List Message) : Type 0 where
  pub size : length q.queue ≡ q.cap
  pub head_in : q.head < q.cap
  pub room : length ms < q.cap
  pub tail_at : q.tail ≡ wrap q.cap (q.head + length ms)
  pub cells :
      (i : ℕ) → i < length ms → get_or q.queue (wrap q.cap (q.head + i)) none ≡ get_elem? ms i

pub mod-eq-wrap : (cap x : ℕ) → x < cap + cap → x % cap ≡ wrap cap x
mod-eq-wrap cap x h = elim (dec_lt x cap) [
  | yes p ↦ ground (arith, mod-eq_of_lt p)
  | no p ↦ ground (
    arith,
    mod-eq-sub-mod {n = x} {m = cap} (omega arith),
    mod-eq_of_lt {n = x - cap} {m = cap} (omega arith),
  )
]

-- The loop writes the cells `i, …, i + n - 1` and leaves the others.
pub copy_ring-get_or :
    {A : Type 0} (n i : ℕ) (old : List (Option A)) (head cap : ℕ) (new : List (Option A)) (j : ℕ)
    → i + n ≤ length new
    → get_or (copy_ring n i old head cap new) j none ≡ (
        if ltb j i
        then get_or new j none
        else if ltb j (i + n)
        then get_or old ((head + j) % cap) none
        else get_or new j none)
unfolding copy_ring
copy_ring-get_or zero i old head cap new j h = ground arith
copy_ring-get_or (suc n) i old head cap new j h =
    let v = get_or old ((head + i) % cap) none in
    ground (
      arith,
      copy_ring-get_or n (i + 1) old head cap (set new i v) j,
      length-set new i v,
      get_or-set_self new i v none,
      get_or-set_ne new i j v none,
    )

pub length-copy_ring :
    {A : Type 0} (n i : ℕ) (old : List (Option A)) (head cap : ℕ) (new : List (Option A))
    → length (copy_ring n i old head cap new) ≡ length new
unfolding copy_ring
length-copy_ring zero i old head cap new = refl
length-copy_ring (suc n) i old head cap new =
    let v = get_or old ((head + i) % cap) none in
    omega (arith, length-copy_ring n (i + 1) old head cap (set new i v), length-set new i v)

-- A ring with no cell left, its head and tail met: the state in which it is grown.
record IsFull (q : MessageQueue) (ms : List Message) : Type 0 where
  size : length q.queue ≡ q.cap
  head_in : q.head < q.cap
  filled : length ms ≡ q.cap
  met : q.head ≡ q.tail
  cells : (i : ℕ) → i < length ms → get_or q.queue (wrap q.cap (q.head + i)) none ≡ get_elem? ms i

expand_queue-Holds :
    {q : MessageQueue} {ms : List Message} → IsFull q ms → Holds (expand_queue q) ms
unfolding expand_queue
expand_queue-Holds {q} {ms} f =
    let blank = replicate (q.cap * 2) none in
    let wide = length-replicate {A = Option Message} (q.cap * 2) none in
    record {
      size = length-copy_ring q.cap 0 q.queue q.head q.cap blank ∙ wide;
      head_in = omega (arith, f.head_in);
      room = omega (arith, f.filled, f.head_in);
      tail_at = ground (arith, f.filled, f.head_in);
      cells = λ i lt. ground (
        arith,
        f.cells i lt,
        f.filled,
        f.head_in,
        wide,
        mod-eq-wrap q.cap (q.head + i),
        copy_ring-get_or q.cap 0 q.queue q.head q.cap blank i,
      );
    }

abbrev pub raised : ℕ → MessageQueue → MessageQueue
raised n q = record q { overload = n; overload_threshold = q.overload_threshold * 2 }

module _ {q : MessageQueue} {ms : List Message} (m : Message) (h : Holds q ms) where
  stored-cells :
      (i : ℕ)
      → i < length ms + 1
      → get_or (set q.queue q.tail (some m)) (wrap q.cap (q.head + i)) none
        ≡ get_elem? (ms ++ m ∷ []) i
  stored-cells i lt = ground (
    arith,
    h.cells i,
    get_or-set_self q.queue q.tail (some m) none,
    get_or-set_ne q.queue q.tail (wrap q.cap (q.head + i)) (some m) none,
    get_elem?-append_left ms (m ∷ []) i,
    get_elem?-append_last ms m i,
  )

  store-Holds : length ms + 1 < q.cap → Holds (store q m) (ms ++ m ∷ [])
  unfolding store
  store-Holds lt = record {
    size = omega (arith, h.size, length-set q.queue q.tail (some m));
    head_in = h.head_in;
    room = omega (arith, length-append ms (m ∷ []));
    tail_at = ground (arith, h.tail_at, length-append ms (m ∷ []));
    cells = λ i lt'. stored-cells i (omega (arith, length-append ms (m ∷ [])));
  }

  store-IsFull : length ms + 1 ≡ q.cap → IsFull (store q m) (ms ++ m ∷ [])
  unfolding store
  store-IsFull e = record {
    size = omega (arith, h.size, length-set q.queue q.tail (some m));
    head_in = h.head_in;
    filled = omega (arith, length-append ms (m ∷ []));
    met = ground (arith, h.tail_at, h.head_in);
    cells = λ i lt'. stored-cells i (omega (arith, length-append ms (m ∷ [])));
  }

  store-apart : length ms + 1 < q.cap → (store q m).head ≢ (store q m).tail
  unfolding store
  store-apart lt = ground (arith, h.tail_at, h.head_in)

  -- Pushing appends the message, with room or without.
  pub put-Holds : Holds (put q m) (ms ++ m ∷ [])
  unfolding put
  put-Holds = elim (dec_lt (length ms + 1) q.cap) [
    | yes p ↦ rw (==-ne (store q m).head (store q m).tail (store-apart p)) (store-Holds p)
    | no p ↦
        let e : length ms + 1 ≡ q.cap = omega (arith, h.room) in
        let f = store-IsFull e in
        rw (==-eq (store q m).head (store q m).tail f.met) (expand_queue-Holds f)
  ]

-- A queue that holds nothing reports so, and leaves the global queue.
pub pop-Holds_empty :
    {q : MessageQueue}
    → Holds q []
    → ((pop q).0 ≡ 1) × ((pop q).1 ≡ none) × ((pop q).2.in_global ≡ 0) × Holds (pop q).2 []
unfolding pop
pop-Holds_empty {q} h =
    let e : q.head ≡ q.tail = ground (arith, h.tail_at, h.head_in) in
    rw (==-eq q.head q.tail e) (
      refl,
      refl,
      refl,
      record {
        size = h.size;
        head_in = h.head_in;
        room = h.room;
        tail_at = h.tail_at;
        cells = h.cells;
      },
    )

raise_same :
    (fuel n : ℕ) (q : MessageQueue)
    → ((raise fuel n q).queue ≡ q.queue)
      × ((raise fuel n q).cap ≡ q.cap)
      × ((raise fuel n q).head ≡ q.head)
      × ((raise fuel n q).tail ≡ q.tail)
      × ((raise fuel n q).in_global ≡ q.in_global)
unfolding raise
raise_same zero n q = (refl, refl, refl, refl, refl)
raise_same (suc fuel) n q = elim (Bool-cases (ltb q.overload_threshold n)) [
  | inl e ↦ rw (e, raise) (raise_same fuel n (raised n q))
  | inr e ↦ rw (e, raise) (refl, refl, refl, refl, refl)
]

Holds-of_same :
    (q r : MessageQueue) {ms : List Message}
    → (r.queue ≡ q.queue)
      × (r.cap ≡ q.cap)
      × (r.head ≡ q.head)
      × (r.tail ≡ q.tail)
      × (r.in_global ≡ q.in_global)
    → Holds q ms
    → Holds r ms
Holds-of_same q r (e0, e1, e2, e3, _) h = record {
  size = rw (e0, e1) h.size;
  head_in = rw (e1, e2) h.head_in;
  room = rw e1 h.room;
  tail_at = rw (e1, e2, e3) h.tail_at;
  cells = λ i lt. rw (e0, e1, e2) (h.cells i lt);
}

step-Holds :
    {q : MessageQueue} {m : Message} {ms : List Message}
    → Holds q (m ∷ ms)
    → Holds (record q { head = next_index q.head q.cap }) ms
step-Holds {q} h = record {
  size = h.size;
  head_in = ground (arith, h.head_in);
  room = omega (arith, h.room);
  tail_at = ground (arith, h.tail_at, h.room, h.head_in);
  cells = λ i lt.
      let c = h.cells (suc i) (omega arith) in
      let e : wrap q.cap (next_index q.head q.cap + i) ≡ wrap q.cap (q.head + suc i) =
        ground (arith, h.room, h.head_in) in
      rw e c;
}

pub length_of-step :
    {q : MessageQueue} {m : Message} {ms : List Message}
    → Holds q (m ∷ ms)
    → length_of (next_index q.head q.cap) q.tail q.cap ≡ length ms
unfolding length_of
length_of-step h = ground (arith, h.tail_at, h.room, h.head_in)

-- Popping takes the oldest message, and leaves the others.
pub pop-Holds :
    {q : MessageQueue} {m : Message} {ms : List Message}
    → Holds q (m ∷ ms)
    → ((pop q).0 ≡ 0)
      × ((pop q).1 ≡ some m)
      × ((pop q).2.in_global ≡ q.in_global)
      × Holds (pop q).2 ms
unfolding pop
pop-Holds {q} {m} {ms} h =
    let e : q.head ≢ q.tail = ground (arith, h.tail_at, h.room, h.head_in) in
    let head = next_index q.head q.cap in
    let n = length_of head q.tail q.cap in
    let same = raise_same n n (record q { head = head }) in
    let first : get_or q.queue q.head none ≡ some m =
      ground (arith, h.cells 0 (omega arith), h.head_in) in
    rw (==-ne q.head q.tail e) (
      refl,
      first,
      same.4,
      Holds-of_same (record q { head = head }) (raise n n (record q { head = head })) same
          (step-Holds h),
    )

-- `skynet_mq_length` is the number of messages held.
pub mq_length_lem : {q : MessageQueue} {ms : List Message} → Holds q ms → mq_length q ≡ length ms
unfolding mq_length
mq_length_lem h = ground (arith, h.tail_at, h.room, h.head_in)

pub create-Holds : (handle : ℕ) → Holds (create handle) []
unfolding create
create-Holds handle = record {
  size = refl;
  head_in = omega arith;
  room = omega arith;
  tail_at = refl;
  cells = λ i lt. absurd (omega arith);
}

-- What a queue holds does not depend on its flags.
pub Holds-flags :
    {q : MessageQueue} {ms : List Message} (i r : ℕ)
    → Holds q ms
    → Holds (record q { in_global = i; release = r }) ms
Holds-flags i r h = record {
  size = h.size;
  head_in = h.head_in;
  room = h.room;
  tail_at = h.tail_at;
  cells = h.cells;
}
