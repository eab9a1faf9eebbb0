-- ===== src/System/Contexts.antt =====
-- The references to the contexts of skynet/skynet-src/skynet_server.c, on which it depends whether a
-- thread may use a queue: a context is deleted, and its queue marked for release, with its last one.
use crynet.Prelude.{
  ℕ, zero, suc, ◌+◌, ◌-◌, ◌<◌, ◌≡◌, ◌≢◌, refl, sym, List, [], ◌∷◌, Bool, true, false, ◌&&◌, Option,
  none, some, ltb, ◌==◌, if◌then◌else◌, update, Bool-cases, Option-cases, inl, inr, if_both, arith,
  ◌>>=◌, ltb→lt, ==_iff,
}
use mathlib.Core.Path.{subst}
use mathlib.Core.Bool.{not}
use crynet.Queue.{Message, MessageQueue, put, pop}
use crynet.Queue.Flags.{create_flags, put_flags, pop_release}
use crynet.Global
use crynet.World.{
  World, mq_create, globalmq_push, globalmq_pop, mq_push, mq_pop, mark_release, mq_release,
  drop_queue, with_queue,
}
use crynet.System.{
  System, Outcome, ok, disabled, fault, launch, deliver, fetch, next, requeue, retire, reclaim,
  held_in, give_back, open_queue, now, when, step, boot,
}
use crynet.System.Inv.{Inv, IsGood}
use crynet.System.Safety.{step-IsGood, boot-Inv}

pub data Call : Type 0 where
  -- `skynet_context_new`, with a reference for the table of handles and one for the start
  new_context : (address handle : ℕ) → Call
  -- `skynet_context_grab`, by who has a reference or finds the one of the table
  grab : (address : ℕ) → Call
  -- `skynet_context_release`
  release : (address : ℕ) → Call
  -- `skynet_context_push`, with a reference
  push : (address : ℕ) (message : Message) → Call
  -- the thread that holds the queue pops a message, with a reference
  take : (address : ℕ) → Call
  -- a thread takes a queue from the global queue, pushes one there, or finds no context for one
  fetch_queue : Call
  requeue_queue : (address : ℕ) → Call
  reclaim_queue : (address : ℕ) → Call

-- One call, with the number of references that there are to the context of each queue.
unfoldable pub call : Call → System → (ℕ → ℕ) → Outcome × (ℕ → ℕ)
call (new_context a handle) s refs =
    (step (launch a handle) s, if s.world.live a then refs else update refs a 2)
call (grab a) s refs = (when (ltb 0 (refs a)) (ok s), update refs a (refs a + 1))
call (release a) s refs =
    if refs a == 0
    then (disabled, refs)
    else if refs a == 1
    then (now s.held (mark_release a s.world), update refs a 0)
    else (ok s, update refs a (refs a - 1))
call (push a m) s refs = (when (ltb 0 (refs a)) (now s.held (mq_push a m s.world)), refs)
call (take a) s refs = (
  when (held_in a s.held && ltb 0 (refs a)) (
      let (ret, out, w) = mq_pop a s.world in
      elim ret [ zero ↦ now s.held (some w) | suc _ ↦ now (give_back a s.held) (some w) ]),
  refs,
)
call fetch_queue s refs = (step fetch s, refs)
call (requeue_queue a) s refs = (step (requeue a) s, refs)
call (reclaim_queue a) s refs = (step (reclaim a) s, refs)

abbrev pub then_calls : Outcome × (ℕ → ℕ) → (System → (ℕ → ℕ) → Outcome) → Outcome
then_calls (ok t, refs) k = k t refs
then_calls (disabled, refs) k = disabled
then_calls (fault, refs) k = fault

unfoldable pub call_all : List Call → System → (ℕ → ℕ) → Outcome
call_all [] s refs = ok s
call_all (c ∷ cs) s refs = then_calls (call c s refs) (call_all cs)

not_positive : (n : ℕ) → 0 < n → n ≡ 0 → ⊥
not_positive n pos e = absurd (omega arith)

-- A queue whose context has references is in use and not marked.
abbrev Refs : World → (ℕ → ℕ) → Type 0
Refs w refs = (a : ℕ) → 0 < refs a → open_queue a w ≡ true

abbrev IsSafe : Outcome × (ℕ → ℕ) → Type 0
IsSafe (ok t, refs) = IsGood (ok t) × Refs t.world refs
IsSafe (disabled, refs) = Unit
IsSafe (fault, refs) = ⊥

abbrev OpenAfter : (ℕ → ℕ) → Option World → Type 0
OpenAfter refs none = Unit {0}
OpenAfter refs (some w) = Refs w refs

now-IsSafe :
    (held : List ℕ) (refs : ℕ → ℕ) (o : Option World)
    → IsGood (now held o)
    → OpenAfter refs o
    → IsSafe (now held o, refs)
now-IsSafe held refs none good r = good
now-IsSafe held refs (some w) good r = (good, r)

module _ (refs : ℕ → ℕ) where
  with_queue-Refs :
      (a : ℕ) (q : MessageQueue) (w : World)
      → q.release ≡ (w.queue a).release
      → Refs w refs
      → Refs (with_queue a q w) refs
  with_queue-Refs a q w same r b pos = elim (Bool-cases (a == b)) [
    | inl here ↦ rw here (ground (arith, r b pos, same, here))
    | inr away ↦ rw away (r b pos)
  ]

  globalmq_push-OpenAfter : (a : ℕ) (w : World) → Refs w refs → OpenAfter refs (globalmq_push a w)
  unfolding globalmq_push
  globalmq_push-OpenAfter a w r = elim (Option-cases (Global.push a w.global)) [
    | inl e ↦ rw (globalmq_push, e) tt
    | inr (g, e) ↦ rw (globalmq_push, e) r
  ]

  mq_push-OpenAfter :
      (a : ℕ) (m : Message) (w : World) → Refs w refs → OpenAfter refs (mq_push a m w)
  unfolding mq_push
  mq_push-OpenAfter a m w r =
      let q = put (w.queue a) m in
      let kept = (put_flags (w.queue a) m).1 in
      if_both (OpenAfter refs) (q.in_global == 0)
        (λ _.
          globalmq_push-OpenAfter a (with_queue a (record q { in_global = 1 }) w)
            (with_queue-Refs a (record q { in_global = 1 }) w kept r))
        (λ _. with_queue-Refs a q w kept r)

-- The last reference is released.
mark_release-OpenAfter :
    (refs : ℕ → ℕ) (a : ℕ) (w : World)
    → Refs w refs
    → OpenAfter (update refs a 0) (mark_release a w)
unfolding mark_release
mark_release-OpenAfter refs a w r =
    let q = w.queue a in
    let marked = with_queue a (record q { release = 1 }) w in
    let refs' = update refs a 0 in
    let others : Refs marked refs' = λ b pos. elim (Bool-cases (a == b)) [
      | inl here ↦ absurd (not_positive (update refs a 0 b) pos (rw here refl))
      | inr away ↦ rw away (r b (subst (λ (n : ℕ). 0 < n) (rw away refl) pos))
    ] in
    if_both (OpenAfter refs') (q.release == 0)
      (λ _.
        if_both (OpenAfter refs') (q.in_global == 1) (λ _. others)
          (λ _. globalmq_push-OpenAfter refs' a marked others))
      (λ _. tt)

and_parts : (a b : Bool) → (a && b) ≡ true → (a ≡ true) × (b ≡ true)
and_parts true b e = (refl, e)
and_parts false b e = cc

if_good :
    (refs : ℕ → ℕ) (b : Bool) (o : Outcome)
    → IsGood (when b o)
    → (IsGood o → IsSafe (o, refs))
    → IsSafe (when b o, refs)
if_good refs true o good f = f good
if_good refs false o good f = tt

popped-IsSafe :
    (ret : ℕ) (held : List ℕ) (a : ℕ) (w : World) (refs : ℕ → ℕ)
    → Refs w refs
    → IsGood (elim ret as (λ _. Outcome) [
      | zero ↦ now held (some w)
      | suc _ ↦ now (give_back a held) (some w)
    ])
    → IsSafe (
      elim ret as (λ _. Outcome) [
        | zero ↦ now held (some w)
        | suc _ ↦ now (give_back a held) (some w)
      ],
      refs,
    )
popped-IsSafe zero held a w refs r good = (good, r)
popped-IsSafe (suc n) held a w refs r good = (good, r)

-- A queue whose context was not found is freed where it is marked, and is pushed back where it is not.
abbrev reclaimed : ℕ → List ℕ → Option (List (Option Message) × World) → Outcome
reclaimed a held none = fault
reclaimed a held (some (out, w)) = now (give_back a held) (some w)

abbrev OpenWith : (ℕ → ℕ) → Option (List (Option Message) × World) → Type 0
OpenWith refs none = Unit {0}
OpenWith refs (some (out, w)) = Refs w refs

reclaimed-IsSafe :
    (refs : ℕ → ℕ) (a : ℕ) (held : List ℕ) (o : Option (List (Option Message) × World))
    → IsGood (reclaimed a held o)
    → OpenWith refs o
    → IsSafe (reclaimed a held o, refs)
reclaimed-IsSafe refs a held none good r = good
reclaimed-IsSafe refs a held (some (out, w)) good r = (good, r)

back-OpenWith :
    (refs : ℕ → ℕ) (o : Option World) → OpenAfter refs o → OpenWith refs (o >>= λ w. some ([], w))
back-OpenWith refs none r = tt
back-OpenWith refs (some w) r = r

mq_release-OpenWith :
    (refs : ℕ → ℕ) (a : ℕ) (w : World) → Refs w refs → OpenWith refs (mq_release a w)
unfolding mq_release drop_queue
mq_release-OpenWith refs a w r =
    if_both (OpenWith refs) ((w.queue a).release == 0)
      (λ _. back-OpenWith refs (globalmq_push a w) (globalmq_push-OpenAfter refs a w r))
      (λ marked. elim (Option-cases (w.global.next a)) [
        | inr (b, e) ↦ rw (drop_queue, e) tt
        | inl e ↦
            rw (drop_queue, e)
              (λ b pos. elim (Bool-cases (a == b)) [
                | inl here ↦
                    let opened =
                      subst (λ c. open_queue c w ≡ true) (sym ((==_iff a b).0 here)) (r b pos) in
                    absurd (ground (arith, marked, opened))
                | inr away ↦ rw away (r b pos)
              ])
      ])

module _ (s : System) (refs : ℕ → ℕ) (l : List ℕ) (pending : ℕ → List Message)
    (inv : Inv s l pending) (r : Refs s.world refs) where
  -- A step that takes a reference, of a queue that is in use.
  used : (a : ℕ) → ltb 0 (refs a) ≡ true → open_queue a s.world ≡ true
  used a e = r a (ltb→lt 0 (refs a) e)

  push-IsSafe : (a : ℕ) (m : Message) → IsSafe (call (push a m) s refs)
  unfolding call step
  push-IsSafe a m =
      if_both (λ (o : Outcome). IsSafe (o, refs)) (ltb 0 (refs a))
        (λ e.
          now-IsSafe s.held refs (mq_push a m s.world)
            (subst (λ b. IsGood (when b (now s.held (mq_push a m s.world)))) (used a e)
              (step-IsGood (deliver a m) inv))
            (mq_push-OpenAfter refs a m s.world r))
        (λ _. tt)

  take-IsSafe : (a : ℕ) → IsSafe (call (take a) s refs)
  unfolding call step mq_pop
  take-IsSafe a =
      if_both (λ (o : Outcome). IsSafe (o, refs)) (held_in a s.held && ltb 0 (refs a))
        (λ e.
          let (has, some_refs) = and_parts (held_in a s.held) (ltb 0 (refs a)) e in
          let q = (pop (s.world.queue a)).2 in
          let after = (mq_pop a s.world).2 in
          let both : (held_in a s.held && open_queue a s.world) ≡ true =
            rw (has, used a some_refs) refl in
          popped-IsSafe (pop (s.world.queue a)).0 s.held a after refs
            (with_queue-Refs refs a q s.world (pop_release (s.world.queue a)) r)
            (subst
              (λ b. IsGood (
                when b (elim (pop (s.world.queue a)).0 as (λ _. Outcome) [
                  | zero ↦ now s.held (some after)
                  | suc _ ↦ now (give_back a s.held) (some after)
                ])))
              both (step-IsGood (next a) inv)))
        (λ _. tt)

  release-IsSafe : (a : ℕ) → IsSafe (call (release a) s refs)
  unfolding call step
  release-IsSafe a =
      if_both IsSafe (refs a == 0) (λ _. tt)
        (λ _.
          if_both IsSafe (refs a == 1)
            (λ e.
              let opened = r a (ground (arith, e)) in
              now-IsSafe s.held (update refs a 0) (mark_release a s.world)
                (subst (λ b. IsGood (when b (now s.held (mark_release a s.world)))) opened
                  (step-IsGood (retire a) inv))
                (mark_release-OpenAfter refs a s.world r))
            (λ e. (
              (l, pending, inv),
              λ b pos. elim (Bool-cases (a == b)) [
                | inl here ↦
                    subst (λ c. open_queue c s.world ≡ true) ((==_iff a b).0 here)
                      (r a (ground arith))
                | inr away ↦ r b (subst (λ (n : ℕ). 0 < n) (rw away refl) pos)
              ],
            )))

  new_context-IsSafe : (a handle : ℕ) → IsSafe (call (new_context a handle) s refs)
  unfolding call step mq_create
  new_context-IsSafe a handle = elim (Bool-cases (s.world.live a)) [
    | inl e ↦ rw (call, step, e) tt
    | inr e ↦
        let good =
          subst (λ b. IsGood (when (not b) (now (a ∷ s.held) (some (mq_create a handle s.world)))))
            e (step-IsGood (launch a handle) inv) in
        rw (call, step, e)
          (
            good,
            λ b pos. elim (Bool-cases (a == b)) [
              | inl here ↦ rw here (ground (arith, create_flags handle))
              | inr away ↦ rw away (r b (subst (λ (n : ℕ). 0 < n) (rw away refl) pos))
            ],
          )
  ]

  fetch_queue-IsSafe : IsSafe (call fetch_queue s refs)
  unfolding call step globalmq_pop
  fetch_queue-IsSafe =
      let good = step-IsGood fetch inv in
      elim (Option-cases (Global.pop s.world.global)) [
        | inl e ↦ rw (call, step, globalmq_pop, e) (rw (step, globalmq_pop, e) at good)
        | inr ((none, g), e) ↦
            rw (call, step, globalmq_pop, e) (rw (step, globalmq_pop, e) at good, r)
        | inr ((some a, g), e) ↦
            rw (call, step, globalmq_pop, e) (rw (step, globalmq_pop, e) at good, r)
      ]

  requeue_queue-IsSafe : (a : ℕ) → IsSafe (call (requeue_queue a) s refs)
  unfolding call step
  requeue_queue-IsSafe a =
      if_good refs (held_in a s.held) (now (give_back a s.held) (globalmq_push a s.world))
        (step-IsGood (requeue a) inv)
        (λ good.
          now-IsSafe (give_back a s.held) refs (globalmq_push a s.world) good
            (globalmq_push-OpenAfter refs a s.world r))

  reclaim_queue-IsSafe : (a : ℕ) → IsSafe (call (reclaim_queue a) s refs)
  unfolding call step mq_release drop_queue globalmq_push
  reclaim_queue-IsSafe a =
      if_good refs (held_in a s.held) (reclaimed a s.held (mq_release a s.world))
        (step-IsGood (reclaim a) inv)
        (λ good.
          reclaimed-IsSafe refs a s.held (mq_release a s.world) good
            (mq_release-OpenWith refs a s.world r))

  call-IsSafe : (c : Call) → IsSafe (call c s refs)
  unfolding call
  call-IsSafe (new_context a handle) = new_context-IsSafe a handle
  call-IsSafe (grab a) =
      if_both (λ (o : Outcome). IsSafe (o, update refs a (refs a + 1))) (ltb 0 (refs a))
        (λ e. (
          (l, pending, inv),
          λ b pos. elim (Bool-cases (a == b)) [
            | inl here ↦ subst (λ c. open_queue c s.world ≡ true) ((==_iff a b).0 here) (used a e)
            | inr away ↦ r b (subst (λ (n : ℕ). 0 < n) (rw away refl) pos)
          ],
        ))
        (λ _. tt)
  call-IsSafe (release a) = release-IsSafe a
  call-IsSafe (push a m) = push-IsSafe a m
  call-IsSafe (take a) = take-IsSafe a
  call-IsSafe fetch_queue = fetch_queue-IsSafe
  call-IsSafe (requeue_queue a) = requeue_queue-IsSafe a
  call-IsSafe (reclaim_queue a) = reclaim_queue-IsSafe a

then_calls-safe :
    (x : Outcome × (ℕ → ℕ)) (k : System → (ℕ → ℕ) → Outcome)
    → IsSafe x
    → ((t : System) (refs : ℕ → ℕ) → IsSafe (ok t, refs) → k t refs ≢ fault)
    → then_calls x k ≢ fault
then_calls-safe (ok t, refs) k safe later = later t refs safe
then_calls-safe (disabled, refs) k safe later = λ e. subst IsGood e tt
then_calls-safe (fault, refs) k safe later = absurd safe

call_all-safe :
    (cs : List Call) (s : System) (refs : ℕ → ℕ) → IsSafe (ok s, refs) → call_all cs s refs ≢ fault
unfolding call_all
call_all-safe [] s refs safe = λ e. subst IsGood e safe.0
call_all-safe (c ∷ cs) s refs ((l, pending, inv), r) =
    then_calls-safe (call c s refs) (call_all cs) (call-IsSafe s refs l pending inv r c)
      (call_all-safe cs)

-- Whatever calls threads make, in whatever order, where a thread uses a context only while there is a
-- reference to it: no assertion of skynet_mq.c fails. A queue that is pushed is not linked, the last queue
-- popped is the tail, a queue is marked for release once, and one that is freed is not linked.
pub call_all-ne-fault : (cs : List Call) → call_all cs boot (λ _. 0) ≢ fault
call_all-ne-fault cs =
    call_all-safe cs boot (λ _. 0) (([], (λ _. []), boot-Inv), λ a pos. absurd (omega (arith, pos)))
