-- ===== src/System/Steps.antt =====
-- Each event keeps what holds between the steps, and no assertion fails.
use crynet.Queue.{Message, MessageQueue, put, pop, create}
use crynet.Queue.Valid
use crynet.Queue.Flags.{create_flags, put_flags, pop_release}
use crynet.Global
use crynet.Global.{GlobalQueue, assign}
use crynet.Global.Chain
use crynet.Global.Chain.{count, count-snoc_self, count-snoc_ne}
use crynet.World.{World, mq_create, globalmq_push, mq_push, mq_pop, mark_release}
use crynet.System.{
  System, held_in, give_back, launch, deliver, next, requeue, retire, step, open_queue, List,
}
use crynet.System.Inv.{
  Placed, Inv, frame, frame_queue, moved, held_in-count, count-give_back, IsGood,
}
use crynet.Prelude.{
  refl, List, ℕ, ◌≡◌, ◌==◌, false, suc, some, update, Bool-cases, ◌++◌, ◌∷◌, inl, [], inr, true,
  ◌+◌, arith, none, ==-eq, ◌≢◌, ==_iff,
}
use mathlib.Core.Path.{subst}

open_facts :
    (a : ℕ) (w : World) → open_queue a w ≡ true → (w.live a ≡ true) × ((w.queue a).release ≡ 0)
open_facts a w e = ground arith

module _ {s : System} {l : List ℕ} {pending : ℕ → List Message} (inv : Inv s l pending) where
  pub launch-IsGood : (a handle : ℕ) → IsGood (step (launch a handle) s)
  unfolding step mq_create
  launch-IsGood a handle = elim (Bool-cases (s.world.live a)) [
    | inl e ↦ rw e tt
    | inr e ↦
        let nowhere : count a l + count a s.held ≡ 0 = ground (arith, (inv.placed a).places) in
        let out : count a l ≡ 0 = omega arith in
        let (set, unmarked) = create_flags handle in
        rw e (
          l,
          update pending a [],
          frame a true (create handle) []
              (record {
                head = s.world.global.head;
                tail = s.world.global.tail;
                next = assign s.world.global.next a none;
              })
              l (a ∷ s.held) inv (Chain.clear-IsChain a inv.chain out) (λ b ne. ground arith)
              (record {
                holds = Valid.create-Holds handle;
                flags = (omega arith, omega arith);
                places = ground (arith, set, unmarked, nowhere);
                idle = λ _ i. absurd (omega arith);
              }),
        )
  ]

  -- The steps that push the queue itself: it stands nowhere in the global queue before.
  push_lem :
      (a : ℕ) (q : MessageQueue) (ms : List Message) (held : List ℕ)
      → count a l ≡ 0
      → ((b : ℕ) → (a == b) ≡ false → count b held ≡ count b s.held)
      → Placed (s.world.live a) q ms (suc (count a held))
      → (g : GlobalQueue) × (Global.push a s.world.global ≡ some g)
        × Inv
            (record {
              world = record { queue = update s.world.queue a q; live = s.world.live; global = g };
              held = held;
            })
            (l ++ a ∷ [])
            (update pending a ms)
  push_lem a q ms held out same here =
      let (g, e, c) = Chain.push-IsChain a inv.chain out in
      let n : suc (count a held) ≡ count a (l ++ a ∷ []) + count a held =
        omega (arith, count-snoc_self a l) in
      (
        g,
        e,
        frame_queue a q ms g (l ++ a ∷ []) held inv c
            (λ b ne. rw (count-snoc_ne a b l ne, same b ne))
            (subst (Placed (s.world.live a) q ms) n here),
      )

  pub deliver-IsGood : (a : ℕ) (m : Message) → IsGood (step (deliver a m) s)
  unfolding step mq_push
  deliver-IsGood a m = elim (Bool-cases (open_queue a s.world)) [
    | inr e ↦ rw e tt
    | inl e ↦
        let old = s.world.queue a in
        let p = inv.placed a in
        let (alive, unmarked) = open_facts a s.world e in
        let (same, kept) = put_flags old m in
        let q = put old m in
        let held : Valid.Holds q (pending a ++ m ∷ []) = Valid.put-Holds m p.holds in
        elim (Bool-cases (q.in_global == 0)) [
          | inl z ↦
              let zero : q.in_global ≡ 0 = ground (arith, z) in
              let out : count a l + count a s.held ≡ 0 =
                ground (arith, p.places, alive, unmarked) in
              let (g, pushed, i) =
                push_lem a (record q { in_global = 1 }) (pending a ++ m ∷ []) s.held (omega arith)
                  (λ b ne. refl)
                  (record {
                    holds = Valid.Holds-flags 1 q.release held;
                    flags = (omega arith, omega (arith, p.flags));
                    places = rw (alive, kept, unmarked) (omega arith);
                    idle = λ _ i. absurd (omega arith);
                  }) in
              rw (e, z, pushed) (l ++ a ∷ [], _, i)
          | inr z ↦
              let placed : Placed (s.world.live a) q (pending a ++ m ∷ [])
                  (count a l + count a s.held) =
                record {
                  holds = held;
                  flags = (omega (arith, p.flags), omega (arith, p.flags));
                  places = rw (same, kept) p.places;
                  idle = λ _ i. absurd (ground (arith, z));
                } in
              rw (e, z)
                (
                  l,
                  _,
                  frame_queue a q _ s.world.global l s.held inv inv.chain (λ b ne. refl) placed,
                )
        ]
  ]

  -- A queue that a thread holds is live, and stands nowhere else.
  pub held_facts :
      (a : ℕ)
      → held_in a s.held ≡ true
      → (count a l ≡ 0) × (count a (give_back a s.held) ≡ 0) × (s.world.live a ≡ true)
  held_facts a h =
      let p = inv.placed a in
      let one = held_in-count a s.held h in
      let e = count-give_back a a s.held h in ground (arith, p.places, p.flags, one, e)

  pub count-give_back_ne :
      (a b : ℕ)
      → held_in a s.held ≡ true
      → (a == b) ≡ false
      → count b (give_back a s.held) ≡ count b s.held
  count-give_back_ne a b h ne = ground (arith, count-give_back a b s.held h)

  same_here :
      (a : ℕ)
      → held_in a s.held ≡ true
      → count a (l ++ a ∷ []) + count a (give_back a s.held) ≡ count a l + count a s.held
  same_here a h =
      let e : count a s.held ≡ suc (count a (give_back a s.held)) =
        rw (==-eq a a refl) at (count-give_back a a s.held h) in
      omega (arith, count-snoc_self a l)

  -- Giving the queue back to the global queue.
  pub back_lem :
      (a : ℕ)
      → held_in a s.held ≡ true
      → (g : GlobalQueue) × (Global.push a s.world.global ≡ some g)
        × Inv
            (record { world = record s.world { global = g }; held = give_back a s.held })
            (l ++ a ∷ [])
            pending
  back_lem a h =
      let (out, _, _) = held_facts a h in
      let (g, e, c) = Chain.push-IsChain a inv.chain out in
      (
        g,
        e,
        moved g (l ++ a ∷ []) (give_back a s.held) inv c (λ b. elim (Bool-cases (a == b)) [
          | inr ne ↦ rw (count-snoc_ne a b l ne, count-give_back_ne a b h ne)
          | inl e ↦
              subst
                (λ c.
                  count c (l ++ a ∷ []) + count c (give_back a s.held) ≡ count c l + count c s.held)
                ((==_iff a b).0 e) (same_here a h)
        ]),
      )

  pub requeue-IsGood : (a : ℕ) → IsGood (step (requeue a) s)
  unfolding step globalmq_push
  requeue-IsGood a = elim (Bool-cases (held_in a s.held)) [
    | inr e ↦ rw e tt
    | inl e ↦ let (g, pushed, i) = back_lem a e in rw (e, pushed) (l ++ a ∷ [], pending, i)
  ]

  pub retire-IsGood : (a : ℕ) → IsGood (step (retire a) s)
  unfolding step mark_release
  retire-IsGood a = elim (Bool-cases (open_queue a s.world)) [
    | inr e ↦ rw e tt
    | inl e ↦
        let q = s.world.queue a in
        let p = inv.placed a in
        let (alive, unmarked) = open_facts a s.world e in
        let zero : (q.release == 0) ≡ true = ==-eq q.release 0 unmarked in
        elim (Bool-cases (q.in_global == 1)) [
          | inl z ↦
              let placed : Placed (s.world.live a) (record q { release = 1 }) (pending a)
                  (count a l + count a s.held) =
                record {
                  holds = Valid.Holds-flags q.in_global 1 p.holds;
                  flags = (p.flags.0, omega arith);
                  places = ground (arith, p.places);
                  idle = p.idle;
                } in
              rw (e, zero, z)
                (
                  l,
                  _,
                  frame_queue a (record q { release = 1 }) _ s.world.global l s.held inv inv.chain
                      (λ b ne. refl) placed,
                )
          | inr z ↦
              let out : count a l + count a s.held ≡ 0 = ground (arith, p.places, p.flags) in
              let (g, pushed, i) =
                push_lem a (record q { release = 1 }) (pending a) s.held (omega arith)
                  (λ b ne. refl)
                  (record {
                    holds = Valid.Holds-flags q.in_global 1 p.holds;
                    flags = (p.flags.0, omega arith);
                    places = rw alive (omega arith);
                    idle = p.idle;
                  }) in
              rw (e, zero, z, pushed) (l ++ a ∷ [], _, i)
        ]
  ]

  next_lem :
      (a : ℕ) (ms : List Message)
      → pending a ≡ ms
      → held_in a s.held ≡ true
      → open_queue a s.world ≡ true
      → IsGood (step (next a) s)
  unfolding step mq_pop
  next_lem a [] none_left h e =
      let q = s.world.queue a in
      let p = inv.placed a in
      let (r, _, idle, holds) = Valid.pop-Holds_empty (subst (Valid.Holds q) none_left p.holds) in
      let (out, gone, alive) = held_facts a h in
      let (_, unmarked) = open_facts a s.world e in
      let kept = pop_release q in
      let placed : Placed (s.world.live a) (pop q).2 [] (count a l + count a (give_back a s.held)) =
        record {
          holds = holds;
          flags = (omega arith, omega (arith, p.flags));
          places = ground (arith, out, gone, alive, kept, unmarked, idle);
          idle = λ _ _. refl;
        } in
      rw (h, e, r)
        (
          l,
          _,
          frame_queue a (pop q).2 [] s.world.global l (give_back a s.held) inv inv.chain
              (λ b ne. rw (count-give_back_ne a b h ne)) placed,
        )
  next_lem a (m ∷ ms) some_left h e =
      let q = s.world.queue a in
      let p = inv.placed a in
      let (r, _, same, holds) = Valid.pop-Holds (subst (Valid.Holds q) some_left p.holds) in
      let (_, _, alive) = held_facts a h in
      let kept = pop_release q in
      let busy : q.in_global ≢ 0 = λ z. cc (p.idle alive z) in
      let placed : Placed (s.world.live a) (pop q).2 ms (count a l + count a s.held) = record {
        holds = holds;
        flags = (omega (arith, p.flags), omega (arith, p.flags));
        places = rw (same, kept) p.places;
        idle = λ _ z. absurd (busy (omega arith));
      } in
      rw (h, e, r)
        (
          l,
          _,
          frame_queue a (pop q).2 ms s.world.global l s.held inv inv.chain (λ b ne. refl) placed,
        )

  pub next-IsGood : (a : ℕ) → IsGood (step (next a) s)
  unfolding step
  next-IsGood a = elim (Bool-cases (held_in a s.held)) [
    | inr h ↦ rw h tt
    | inl h ↦ elim (Bool-cases (open_queue a s.world)) [
      | inr e ↦ rw (h, e) tt
      | inl e ↦ next_lem a (pending a) refl h e
    ]
  ]
