-- ===== src/System/Release.antt =====
-- Threads that take a queue from the global queue, and that release one: the events `fetch` and
-- `reclaim`.
use crynet.Prelude.{
  ℕ, ◌+◌, ◌≡◌, refl, true, false, List, [], ◌∷◌, ◌++◌, arith, ◌==◌, Bool-cases, inl, inr,
}
use crynet.Queue.{Message, mq_length}
use crynet.Queue.Valid
use crynet.Global.Chain
use crynet.Global.Chain.{count}
use crynet.World.{globalmq_pop, mq_release, drop_all}
use crynet.World.Drop.{drop_all_lem}
use crynet.System.{System, held_in, give_back, fetch, reclaim, step}
use crynet.System.Inv.{Placed, Inv, frame, moved, IsGood}
use crynet.System.Steps.{held_facts, back_lem, count-give_back_ne}

pub fetch-IsGood :
    {s : System} (l : List ℕ) {pending : ℕ → List Message} → Inv s l pending → IsGood (step fetch s)
unfolding step globalmq_pop
fetch-IsGood {s} [] {pending} inv =
    let e = Chain.pop-IsChain_empty inv.chain in rw (e, IsGood) ([], pending, inv)
fetch-IsGood {s} (a ∷ l) {pending} inv =
    let (g, e, c) = Chain.pop-IsChain inv.chain in
    rw (e, IsGood) (l, pending, moved g l (a ∷ s.held) inv c (λ b. ground arith))

module _ {s : System} {l : List ℕ} {pending : ℕ → List Message} (inv : Inv s l pending) where
  -- A queue that is marked, and held, is freed: it is not linked, and all its messages are dropped.
  drop_lem :
      (a : ℕ)
      → held_in a s.held ≡ true
      → ((s.world.queue a).release == 0) ≡ false
      → IsGood (step (reclaim a) s)
  unfolding step mq_release
  drop_lem a h marked =
      let q = s.world.queue a in
      let p = inv.placed a in
      let (out, gone, alive) = held_facts inv a h in
      let n = mq_length q + 1 in
      let (_, holds, unset, kept) =
        drop_all_lem n q (pending a) p.holds (omega (arith, Valid.mq_length_lem p.holds)) in
      let q' = (drop_all n q).1 in
      let placed : Placed false q' [] (count a l + count a (give_back a s.held)) = record {
        holds = holds;
        flags = (omega arith, omega (arith, p.flags));
        places = omega arith;
        idle = λ _ _. refl;
      } in
      rw (h, marked, inv.chain.others a out)
        (
          l,
          _,
          frame a false q' [] s.world.global l (give_back a s.held) inv inv.chain
              (λ b ne. rw (count-give_back_ne inv a b h ne)) placed,
        )

  pub reclaim-IsGood : (a : ℕ) → IsGood (step (reclaim a) s)
  unfolding step mq_release
  reclaim-IsGood a = elim (Bool-cases (held_in a s.held)) [
    | inr e ↦ rw e tt
    | inl e ↦ elim (Bool-cases ((s.world.queue a).release == 0)) [
      | inl z ↦ let (g, pushed, i) = back_lem inv a e in rw (e, z, pushed) (l ++ a ∷ [], pending, i)
      | inr z ↦ drop_lem a e z
    ]
  ]
