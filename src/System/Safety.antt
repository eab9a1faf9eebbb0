-- ===== src/System/Safety.antt =====
-- What holds in every state that the program reaches.
use crynet.Prelude.{ℕ, ◌+◌, ◌≡◌, ◌≢◌, refl, true, List, [], ◌∷◌, arith, ◌∙◌, ap, length}
use crynet.Queue.{Message, mq_length}
use crynet.Queue.Valid
use crynet.Global.Chain
use crynet.Queue.Flags.{create_flags}
use crynet.Global.Chain.{count}
use crynet.System.{
  System, Event, launch, deliver, fetch, next, requeue, retire, reclaim, step, run, boot, ok,
  disabled, fault, Outcome, after,
}
use crynet.System.Inv.{Inv, IsGood}
use crynet.System.Steps.{launch-IsGood, deliver-IsGood, next-IsGood, requeue-IsGood, retire-IsGood}
use crynet.System.Release.{fetch-IsGood, reclaim-IsGood}
use mathlib.Core.Path.{subst}

-- Every event keeps what holds between the steps, or cannot happen; no assertion fails.
pub step-IsGood :
    (e : Event) {s : System} {l : List ℕ} {pending : ℕ → List Message}
    → Inv s l pending
    → IsGood (step e s)
step-IsGood (launch a handle) inv = launch-IsGood inv a handle
step-IsGood (deliver a m) inv = deliver-IsGood inv a m
step-IsGood fetch {l = l} inv = fetch-IsGood l inv
step-IsGood (next a) inv = next-IsGood inv a
step-IsGood (requeue a) inv = requeue-IsGood inv a
step-IsGood (retire a) inv = retire-IsGood inv a
step-IsGood (reclaim a) inv = reclaim-IsGood inv a

pub boot-Inv : Inv boot [] (λ _. [])
unfolding boot
boot-Inv = record {
  chain = Chain.init-IsChain;
  placed = λ a. record {
    holds = Valid.create-Holds 0;
    flags = (omega (arith, create_flags 0), omega (arith, create_flags 0));
    places = refl;
    idle = λ _ _. refl;
  };
}

after-IsGood :
    (o : Outcome) (k : System → Outcome)
    → IsGood o
    → ((t : System) (l : List ℕ) (pending : ℕ → List Message) → Inv t l pending → IsGood (k t))
    → IsGood (after o k)
after-IsGood (ok t) k (l, pending, inv) later = later t l pending inv
after-IsGood disabled k g later = tt
after-IsGood fault k g later = g

run-IsGood :
    (es : List Event) (s : System) (l : List ℕ) (pending : ℕ → List Message)
    → Inv s l pending
    → IsGood (run es s)
unfolding run
run-IsGood [] s l pending inv = (l, pending, inv)
run-IsGood (e ∷ es) s l pending inv =
    after-IsGood (step e s) (run es) (step-IsGood e inv) (run-IsGood es)

-- No message is stranded: in every state that is reached, a live queue that is not empty stands at
-- exactly one place, in the global queue or in the hands of one thread.
pub run_not_stranded :
    (es : List Event) {s : System} (a : ℕ)
    → run es boot ≡ ok s
    → s.world.live a ≡ true
    → mq_length (s.world.queue a) ≢ 0
    → (l : List ℕ) × Chain.IsChain s.world.global l × (count a l + count a s.held ≡ 1)
run_not_stranded es {s} a e alive some_left =
    let (l, pending, inv) = subst IsGood e (run-IsGood es boot [] (λ _. []) boot-Inv) in
    let p = inv.placed a in
    let n = Valid.mq_length_lem p.holds in
    let busy : (s.world.queue a).in_global ≢ 0 = λ z. some_left (n ∙ ap length (p.idle alive z)) in
    (l, inv.chain, ground (arith, p.places, p.flags, alive))
