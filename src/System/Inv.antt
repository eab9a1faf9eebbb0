-- ===== src/System/Inv.antt =====
-- What holds between the steps: each live queue is in one place at most, and the places are known
-- from its flags.
use crynet.Prelude.{
  ℕ, ◌+◌, ◌≤◌, ◌≡◌, Bool, true, false, List, [], ◌==◌, ==_iff, if◌then◌else◌, update, Bool-cases,
  inl, inr, suc, ◌∷◌, arith,
}
use mathlib.Core.Path.{subst}
use crynet.Queue.{Message, MessageQueue}
use crynet.Queue.Valid
use crynet.Global.{GlobalQueue}
use crynet.Global.Chain
use crynet.Global.Chain.{count}
use crynet.System.{System, Outcome, ok, disabled, fault, held_in, give_back}

-- One queue, with the messages `ms`, that stands at `n` places: in the global queue, or held by a
-- thread.
pub record Placed (live : Bool) (q : MessageQueue) (ms : List Message) (n : ℕ) : Type 0 where
  pub holds : Valid.Holds q ms
  pub flags : (q.in_global ≤ 1) × (q.release ≤ 1)
  -- a queue that is freed stands nowhere; one that is released, at one place; any other is at one
  -- place exactly when its flag says so
  pub places : n ≡ (if live then (if q.release == 0 then q.in_global else 1) else 0)
  -- no message waits in a queue that is nowhere
  pub idle : live ≡ true → q.in_global ≡ 0 → ms ≡ []

pub record Inv (s : System) (l : List ℕ) (pending : ℕ → List Message) : Type 0 where
  pub chain : Chain.IsChain s.world.global l
  pub placed :
      (a : ℕ) → Placed (s.world.live a) (s.world.queue a) (pending a) (count a l + count a s.held)

-- A step that changes one queue, and for the others only the order of the lists.
pub frame :
    {s : System} {l : List ℕ} {pending : ℕ → List Message} (a : ℕ) (live : Bool) (q : MessageQueue)
    (ms : List Message) (g : GlobalQueue) (l' held : List ℕ)
    → Inv s l pending
    → Chain.IsChain g l'
    → ((b : ℕ) → (a == b) ≡ false → count b l' + count b held ≡ count b l + count b s.held)
    → Placed live q ms (count a l' + count a held)
    → Inv
        (record {
          world = record {
            queue = update s.world.queue a q;
            live = update s.world.live a live;
            global = g;
          };
          held = held;
        })
        l'
        (update pending a ms)
frame {s} {l} {pending} a live q ms g l' held inv chain others here = record {
  chain = chain;
  placed = λ b. elim (Bool-cases (a == b)) [
    | inl e ↦
        rw e (subst (λ c. Placed live q ms (count c l' + count c held)) ((==_iff a b).0 e) here)
    | inr e ↦ rw (e, others b e) (inv.placed b)
  ];
}

-- The same where the queue stays as live as it was.
pub frame_queue :
    {s : System} {l : List ℕ} {pending : ℕ → List Message} (a : ℕ) (q : MessageQueue)
    (ms : List Message) (g : GlobalQueue) (l' held : List ℕ)
    → Inv s l pending
    → Chain.IsChain g l'
    → ((b : ℕ) → (a == b) ≡ false → count b l' + count b held ≡ count b l + count b s.held)
    → Placed (s.world.live a) q ms (count a l' + count a held)
    → Inv
        (record {
          world = record { queue = update s.world.queue a q; live = s.world.live; global = g };
          held = held;
        })
        l'
        (update pending a ms)
frame_queue {s} {l} {pending} a q ms g l' held inv chain others here = record {
  chain = chain;
  placed = λ b. elim (Bool-cases (a == b)) [
    | inl e ↦ rw e (
        subst (λ c. Placed (s.world.live c) q ms (count c l' + count c held)) ((==_iff a b).0 e)
          here)
    | inr e ↦ rw (e, others b e) (inv.placed b)
  ];
}

-- A queue that changes hands.
pub moved :
    {s : System} {l : List ℕ} {pending : ℕ → List Message} (g : GlobalQueue) (l' held : List ℕ)
    → Inv s l pending
    → Chain.IsChain g l'
    → ((b : ℕ) → count b l' + count b held ≡ count b l + count b s.held)
    → Inv (record { world = record s.world { global = g }; held = held }) l' pending
moved g l' held inv chain same = record { chain = chain; placed = λ b. rw (same b) (inv.placed b) }

pub held_in-count : (a : ℕ) (l : List ℕ) → held_in a l ≡ true → 1 ≤ count a l
held_in-count a [] h = cc
held_in-count a (b ∷ l) h = ground (arith, held_in-count a l)

pub count-give_back :
    (a b : ℕ) (l : List ℕ)
    → held_in a l ≡ true
    → count b l ≡ (if b == a then suc (count b (give_back a l)) else count b (give_back a l))
count-give_back a b [] h = cc
count-give_back a b (c ∷ l) h = ground (arith, count-give_back a b l)

-- An outcome is no failed assertion, and keeps what holds between the steps.
abbrev pub IsGood : Outcome → Type 0
IsGood (ok t) = (l : List ℕ) × (pending : ℕ → List Message) × Inv t l pending
IsGood disabled = Unit
IsGood fault = ⊥
