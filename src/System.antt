-- ===== src/System.antt =====
-- How threads use the message queues (skynet/skynet-src/skynet_server.c): the operations of
-- skynet_mq.c, in any order that the code allows. A thread that creates a queue, or that took one
-- from the global queue, holds it until it gives it back.
pub mod Inv
pub mod Steps
pub mod Release
pub mod Safety
pub mod Contexts
mod Tests
use crynet.Prelude.{
  ℕ, zero, suc, Bool, true, false, ◌&&◌, List, [], ◌∷◌, Option, none, some, ◌==◌, if◌then◌else◌,
}
use mathlib.Core.Bool.{not}
use crynet.Global.{init}
use crynet.Queue.{Message, create}
use crynet.World.{
  World, mq_create, globalmq_push, globalmq_pop, mq_push, mq_pop, mark_release, mq_release,
}

pub record System : Type 0 where
  pub world : World
  pub held : List ℕ

pub data Event : Type 0 where
  -- `skynet_context_new`: a queue at an address that is free
  launch : ℕ → ℕ → Event
  -- `skynet_context_push`, with a reference to the context
  deliver : ℕ → Message → Event
  -- a thread with no queue takes one from the global queue
  fetch : Event
  -- the thread that holds the queue pops a message, with a reference to the context
  next : ℕ → Event
  -- the thread that holds the queue pushes it to the global queue
  requeue : ℕ → Event
  -- `delete_context`, when no reference to the context is left
  retire : ℕ → Event
  -- the thread that holds the queue does not find its context, and calls `skynet_mq_release`
  reclaim : ℕ → Event

-- A step of the program, an event that cannot happen in this state, or a failed assertion.
pub data Outcome : Type 0 where
  ok : System → Outcome
  disabled : Outcome
  fault : Outcome

abbrev pub held_in : ℕ → List ℕ → Bool
held_in a [] = false
held_in a (b ∷ l) = if a == b then true else held_in a l

abbrev pub give_back : ℕ → List ℕ → List ℕ
give_back a [] = []
give_back a (b ∷ l) = if a == b then l else b ∷ give_back a l

-- The context of a live queue lives until the queue is marked for release.
abbrev pub open_queue : ℕ → World → Bool
open_queue a w = w.live a && (w.queue a).release == 0

abbrev pub now : List ℕ → Option World → Outcome
now held none = fault
now held (some w) = ok (record { world = w; held = held })

abbrev pub when : Bool → Outcome → Outcome
when b o = if b then o else disabled

-- A thread holds the queue that it takes, if there is one.
abbrev pub fetched : List ℕ → Option (Option ℕ × World) → Outcome
fetched held none = fault
fetched held (some (none, w)) = now held (some w)
fetched held (some (some a, w)) = now (a ∷ held) (some w)

abbrev pub after : Outcome → (System → Outcome) → Outcome
after (ok t) k = k t
after disabled k = disabled
after fault k = fault

pub step : Event → System → Outcome
step (launch a handle) s =
    when (not (s.world.live a)) (now (a ∷ s.held) (some (mq_create a handle s.world)))
step (deliver a m) s = when (open_queue a s.world) (now s.held (mq_push a m s.world))
step fetch s = fetched s.held (globalmq_pop s.world)
step (next a) s = when (held_in a s.held && open_queue a s.world) (
    let (ret, out, w) = mq_pop a s.world in
    elim ret [ zero ↦ now s.held (some w) | suc _ ↦ now (give_back a s.held) (some w) ])
step (requeue a) s = when (held_in a s.held) (now (give_back a s.held) (globalmq_push a s.world))
step (retire a) s = when (open_queue a s.world) (now s.held (mark_release a s.world))
step (reclaim a) s =
    when (held_in a s.held) (elim (mq_release a s.world) [
      | none ↦ fault
      | some (_, w) ↦ now (give_back a s.held) (some w)
    ])

-- A run of the program; it stops at an event that cannot happen or fails.
pub run : List Event → System → Outcome
run [] s = ok s
run (e ∷ es) s = after (step e s) (run es)

pub boot : System
boot = record {
  world = record { queue = λ a. create 0; live = λ _. false; global = init };
  held = [];
}
