-- ===== src/System/Tests.antt =====
-- A service that is launched, gets two messages, and is released.
use crynet.Prelude.{ℕ, ◌+◌, ◌≡◌, ◌≢◌, refl, List, [], ◌∷◌, arith, Option, some, none, Bool, false}
use crynet.Global.Chain
use crynet.Global.Chain.{count}
use crynet.Global
use crynet.Global.{init, is_tail}
use crynet.World
use crynet.Queue
use crynet.Queue.{Message, create, put, store, length_of, raise, mq_length}
use crynet.World.{
  mq_create, mq_push, mq_pop, globalmq_push, globalmq_pop, mark_release, mq_release, drop_queue,
}
use crynet.System.{
  System, Event, launch, deliver, fetch, next, requeue, Outcome, step, run, boot, ok, disabled,
  fault,
}
use crynet.System.Safety.{run_not_stranded}
use crynet.System.Contexts.{
  Call, new_context, grab, release, push, fetch_queue, requeue_queue, reclaim_queue, call, call_all,
  call_all-ne-fault,
}

abbrev msg : ℕ → Message
msg n = record { source = n; session = n; payload = 0; sz = 0 }

abbrev busy : List Event
busy = launch 3 9 ∷ deliver 3 (msg 5) ∷ requeue 3 ∷ fetch ∷ next 3 ∷ deliver 3 (msg 6) ∷ []

-- Its context is grabbed for a message, and then all three references are released.
abbrev ended : List Call
ended =
    new_context 3 9
    ∷ requeue_queue 3
    ∷ grab 3
    ∷ push 3 (msg 5)
    ∷ release 3
    ∷ release 3
    ∷ release 3
    ∷ fetch_queue
    ∷ reclaim_queue 3
    ∷ []

call_all-ne-fault_example : call_all ended boot (λ _. 0) ≢ fault
call_all-ne-fault_example = call_all-ne-fault ended

abbrev live_at_end : Outcome → Option Bool
live_at_end (ok s) = some (s.world.live 3)
live_at_end disabled = none
live_at_end fault = none

test_ended : live_at_end (call_all ended boot (λ _. 0)) ≡ some false
unfolding call_all call step boot init mq_create create mq_push put store globalmq_push globalmq_pop
    Global.push Global.pop is_tail mark_release mq_release drop_queue World.drop_all Queue.pop
    length_of raise mq_length
test_ended = refl

abbrev state_of : Outcome → System
state_of (ok s) = s
state_of disabled = boot
state_of fault = boot

-- Service 3 is held by a worker, and a second message waits in its queue.
abbrev busy_state : System
busy_state = state_of (run busy boot)

run_not_stranded_example :
    (l : List ℕ) × Chain.IsChain busy_state.world.global l
    × (count 3 l + count 3 busy_state.held ≡ 1)
unfolding run step boot init mq_create create mq_push put store globalmq_push globalmq_pop
    Global.push Global.pop is_tail mq_pop Queue.pop length_of raise mq_length
run_not_stranded_example = run_not_stranded busy 3 refl refl (omega arith)
