-- ===== src/World/Drop.antt =====
-- What `skynet_mq_release` drops: every message that the queue held, oldest first.
use crynet.Prelude.{ℕ, zero, suc, ◌+◌, ◌≡◌, refl, ◌∙◌, List, [], ◌∷◌, some, map, arith, length}
use crynet.Queue.{Message, MessageQueue}
use crynet.Queue.Valid.{Holds, pop-Holds, pop-Holds_empty}
use crynet.Queue.Flags.{pop_release}
use crynet.World.{drop_all}

-- With one round more than there are messages the loop ends, and each message is dropped once.
pub drop_all_lem :
    (fuel : ℕ) (q : MessageQueue) (ms : List Message)
    → Holds q ms
    → fuel ≡ length ms + 1
    → ((drop_all fuel q).0 ≡ map some ms)
      × Holds (drop_all fuel q).1 []
      × ((drop_all fuel q).1.in_global ≡ 0)
      × ((drop_all fuel q).1.release ≡ q.release)
unfolding drop_all
drop_all_lem zero q ms h e = absurd (omega arith)
drop_all_lem (suc fuel) q [] h e =
    let (r, _, i, h') = pop-Holds_empty h in rw (r, drop_all) (refl, h', i, pop_release q)
drop_all_lem (suc fuel) q (m ∷ ms) h e =
    let (r, o, _, h') = pop-Holds h in
    let (rest, h'', i, kept) = drop_all_lem fuel _ ms h' (omega arith) in
    rw (r, o, rest, drop_all) (refl, h'', i, kept ∙ pop_release q)
