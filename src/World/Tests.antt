-- ===== src/World/Tests.antt =====
-- A release that drops two messages.
use crynet.Prelude.{ℕ, ◌≡◌, refl, [], ◌∷◌, some, map}
use crynet.Queue.{Message, MessageQueue, create, put}
use crynet.Queue.Valid.{Holds, create-Holds, put-Holds}
use crynet.World.{drop_all}
use crynet.World.Drop.{drop_all_lem}

abbrev msg : ℕ → Message
msg n = record { source = n; session = n; payload = 0; sz = 0 }

abbrev two : MessageQueue
two = put (put (create 9) (msg 5)) (msg 6)

drop_all_lem_example :
    ((drop_all 3 two).0 ≡ map some (msg 5 ∷ msg 6 ∷ []))
    × Holds (drop_all 3 two).1 []
    × ((drop_all 3 two).1.in_global ≡ 0)
    × ((drop_all 3 two).1.release ≡ two.release)
drop_all_lem_example =
    drop_all_lem 3 two (msg 5 ∷ msg 6 ∷ []) (put-Holds (msg 6) (put-Holds (msg 5) (create-Holds 9)))
      refl
