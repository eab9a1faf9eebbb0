-- ===== src/Monitor/Tests.antt =====
-- A thread that begins a message and is still in it at the next check, and a call that is not finished.
use crynet.Prelude.{◌≡◌, refl, List, [], ◌∷◌}
use crynet.Monitor.{Monitor, Store, set_source, set_destination, store_all, apply_store, trigger}

abbrev begun : Monitor
begun = record { version = 1; check_version = 0; source = 1; destination = 9 }

-- The next message has begun, but for the last store.
abbrev unfinished : List Store
unfinished = set_source 2 ∷ set_destination 8 ∷ []

test_trigger :
    store_all begun (trigger 2 8)
    ≡ record { version = 2; check_version = 0; source = 2; destination = 8 }
unfolding store_all apply_store trigger
test_trigger = refl
