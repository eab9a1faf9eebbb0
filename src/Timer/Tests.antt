-- ===== src/Timer/Tests.antt =====
-- A wheel near the wrap of its clock, and the theorems at it.
use crynet.Prelude.{ℕ, ◌+◌, ◌≡◌, refl, arith, [], ◌∷◌}
use crynet.Timer.{
  Node, Timer, create_timer, timer_add, timer_update, add_node, link, list_at, with_list, place,
  find_level, update_time,
}
use crynet.Timer.Wheel.{count, bit, same_node}
use crynet.Timer.Place.{left}
use crynet.Timer.Inv.{IsValid, pending, node, create_timer-IsValid, timer_add-IsValid}
use crynet.Timer.Update.{Ticked}
use crynet.Timer.OnTime.{timer_update-Ticked, ticks, timeout_on_time}
use crynet.Timer.Elapsed.{Advanced, update_time-Advanced}

abbrev fresh : Timer
fresh = create_timer 1000 0 500

fresh-IsValid : IsValid fresh
fresh-IsValid = (create_timer-IsValid 1000 0 500).0

-- A timeout of 300 ticks is put on the second level first.
abbrev three_hundred : Timer
three_hundred = timer_add fresh 9 1 300

three_hundred_level : list_at three_hundred (place 0 300) ≡ node 300 9 1 ∷ []
unfolding timer_add add_node link list_at with_list create_timer place find_level
three_hundred_level = refl

abbrev late : (ℕ → ℕ → ℕ)
late n k = count (node 3 9 1) (timer_update (ticks k (timer_add fresh 9 1 n))).0

timer_add-IsValid_example :
    IsValid three_hundred
    × (left fresh.time 300 ≡ 300)
    × (three_hundred.time ≡ fresh.time)
    × ((m : Node) → pending three_hundred m ≡ pending fresh m + bit (same_node m (node 300 9 1)))
unfolding create_timer
timer_add-IsValid_example =
    timer_add-IsValid fresh 9 1 300 fresh-IsValid (omega arith) (omega arith)

timer_update-Ticked_example : Ticked three_hundred (timer_update three_hundred)
unfolding create_timer
timer_update-Ticked_example = timer_update-Ticked timer_add-IsValid_example.0

timeout_on_time_example :
    count (node 3 9 1) (timer_update (ticks 2 (timer_add fresh 9 1 3))).0
    ≡ pending fresh (node 3 9 1) + 1
unfolding create_timer
timeout_on_time_example =
    timeout_on_time 2 fresh 9 1 3 fresh-IsValid (omega arith) (omega arith) (omega arith)

update_time-Advanced_example : Advanced 7 fresh (update_time 507 fresh)
unfolding create_timer
update_time-Advanced_example = update_time-Advanced 507 fresh-IsValid (omega arith) (omega arith)
