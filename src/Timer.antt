-- ===== src/Timer.antt =====
-- skynet/skynet-src/skynet_timer.c: a timing wheel. 256 lists hold the nodes of the next ticks, and
-- four levels of 64 lists hold the others, the farther the coarser. Times are 32-bit numbers that
-- wrap. A list is linked through its nodes in the source, and is a List here; an array of lists is
-- a function of the index, which the source masks before each use.
pub mod Wheel
pub mod Place
pub mod Tick
pub mod Inv
pub mod Shift
pub mod Update
pub mod OnTime
pub mod Elapsed
mod Tests
use Prim.Native.Nat.{bit_and, bit_or}
use crynet.Prelude.{
  ℕ, zero, suc, ◌+◌, ◌-◌, ◌*◌, ◌/◌, ◌%◌, ◌^◌, List, [], ◌∷◌, ◌++◌, ltb, ◌==◌, if◌then◌else◌, update,
  map,
}
use crynet.Queue.{Message}

-- `struct timer_node` with the `struct timer_event` behind it.
pub record Node : Type 0 where
  pub expire : ℕ
  pub handle : ℕ
  pub session : ℕ

-- `struct timer` less its lock.
pub record Timer : Type 0 where
  pub near : ℕ → List Node
  pub t : ℕ → ℕ → List Node
  pub time : ℕ
  pub starttime : ℕ
  pub current : ℕ
  pub current_point : ℕ

-- One of the lists: `&T->near[j]` or `&T->t[i][j]`.
pub data Loc : Type 0 where
  near_at : ℕ → Loc
  level_at : ℕ → ℕ → Loc

abbrev pub time_near : ℕ
time_near = 2 ^ 8

abbrev pub time_level : ℕ
time_level = 2 ^ 6

pub list_at : Timer → Loc → List Node
list_at T (near_at j) = T.near j
list_at T (level_at i j) = T.t i j

pub with_list : Timer → Loc → List Node → Timer
with_list T (near_at j) l = record T { near = update T.near j l }
with_list T (level_at i j) l = record T { t = update T.t i (update (T.t i) j l) }

-- `link`: a node is put at the end.
pub link : Timer → Loc → Node → Timer
link T k node = with_list T k (list_at T k ++ node ∷ [])

-- The loop of `add_node`, by its rounds left: the first level whose mask hides the difference.
find_level : ℕ → ℕ → ℕ → ℕ → ℕ → ℕ
find_level zero i mask time current = i
find_level (suc n) i mask time current =
    let rest = find_level n (i + 1) (mask * 2 ^ 6) time current in
    if bit_or time (mask - 1) == bit_or current (mask - 1) then i else rest

-- The list that `add_node` chooses for a node that expires at `time`.
pub place : ℕ → ℕ → Loc
place current time =
    if bit_or time (time_near - 1) == bit_or current (time_near - 1)
    then near_at (bit_and time (time_near - 1))
    else (let i = find_level 3 0 (time_near * 2 ^ 6) time current in
        level_at i (bit_and (time / 2 ^ (8 + i * 6)) (time_level - 1)))

-- `add_node`
pub add_node : Timer → Node → Timer
add_node T node = link T (place T.time node.expire) node

-- `timer_add`, with the event that `skynet_timeout` hands over.
pub timer_add : Timer → ℕ → ℕ → ℕ → Timer
timer_add T handle session time =
    add_node T (record { expire = (time + T.time) % 2 ^ 32; handle = handle; session = session })

-- The loop of `move_list`.
pub add_all : List Node → Timer → Timer
add_all [] T = T
add_all (n ∷ ns) T = add_all ns (add_node T n)

-- `move_list`
pub move_list : Timer → ℕ → ℕ → Timer
move_list T level idx =
    add_all (list_at T (level_at level idx)) (with_list T (level_at level idx) [])

-- The loop of `timer_shift`, by its rounds left.
shift_loop : ℕ → ℕ → ℕ → ℕ → ℕ → Timer → Timer
shift_loop zero i mask time ct T = T
shift_loop (suc n) i mask time ct T =
    let idx = bit_and time (time_level - 1) in
    let rest = shift_loop n (i + 1) (mask * 2 ^ 6) (time / 2 ^ 6) ct T in
    if bit_and ct (mask - 1) == 0 then (if idx == 0 then rest else move_list T i idx) else T

-- `timer_shift`. A time that is not 0 has a bit in one of the four levels, so four rounds do.
pub timer_shift : Timer → Timer
timer_shift T =
    let ct = (T.time + 1) % 2 ^ 32 in
    let T' = record T { time = ct } in
    if ct == 0 then move_list T' 3 0 else shift_loop 4 0 time_near (ct / 2 ^ 8) ct T'

-- The loop of `timer_execute`, on fuel: the nodes given to `dispatch_list`, and the timer left. No
-- list is filled while the nodes are dispatched, so the second round finds the list empty.
execute_loop : ℕ → Timer → List Node × Timer
execute_loop zero T = ([], T)
execute_loop (suc fuel) T =
    let idx = bit_and T.time (time_near - 1) in
    elim (T.near idx) [
      | [] ↦ ([], T)
      | n ∷ ns ↦
          let (fired, T') = execute_loop fuel (with_list T (near_at idx) []) in
          ((n ∷ ns) ++ fired, T')
    ]

pub timer_execute : Timer → List Node × Timer
timer_execute T = execute_loop 2 T

-- `timer_update`
pub timer_update : Timer → List Node × Timer
timer_update T =
    let (first, T₁) = timer_execute T in
    let (second, T₂) = timer_execute (timer_shift T₁) in (first ++ second, T₂)

abbrev pub ptype_response : ℕ
ptype_response = 1

-- `dispatch_list`: for each node the handle and the message of `skynet_context_push`.
pub dispatch_list : List Node → List (ℕ × Message)
dispatch_list ns =
    map
      (λ n. (
        n.handle,
        record { source = 0; session = n.session; payload = 0; sz = ptype_response * 2 ^ 56 },
      ))
      ns

-- `timer_create_timer`, with the times that `skynet_timer_init` reads from the clocks.
pub create_timer : ℕ → ℕ → ℕ → Timer
create_timer starttime current point = record {
  near = λ _. [];
  t = λ _ _. [];
  time = 0;
  starttime = starttime;
  current = current;
  current_point = point;
}

-- The loop of `skynet_updatetime`, by its rounds left: all the nodes that are given, in order. Its
-- counter is an `int`, so this is the loop for less than 2 ^ 31 rounds.
pub update_loop : ℕ → Timer → List Node × Timer
update_loop zero T = ([], T)
update_loop (suc n) T =
    let (fired, T₁) = timer_update T in let (rest, T₂) = update_loop n T₁ in (fired ++ rest, T₂)

-- `skynet_updatetime`, with the time `cp` that `gettime` reads.
pub update_time : ℕ → Timer → List Node × Timer
update_time cp T =
    let diff = (cp - T.current_point) % 2 ^ 32 in
    let T' = record T { current_point = cp; current = (T.current + diff) % 2 ^ 64 } in
    let moved = update_loop diff T' in
    if ltb cp T.current_point
    then ([], record T { current_point = cp })
    else if cp == T.current_point
    then ([], T)
    else moved
