-- ===== src/Timer/Elapsed.antt =====
-- `skynet_updatetime`: the wheel follows the clock, and gives what has become due.
use crynet.Prelude.{
  ℕ, zero, suc, ◌+◌, ◌-◌, ◌%◌, ◌^◌, ◌≤◌, ◌<◌, ◌≡◌, refl, ◌∙◌, ◌⊎◌, false, leb, ltb, ◌==◌,
  if◌then◌else◌, arith, Bool-cases, inl, inr, List, [], Bool, lt→ltb,
}
use crynet.Timer.{
  Loc, near_at, level_at, place, Node, Timer, timer_update, update_loop, update_time, list_at,
}
use crynet.Timer.Wheel.{at, count, count-append}
use crynet.Timer.Place.{left}
use crynet.Timer.Inv.{IsValid, pending}
use crynet.Timer.OnTime.{timer_update-Ticked, next_time, due_one}

-- What `n` ticks do to a valid wheel: they move its clock, give each node that is due within them
-- as often as it waits, and keep the others.
pub record Advanced (n : ℕ) (T : Timer) (out : List Node × Timer) : Type 0 where
  pub clock : out.1.time ≡ (T.time + n) % 2 ^ 32
  pub valid : IsValid out.1
  pub fired : (m : Node) → count m out.0 ≡ (if leb (left T.time m.expire) n then pending T m else 0)
  pub waits :
      (m : Node) → pending out.1 m ≡ (if leb (left T.time m.expire) n then 0 else pending T m)

-- The first tick and the ones after it, for a node with `p` waiting that has `l` ticks left.
split_fired :
    (l p n : ℕ)
    → (p ≡ 0) ⊎ (0 < l)
    → (if l == 1 then p else 0) + (if leb (l - 1) n then (if l == 1 then 0 else p) else 0)
      ≡ (if leb l (suc n) then p else 0)
split_fired l p n h = ground arith

split_waits :
    (l p n : ℕ)
    → (p ≡ 0) ⊎ (0 < l)
    → (if leb (l - 1) n then 0 else (if l == 1 then 0 else p)) ≡ (if leb l (suc n) then 0 else p)
split_waits l p n h = ground arith

split_none :
    (b d e : Bool) (p : ℕ)
    → p ≡ 0
    → ((if b then p else 0) + (if d then (if b then 0 else p) else 0) ≡ (if e then p else 0))
      × ((if d then 0 else (if b then 0 else p)) ≡ (if e then 0 else p))
split_none b d e p h = ground arith

-- One tick, seen by the ticks that are left to each node.
tick_fired :
    {T : Timer} (v : IsValid T) (m : Node)
    → (pending T m ≡ 0)
      ⊎ ((0 < left T.time m.expire)
          × ((m.expire == next_time T) ≡ (left T.time m.expire == 1))
          × (left (next_time T) m.expire ≡ left T.time m.expire - 1))
tick_fired {T} v m = elim (v.ahead m) [
  | inl none_left ↦ inl none_left
  | inr (a, b, _) ↦ inr (b, due_one T.time m.expire v.clock a, omega (arith, v.clock))
]

pub update_loop-Advanced : (n : ℕ) (T : Timer) → IsValid T → Advanced n T (update_loop n T)
unfolding update_loop
update_loop-Advanced zero T v = record {
  clock = omega (arith, v.clock);
  valid = v;
  fired = λ m. elim (tick_fired v m) [
    | inl none_left ↦ rw none_left (ground arith)
    | inr (more, _, _) ↦ ground arith
  ];
  waits = λ m. elim (tick_fired v m) [
    | inl none_left ↦ rw none_left (ground arith)
    | inr (more, _, _) ↦ ground arith
  ];
}
update_loop-Advanced (suc n) T v =
    let T₁ = (timer_update T).1 in
    let k = timer_update-Ticked v in
    let a = update_loop-Advanced n T₁ k.valid in
    record {
      clock = a.clock ∙ rw k.clock (omega arith);
      valid = a.valid;
      fired = λ m.
          count-append m (timer_update T).0 (update_loop n T₁).0
          ∙ rw (k.fired m, a.fired m, k.waits m, k.clock)
              (elim (tick_fired v m) [
                | inl none_left ↦
                    (split_none (m.expire == next_time T) (leb (left (next_time T) m.expire) n)
                      (leb (left T.time m.expire) (suc n)) (pending T m) none_left).0
                | inr (more, due, nearer) ↦
                    rw (due, nearer) (split_fired (left T.time m.expire) (pending T m) n (inr more))
              ]);
      waits = λ m.
          a.waits m
          ∙ rw (k.waits m, k.clock)
              (elim (tick_fired v m) [
                | inl none_left ↦
                    (split_none (m.expire == next_time T) (leb (left (next_time T) m.expire) n)
                      (leb (left T.time m.expire) (suc n)) (pending T m) none_left).1
                | inr (more, due, nearer) ↦
                    rw (due, nearer) (split_waits (left T.time m.expire) (pending T m) n (inr more))
              ]);
    }

-- The counters of `skynet_now` and `gettime` are no part of the wheel.
abbrev with_now : Timer → ℕ → ℕ → Timer
with_now T point now = record T { current_point = point; current = now }

at-with_now :
    (T : Timer) (point now : ℕ) (k : Loc) (m : Node) → at (with_now T point now) k m ≡ at T k m
unfolding list_at
at-with_now T point now (near_at j) m = refl
at-with_now T point now (level_at i j) m = refl

with_now-IsValid : (T : Timer) (point now : ℕ) → IsValid T → IsValid (with_now T point now)
with_now-IsValid T point now v = record {
  clock = v.clock;
  homes = λ k m apart. at-with_now T point now k m ∙ v.homes k m apart;
  ahead = λ m. elim (v.ahead m) [
    | inl none_left ↦ inl (at-with_now T point now (place T.time m.expire) m ∙ none_left)
    | inr b ↦ inr b
  ];
}

-- When the clock reads `cp`, less than 2^31 ticks after it was read before, `skynet_updatetime` runs
-- one tick for each that has passed: exactly the nodes that became due meanwhile are given.
pub update_time-Advanced :
    (cp : ℕ) {T : Timer}
    → IsValid T
    → T.current_point ≤ cp
    → cp < T.current_point + 2 ^ 31
    → Advanced (cp - T.current_point) T (update_time cp T)
unfolding update_time
update_time-Advanced cp {T} v after near =
    let n = cp - T.current_point in
    let diff : n % 2 ^ 32 ≡ n = omega arith in
    let back : ltb cp T.current_point ≡ false = ground arith in
    elim (Bool-cases (cp == T.current_point)) [
      | inl e ↦
          let zero_ticks : n ≡ 0 = ground (arith, e) in
          rw (back, e, zero_ticks) (unfold update_loop in update_loop-Advanced 0 T v)
      | inr e ↦
          let now = (T.current + n) % 2 ^ 64 in
          let T' = with_now T cp now in
          let a = update_loop-Advanced n T' (with_now-IsValid T cp now v) in
          rw (back, e, diff)
            (record {
              clock = a.clock;
              valid = a.valid;
              fired = λ m. a.fired m ∙ rw (at-with_now T cp now (place T.time m.expire) m);
              waits = λ m. a.waits m ∙ rw (at-with_now T cp now (place T.time m.expire) m);
            })
    ]

-- When the clock reads less than before, nothing is given and the wheel stays; only the reading is
-- stored.
pub update_time_back :
    (cp : ℕ) (T : Timer)
    → cp < T.current_point
    → update_time cp T ≡ ([], record T { current_point = cp })
unfolding update_time
update_time_back cp T h = rw (lt→ltb cp T.current_point h)
