-- ===== src/Timer/Inv.antt =====
-- What holds of the wheel between two ticks, and that adding a node keeps it.
use crynet.Prelude.{
  ℕ, ◌+◌, ◌%◌, ◌^◌, ◌<◌, ◌≡◌, refl, ◌∙◌, ◌⊎◌, true, false, arith, Bool-cases, inl, inr, ◌⊎◌, ap,
}
use crynet.Timer.{
  Node, Timer, Loc, near_at, level_at, place, add_node, timer_add, create_timer, list_at,
}
use crynet.Timer.Wheel.{
  same_loc, same_loc_refl, same_node, same_node_expire, at, bit, at-add_node, time-add_node,
}
use crynet.Timer.Place.{left}

-- Every node stands in the list where `place` puts it at the time `c`.
abbrev pub IsHome : ℕ → Timer → Type 0
IsHome c T = (k : Loc) (m : Node) → same_loc (place c m.expire) k ≡ false → at T k m ≡ 0

-- How often a node waits in the wheel: it stands in one list only.
abbrev pub pending : Timer → Node → ℕ
pending T m = at T (place T.time m.expire) m

-- Every node that waits is due later than the time `c`, by less than half the range of the clock.
abbrev pub IsAhead : ℕ → Timer → Type 0
IsAhead c T =
    (m : Node)
    → (pending T m ≡ 0) ⊎ ((m.expire < 2 ^ 32) × (0 < left c m.expire) × (left c m.expire < 2 ^ 31))

pub record IsValid (T : Timer) : Type 0 where
  pub clock : T.time < 2 ^ 32
  pub homes : IsHome T.time T
  pub ahead : IsAhead T.time T

-- A new wheel is empty.
pub create_timer-IsValid :
    (starttime current point : ℕ)
    → let T = create_timer starttime current point in IsValid T × ((m : Node) → pending T m ≡ 0)
unfolding create_timer list_at
create_timer-IsValid starttime current point = (
  record {
    clock = omega arith;
    homes = λ k m apart. nothing k m;
    ahead = λ m. inl (nothing (place 0 m.expire) m);
  },
  λ m. nothing (place 0 m.expire) m,
)
  where
    nothing : (k : Loc) (m : Node) → at (create_timer starttime current point) k m ≡ 0
    nothing (near_at j) m = refl
    nothing (level_at i j) m = refl

module _ (T : Timer) (n : Node) where
  -- The list of a node that is the same as the one added is the list that it is added to.
  same_place :
      (c : ℕ) (m : Node) (k : Loc)
      → same_node m n ≡ true
      → same_loc (place c n.expire) k ≡ same_loc (place c m.expire) k
  same_place c m k e = let same = same_node_expire m n e in rw same

  pending-add_node : (m : Node) → pending (add_node T n) m ≡ pending T m + bit (same_node m n)
  pending-add_node m =
      let k = place T.time m.expire in
      ap (λ c. at (add_node T n) (place c m.expire) m) (time-add_node T n)
      ∙ (at-add_node T n k m ∙ elim (Bool-cases (same_node m n)) [
        | inl e ↦ rw (same_place T.time m k e, same_loc_refl k)
        | inr e ↦ rw e (ground arith)
      ])

  add_node-IsValid :
      IsValid T
      → n.expire < 2 ^ 32
      → 0 < left T.time n.expire
      → left T.time n.expire < 2 ^ 31
      → IsValid (add_node T n)
  add_node-IsValid v small more below = record {
    clock = rw (time-add_node T n) v.clock;
    homes = λ k m apart.
        let apart' : same_loc (place T.time m.expire) k ≡ false = rw (time-add_node T n) at apart in
        rw (at-add_node T n k m, v.homes k m apart')
          (elim (Bool-cases (same_node m n)) [
            | inl e ↦ rw (same_place T.time m k e, apart')
            | inr e ↦ rw e (ground arith)
          ]);
    ahead = λ m. elim (Bool-cases (same_node m n)) [
      | inl e ↦
          let same = same_node_expire m n e in
          inr (rw same small, rw (time-add_node T n, same) more, rw (time-add_node T n, same) below)
      | inr e ↦ elim (v.ahead m) [
        | inl none_left ↦ inl (rw (pending-add_node m, e, none_left))
        | inr (a, b, c) ↦ inr (a, rw (time-add_node T n) b, rw (time-add_node T n) c)
      ]
    ];
  }

abbrev pub node : ℕ → ℕ → ℕ → Node
node expire handle session = record { expire = expire; handle = handle; session = session }

-- A timeout of `time` ticks makes its node wait once more, to expire that many ticks from now, and
-- leaves the others as they are.
pub timer_add-IsValid :
    (T : Timer) (handle session time : ℕ)
    → IsValid T
    → 0 < time
    → time < 2 ^ 31
    → let n = node ((time + T.time) % 2 ^ 32) handle session in
      let T' = timer_add T handle session time in
      IsValid T'
      × (left T.time n.expire ≡ time)
      × (T'.time ≡ T.time)
      × ((m : Node) → pending T' m ≡ pending T m + bit (same_node m n))
unfolding timer_add
timer_add-IsValid T handle session time v pos small =
    let n = node ((time + T.time) % 2 ^ 32) handle session in
    let e : left T.time n.expire ≡ time = omega (arith, v.clock) in
    (
      add_node-IsValid T n v (omega arith) (omega arith) (omega arith),
      e,
      time-add_node T n,
      pending-add_node T n,
    )
