-- ===== src/Timer/OnTime.antt =====
-- Every timeout is given at the tick for which it was set, and at no other.
use crynet.Prelude.{
  ℕ, zero, suc, ◌+◌, ◌%◌, ◌^◌, ◌<◌, ◌≡◌, ◌≢◌, ap, ◌∙◌, true, false, ◌==◌, ==-eq, ==-ne, ==_iff,
  if◌then◌else◌, arith, Bool-cases, inl, inr,
}
use mathlib.Core.Path.{ap₂}
use crynet.Timer.{Node, Timer, place, timer_execute, timer_shift, timer_update, timer_add}
use crynet.Timer.Wheel.{same_node_refl, count, count-append, at}
use crynet.Timer.Place.{left}
use crynet.Timer.Inv.{IsHome, IsValid, pending, node, timer_add-IsValid}
use crynet.Timer.Shift.{timer_shift_lem, time-timer_shift}
use crynet.Timer.Update.{timer_execute-Executed, fired_count, left_count, left_pending, Ticked}

-- A node of a wheel with the clock at `c`, by the place for that time.
at_clock : (T : Timer) (c : ℕ) (m : Node) → T.time ≡ c → pending T m ≡ at T (place c m.expire) m
at_clock T c m e = ap (λ d. at T (place d m.expire) m) e

module _ {T : Timer} (v : IsValid T) where
  -- Nothing is due at the time of the wheel itself.
  none_due : (m : Node) → (m.expire == T.time) ≡ true → pending T m ≡ 0
  none_due m e = elim (v.ahead m) [
    | inl none_left ↦ none_left
    | inr (_, some_left, _) ↦
        absurd (let same = (==_iff m.expire T.time).0 e in omega (arith, v.clock))
  ]

  idle_count : (m : Node) → count m (timer_execute T).0 ≡ 0
  idle_count m =
      fired_count T v.homes m
      ∙ elim (Bool-cases (m.expire == T.time)) [ inl e ↦ rw (e, none_due m e) | inr e ↦ rw e ]

  idle_pending : (m : Node) → pending (timer_execute T).1 m ≡ pending T m
  idle_pending m =
      at_clock (timer_execute T).1 T.time m (timer_execute-Executed T).clock
      ∙ (left_pending T v.homes m
          ∙ elim (Bool-cases (m.expire == T.time)) [ inl e ↦ rw (e, none_due m e) | inr e ↦ rw e ])

  -- So the first `timer_execute` of a tick leaves the wheel as it is.
  idle-IsValid : IsValid (timer_execute T).1
  idle-IsValid =
      let same = (timer_execute-Executed T).clock in
      record {
        clock = rw same v.clock;
        homes = λ k m apart. left_count T v.homes k m (rw same at apart);
        ahead = λ m. elim (v.ahead m) [
          | inl none_left ↦ inl (idle_pending m ∙ none_left)
          | inr (a, b, d) ↦ inr (a, rw same b, rw same d)
        ];
      }

-- The second `timer_execute` of a tick, after the clock has moved.
-- The wheel after the clock has moved, before the nodes that are due are given.
abbrev pub next_time : Timer → ℕ
next_time T = (T.time + 1) % 2 ^ 32

module _ (T : Timer) (v : IsValid T) where
  shifted_clock : (timer_shift T).time ≡ next_time T
  shifted_clock = time-timer_shift T

  shifted_homes : IsHome (timer_shift T).time (timer_shift T)
  shifted_homes k m apart = (timer_shift_lem v).0 k m (rw shifted_clock at apart)

  shifted_pending : (m : Node) → pending (timer_shift T) m ≡ pending T m
  shifted_pending m =
      at_clock (timer_shift T) (next_time T) m shifted_clock ∙ (timer_shift_lem v).1 m

  final_pending :
      (m : Node)
      → pending (timer_execute (timer_shift T)).1 m
        ≡ (if m.expire == next_time T then 0 else pending T m)
  final_pending m =
      let S = timer_shift T in
      at_clock (timer_execute S).1 S.time m (timer_execute-Executed S).clock
      ∙ (left_pending S shifted_homes m
          ∙ ap₂ (λ c n. if m.expire == c then 0 else n) shifted_clock (shifted_pending m))

  final_fired :
      (m : Node)
      → count m (timer_execute (timer_shift T)).0
        ≡ (if m.expire == next_time T then pending T m else 0)
  final_fired m =
      fired_count (timer_shift T) shifted_homes m
      ∙ ap₂ (λ c n. if m.expire == c then n else 0) shifted_clock (shifted_pending m)

  final_clock : (timer_execute (timer_shift T)).1.time ≡ next_time T
  final_clock = (timer_execute-Executed (timer_shift T)).clock ∙ shifted_clock

  -- A node that still waits is one tick nearer.
  nearer :
      (m : Node)
      → (m.expire == next_time T) ≡ false
      → m.expire < 2 ^ 32
      → 0 < left T.time m.expire
      → left T.time m.expire < 2 ^ 31
      → (0 < left (next_time T) m.expire) × (left (next_time T) m.expire < 2 ^ 31)
  nearer m e a b d =
      let apart : m.expire ≢ next_time T = λ same. cc (==-eq m.expire (next_time T) same) in
      (omega (arith, v.clock), omega (arith, v.clock))

  final-IsValid : IsValid (timer_execute (timer_shift T)).1
  final-IsValid = record {
    clock = rw final_clock (omega arith);
    homes = λ k m apart.
        left_count (timer_shift T) shifted_homes k m
          (rw (timer_execute-Executed (timer_shift T)).clock at apart);
    ahead = λ m. elim (Bool-cases (m.expire == next_time T)) [
      | inl e ↦ inl (rw (final_pending m, e))
      | inr e ↦ elim (v.ahead m) [
        | inl none_left ↦ inl (rw (final_pending m, e, none_left))
        | inr (a, b, d) ↦
            let (b', d') = nearer m e a b d in inr (a, rw final_clock b', rw final_clock d')
      ]
    ];
  }

-- A tick of a valid wheel moves its clock by one, keeps it valid, gives just the nodes that expire
-- at the new time, each as often as it waits, and keeps just the others.
pub timer_update-Ticked : {T : Timer} → IsValid T → Ticked T (timer_update T)
unfolding timer_update
timer_update-Ticked {T} v =
    let T₁ = (timer_execute T).1 in
    let v₁ = idle-IsValid v in
    let same : T₁.time ≡ T.time = (timer_execute-Executed T).clock in
    let next : next_time T₁ ≡ next_time T = rw same in
    record {
      clock = final_clock T₁ v₁ ∙ next;
      valid = final-IsValid T₁ v₁;
      fired = λ m.
          count-append m (timer_execute T).0 (timer_execute (timer_shift T₁)).0
          ∙ rw (idle_count v m, final_fired T₁ v₁ m, idle_pending v m, same) (omega arith);
      waits = λ m. final_pending T₁ v₁ m ∙ rw (idle_pending v m, same);
    }

-- The wheel after `n` ticks.
pub ticks : ℕ → Timer → Timer
ticks zero T = T
ticks (suc n) T = ticks n (timer_update T).1

pub due_one : (c e : ℕ) → c < 2 ^ 32 → e < 2 ^ 32 → (e == (c + 1) % 2 ^ 32) ≡ (left c e == 1)
due_one c e hc he = elim (Bool-cases (left c e == 1)) [
  | inl p ↦ rw p (==-eq e ((c + 1) % 2 ^ 32) (let q = (==_iff (left c e) 1).0 p in omega arith))
  | inr p ↦
      let q : left c e ≢ 1 = λ same. cc (==-eq (left c e) 1 same) in
      rw p (==-ne e ((c + 1) % 2 ^ 32) (λ same. q (omega arith)))
]

pub left_tick :
    (c e : ℕ) → c < 2 ^ 32 → e < 2 ^ 32 → 1 < left c e → left ((c + 1) % 2 ^ 32) e + 1 ≡ left c e
left_tick c e hc he h = omega arith

shift_test : (a b n : ℕ) → a + 1 ≡ b → (a == n + 1) ≡ (b == suc n + 1)
shift_test a b n h = ground arith

-- What waits is in range.
expire_small : {T : Timer} (m : Node) → IsValid T → 0 < pending T m → m.expire < 2 ^ 32
expire_small m v waits = elim (v.ahead m) [
  | inl none_left ↦ absurd (omega arith)
  | inr (a, _, _) ↦ a
]

-- A node that waits is given at the tick that its expiry names, as often as it waits, and at no
-- tick before.
pub on_time :
    (n : ℕ) (T : Timer) (m : Node)
    → IsValid T
    → 0 < pending T m
    → n < left T.time m.expire
    → count m (timer_update (ticks n T)).0
      ≡ (if left T.time m.expire == n + 1 then pending T m else 0)
unfolding ticks
on_time zero T m v waits before =
    (timer_update-Ticked v).fired m ∙ rw (due_one T.time m.expire v.clock (expire_small m v waits))
on_time (suc n) T m v waits before =
    let T' = (timer_update T).1 in
    let k = timer_update-Ticked v in
    let small = expire_small m v waits in
    let one : (left T.time m.expire == 1) ≡ false = ==-ne (left T.time m.expire) 1 (omega arith) in
    let later : (m.expire == next_time T) ≡ false = due_one T.time m.expire v.clock small ∙ one in
    let same : pending T' m ≡ pending T m = k.waits m ∙ rw later in
    let nearer : left T'.time m.expire + 1 ≡ left T.time m.expire =
      rw k.clock (left_tick T.time m.expire v.clock small (omega arith)) in
    on_time n T' m k.valid (omega arith) (omega arith)
    ∙ rw (same, shift_test (left T'.time m.expire) (left T.time m.expire) n nearer)

-- A timeout that is set for `time` ticks is given at the tick of that number, and at no tick
-- before, whatever else waits in the wheel.
pub timeout_on_time :
    (n : ℕ) (T : Timer) (handle session time : ℕ)
    → IsValid T
    → 0 < time
    → time < 2 ^ 31
    → n < time
    → let m = node ((time + T.time) % 2 ^ 32) handle session in
      count m (timer_update (ticks n (timer_add T handle session time))).0
      ≡ (if time == n + 1 then pending T m + 1 else 0)
timeout_on_time n T handle session time v pos small before =
    let m = node ((time + T.time) % 2 ^ 32) handle session in
    let T' = timer_add T handle session time in
    let (v', due, clock, waits) = timer_add-IsValid T handle session time v pos small in
    let here : pending T' m ≡ pending T m + 1 = waits m ∙ rw (same_node_refl m) in
    let due' : left T'.time m.expire ≡ time = rw clock due in
    on_time n T' m v' (omega arith) (omega arith) ∙ rw (due', here)
