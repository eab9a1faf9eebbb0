-- ===== src/Timer/Shift.antt =====
-- `timer_shift`: the clock ticks, and the nodes of one list are put where they belong now.
use crynet.Prelude.{
  ℕ, ◌+◌, ◌/◌, ◌%◌, ◌^◌, ◌<◌, ◌≡◌, refl, ◌∙◌, ◌⊎◌, true, false, ◌==◌, if◌then◌else◌, arith,
  Bool-cases, inl, inr, Option, some, none, [], ◌∙◌,
}
use mathlib.Core.Path.{ap₂}
use crynet.Prelude.Bits.{bit_and_mask}
use crynet.Timer.{
  Node, Timer, Loc, near_at, level_at, place, list_at, with_list, add_all, move_list, timer_shift,
  shift_loop, time_near,
}
use crynet.Timer.Wheel.{
  same_loc, same_loc_eq, same_loc_refl, same_loc_symm, at-clear, time-with_list, at, at-add_all,
  time-add_all,
}
use crynet.Timer.Place.{home, target, is_target, place-eq-home}
use crynet.Timer.Tick.{home_tick}
use crynet.Timer.Inv.{IsHome, IsValid, pending}

-- The nodes of a list are taken out and added again.
spread : Timer → Option Loc → Timer
spread T none = T
spread T (some k) = add_all (list_at T k) (with_list T k [])

abbrev tick : Timer → Timer
tick T = record T { time = (T.time + 1) % 2 ^ 32 }

abbrev moved : ℕ → Timer → Timer
moved ct T = if ct == 0 then move_list T 3 0 else shift_loop 4 0 time_near (ct / 2 ^ 8) ct T

-- The loop finds the list that `target` names.
moved-eq-spread : (ct : ℕ) (T : Timer) → ct < 2 ^ 32 → moved ct T ≡ spread T (target ct)
unfolding shift_loop spread move_list
moved-eq-spread ct T lt =
    let d14 : ct / 2 ^ 8 / 2 ^ 6 ≡ ct / 2 ^ 14 = omega arith in
    let d20 : ct / 2 ^ 14 / 2 ^ 6 ≡ ct / 2 ^ 20 = omega arith in
    let d26 : ct / 2 ^ 20 / 2 ^ 6 ≡ ct / 2 ^ 26 = omega arith in
    rw
      (
        bit_and_mask 8 ct,
        bit_and_mask 14 ct,
        bit_and_mask 20 ct,
        bit_and_mask 26 ct,
        d14,
        d20,
        d26,
        bit_and_mask 6 (ct / 2 ^ 8),
        bit_and_mask 6 (ct / 2 ^ 14),
        bit_and_mask 6 (ct / 2 ^ 20),
        bit_and_mask 6 (ct / 2 ^ 26),
      )
      (elim (Bool-cases (ct == 0)) [
        | inl e ↦ rw e
        | inr e ↦ rw e (elim (Bool-cases (ct % 2 ^ 8 == 0)) [
          | inr e8 ↦ rw e8
          | inl e8 ↦ rw e8 (elim (Bool-cases (ct / 2 ^ 8 % 2 ^ 6 == 0)) [
            | inr f8 ↦ rw f8
            | inl f8 ↦
                let e14 : (ct % 2 ^ 14 == 0) ≡ true = ground arith in
                rw (f8, e14)
                  (elim (Bool-cases (ct / 2 ^ 14 % 2 ^ 6 == 0)) [
                    | inr f14 ↦ rw f14
                    | inl f14 ↦
                        let e20 : (ct % 2 ^ 20 == 0) ≡ true = ground arith in
                        rw (f14, e20)
                          (elim (Bool-cases (ct / 2 ^ 20 % 2 ^ 6 == 0)) [
                            | inr f20 ↦ rw f20
                            | inl f20 ↦
                                let e26 : (ct % 2 ^ 26 == 0) ≡ true = ground arith in
                                let f26 : (ct / 2 ^ 26 % 2 ^ 6 == 0) ≡ false = ground arith in
                                rw (f20, e26, f26)
                          ])
                  ])
          ])
        ])
      ])

timer_shift-eq-spread : (T : Timer) → timer_shift T ≡ spread (tick T) (target (tick T).time)
unfolding timer_shift
timer_shift-eq-spread T = moved-eq-spread ((T.time + 1) % 2 ^ 32) (tick T) (omega arith)

at-tick : (T : Timer) (k : Loc) (m : Node) → at (tick T) k m ≡ at T k m
unfolding list_at
at-tick T (near_at j) m = refl
at-tick T (level_at i j) m = refl

-- How often a node stands in the list that is spread.
abbrev taken : Timer → Option Loc → Node → ℕ
taken T none m = 0
taken T (some k) m = at T k m

at-spread :
    (T : Timer) (o : Option Loc) (k : Loc) (m : Node)
    → at (spread T o) k m
      ≡ (if is_target o k then 0 else at T k m)
        + (if same_loc (place T.time m.expire) k then taken T o m else 0)
unfolding spread
at-spread T none k m = ground arith
at-spread T (some l) k m =
    at-add_all (list_at T l) (with_list T l []) k m
    ∙ ap₂ (λ a c. a + (if same_loc (place c m.expire) k then at T l m else 0)) (at-clear T l k m)
        (time-with_list T l [])

-- The same of the wheel whose clock has ticked.
at-shifted :
    (T : Timer) (k : Loc) (m : Node)
    → at (timer_shift T) k m
      ≡ (if is_target (target (tick T).time) k then 0 else at T k m)
        + (if same_loc (place (tick T).time m.expire) k
            then taken T (target (tick T).time) m
            else 0)
at-shifted T k m =
    rw (timer_shift-eq-spread T, at-spread (tick T) (target (tick T).time) k m, at-tick T k m)
      (taken-tick (target (tick T).time))
  where
    taken-tick :
        (o : Option Loc)
        → (if is_target (target (tick T).time) k then 0 else at T k m)
            + (if same_loc (place (tick T).time m.expire) k then taken (tick T) o m else 0)
          ≡ (if is_target (target (tick T).time) k then 0 else at T k m)
            + (if same_loc (place (tick T).time m.expire) k then taken T o m else 0)
    taken-tick none = refl
    taken-tick (some l) = rw (at-tick T l m)

pub time-timer_shift : (T : Timer) → (timer_shift T).time ≡ (T.time + 1) % 2 ^ 32
unfolding spread
time-timer_shift T = rw (timer_shift-eq-spread T) (time-spread (target (tick T).time))
  where
    time-spread : (o : Option Loc) → (spread (tick T) o).time ≡ (T.time + 1) % 2 ^ 32
    time-spread none = refl
    time-spread (some l) =
        time-add_all (list_at (tick T) l) (with_list (tick T) l []) ∙ time-with_list (tick T) l []

module _ {T : Timer} (v : IsValid T) (m : Node) where
  -- The place of a node that waits, after the tick: the same, unless its list is spread.
  stays :
      is_target (target (tick T).time) (place T.time m.expire) ≡ false
      → (pending T m ≡ 0) ⊎ (place (tick T).time m.expire ≡ place T.time m.expire)
  stays apart = elim (v.ahead m) [
    | inl none_left ↦ inl none_left
    | inr (a, b, d) ↦
        let c = T.time in
        let ct = (c + 1) % 2 ^ 32 in
        let apart' : is_target (target ct) (home c m.expire) ≡ false =
          rw (place-eq-home c m.expire) at apart in
        inr (
          rw (place-eq-home ct m.expire, place-eq-home c m.expire)
            (home_tick c m.expire ct v.clock a b d refl apart'))
  ]

  -- A list other than the node's own does not hold it.
  elsewhere : (k : Loc) → same_loc (place T.time m.expire) k ≡ false → at T k m ≡ 0
  elsewhere k = v.homes k m

  is_target-same :
      (o : Option Loc) (k l : Loc) → same_loc k l ≡ true → is_target o k ≡ is_target o l
  is_target-same o k l e = rw (same_loc_eq k l e)

  kept_home :
      (k : Loc)
      → same_loc (place (tick T).time m.expire) k ≡ false
      → (if is_target (target (tick T).time) k then 0 else at T k m) ≡ 0
  kept_home k apart =
      let o = target (tick T).time in
      let p = place T.time m.expire in
      elim (Bool-cases (is_target o k)) [
        | inl e ↦ rw e
        | inr e ↦ rw e (elim (Bool-cases (same_loc p k)) [
          | inr f ↦ elsewhere k f
          | inl f ↦
              let here : p ≡ k = same_loc_eq p k f in
              elim (stays (rw here e)) [
                | inl none_left ↦ rw (← here) none_left
                | inr stay ↦ let no : same_loc p k ≡ false = rw stay at apart in cc
              ]
        ])
      ]

  -- After the tick the node's place holds no node that does not wait.
  new_empty : pending T m ≡ 0 → at T (place (tick T).time m.expire) m ≡ 0
  new_empty none_left =
      let p = place T.time m.expire in
      let p' = place (tick T).time m.expire in
      elim (Bool-cases (same_loc p p')) [
        | inl f ↦ let here : p ≡ p' = same_loc_eq p p' f in rw (← here) none_left
        | inr f ↦ elsewhere p' f
      ]

  kept_pending :
      (o : Option Loc)
      → o ≡ target (tick T).time
      → (if is_target o (place (tick T).time m.expire)
            then 0
            else at T (place (tick T).time m.expire) m)
          + taken T o m
        ≡ pending T m
  kept_pending none e =
      let p = place T.time m.expire in
      let apart : is_target (target (tick T).time) p ≡ false = rw (← e) in
      elim (stays apart) [
        | inl none_left ↦ rw (new_empty none_left, none_left)
        | inr stay ↦ rw stay (omega arith)
      ]
  kept_pending (some l) e =
      let p = place T.time m.expire in
      let p' = place (tick T).time m.expire in
      elim (Bool-cases (same_loc l p)) [
        | inl f ↦
            let here : l ≡ p = same_loc_eq l p f in
            elim (Bool-cases (same_loc l p')) [
              | inl g ↦ rw (g, here) (omega arith)
              | inr g ↦
                  let g' : same_loc p p' ≡ false = rw here at g in
                  rw (g, elsewhere p' g', here) (omega arith)
            ]
        | inr f ↦
            let out : at T l m ≡ 0 = elsewhere l (same_loc_symm p l ∙ f) in
            let apart : is_target (target (tick T).time) p ≡ false = rw (← e) f in
            elim (stays apart) [
              | inr stay ↦ rw (stay, f, out) (omega arith)
              | inl none_left ↦ rw (new_empty none_left, out, none_left) (ground arith)
            ]
      ]

-- A tick keeps every node that waits, and puts each where it belongs at the new time.
pub timer_shift_lem :
    {T : Timer} (v : IsValid T)
    → IsHome ((T.time + 1) % 2 ^ 32) (timer_shift T)
      × ((m : Node) → at (timer_shift T) (place ((T.time + 1) % 2 ^ 32) m.expire) m ≡ pending T m)
timer_shift_lem {T} v = (
  λ k m apart. rw (at-shifted T k m, kept_home v m k apart, apart),
  λ m.
      let p' = place (tick T).time m.expire in
      rw (at-shifted T p' m, same_loc_refl p') (kept_pending v m (target (tick T).time) refl),
)
