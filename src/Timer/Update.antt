-- ===== src/Timer/Update.antt =====
-- `timer_execute` and `timer_update`: a tick gives exactly the nodes that are due.
use crynet.Prelude.{
  ℕ, zero, suc, ◌+◌, ◌/◌, ◌%◌, ◌^◌, ◌≡◌, ◌≢◌, refl, ap, ◌∙◌, true, false, ◌==◌, ==-eq, ==-ne,
  if◌then◌else◌, arith, Bool-cases, inl, inr, List, [], ◌∷◌, ◌++◌, ==_iff, sym, update_self,
}
use crynet.Prelude.Bits.{bit_and_mask}
use crynet.Timer.{
  Node, Timer, Loc, near_at, level_at, place, list_at, with_list, execute_loop, timer_execute,
}
use crynet.Timer.Wheel.{
  same_loc, same_loc_eq, same_loc_refl, same_loc_symm, count, at, at-clear, time-with_list,
}
use crynet.Timer.Place.{place-eq-home}
use crynet.Timer.Inv.{IsHome, IsValid, pending}
use mathlib.Core.List.{append-nil}

-- The list of the nodes that are due now.
abbrev pub due_at : ℕ → Loc
due_at c = near_at (c % 2 ^ 8)

place-due : (c : ℕ) → place c c ≡ due_at c
place-due c = rw (place-eq-home c c, ==-eq (c / 2 ^ 8) (c / 2 ^ 8) refl)

near_eq : (e c : ℕ) → (e / 2 ^ 8 == c / 2 ^ 8) ≡ true → e % 2 ^ 8 ≡ c % 2 ^ 8 → e ≡ c
near_eq e c p same = let q = (==_iff (e / 2 ^ 8) (c / 2 ^ 8)).0 p in omega arith

level_apart :
    (e c : ℕ)
    → same_loc
        (if e / 2 ^ 14 == c / 2 ^ 14
          then level_at 0 (e / 2 ^ 8 % 2 ^ 6)
          else if e / 2 ^ 20 == c / 2 ^ 20
          then level_at 1 (e / 2 ^ 14 % 2 ^ 6)
          else if e / 2 ^ 26 == c / 2 ^ 26
          then level_at 2 (e / 2 ^ 20 % 2 ^ 6)
          else level_at 3 (e / 2 ^ 26 % 2 ^ 6))
        (due_at c)
      ≡ false
level_apart e c = elim (Bool-cases (e / 2 ^ 14 == c / 2 ^ 14)) [
  | inl p ↦ rw p
  | inr p ↦ rw p (elim (Bool-cases (e / 2 ^ 20 == c / 2 ^ 20)) [
    | inl q ↦ rw q
    | inr q ↦ rw q (elim (Bool-cases (e / 2 ^ 26 == c / 2 ^ 26)) [ inl r ↦ rw r | inr r ↦ rw r ])
  ])
]

due-place : (c e : ℕ) → e ≢ c → same_loc (place c e) (due_at c) ≡ false
due-place c e apart = rw (place-eq-home c e) (elim (Bool-cases (e / 2 ^ 8 == c / 2 ^ 8)) [
  | inl p ↦ rw p (==-ne (e % 2 ^ 8) (c % 2 ^ 8) (λ same. apart (near_eq e c p same)))
  | inr p ↦ rw p (level_apart e c)
])

pub record Executed (T : Timer) (out : List Node × Timer) : Type 0 where
  pub gives : out.0 ≡ list_at T (due_at T.time)
  pub clears :
      (k : Loc) (m : Node) → at out.1 k m ≡ (if same_loc (due_at T.time) k then 0 else at T k m)
  pub clock : out.1.time ≡ T.time

execute_nil : (fuel : ℕ) (T : Timer) → T.near (T.time % 2 ^ 8) ≡ [] → execute_loop fuel T ≡ ([], T)
unfolding execute_loop
execute_nil zero T e = refl
execute_nil (suc fuel) T e = rw (bit_and_mask 8 T.time, e, execute_loop)

execute_cons :
    (fuel : ℕ) (T : Timer) (n : Node) (ns : List Node)
    → T.near (T.time % 2 ^ 8) ≡ n ∷ ns
    → let (fired, T') = execute_loop fuel (with_list T (due_at T.time) []) in
      execute_loop (suc fuel) T ≡ ((n ∷ ns) ++ fired, T')
unfolding execute_loop
execute_cons fuel T n ns e =
    rw (bit_and_mask 8 T.time, e, execute_loop) (rw (bit_and_mask 8 T.time))

cleared_near :
    (T : Timer) → let T' = with_list T (due_at T.time) [] in T'.near (T'.time % 2 ^ 8) ≡ []
unfolding with_list
cleared_near T = update_self T.near (T.time % 2 ^ 8) []

-- What `timer_execute` does: it gives the nodes of one list, in their order, and clears it.
pub timer_execute-Executed : (T : Timer) → Executed T (timer_execute T)
unfolding timer_execute list_at
timer_execute-Executed T = go (T.near (T.time % 2 ^ 8)) refl
  where
    go : (l : List Node) → T.near (T.time % 2 ^ 8) ≡ l → Executed T (execute_loop 2 T)
    go [] e = rw (execute_nil 2 T e) (record {
      gives = sym e;
      clears = λ k m. elim (Bool-cases (same_loc (due_at T.time) k)) [
        | inr f ↦ rw f
        | inl f ↦ rw (f, ← same_loc_eq (due_at T.time) k f, e)
      ];
      clock = refl;
    })
    go (n ∷ ns) e =
        let T₁ = with_list T (due_at T.time) [] in
        rw (execute_cons 1 T n ns e, execute_nil 1 T₁ (cleared_near T))
          (record {
            gives = append-nil (n ∷ ns) ∙ sym e;
            clears = λ k m. at-clear T (due_at T.time) k m;
            clock = time-with_list T (due_at T.time) [];
          })

-- The nodes that are due are given, and no others; the others stay.
module _ (T : Timer) (homes : IsHome T.time T) where
  due_pending : (m : Node) → m.expire ≡ T.time → pending T m ≡ at T (due_at T.time) m
  due_pending m same = ap (λ k. at T k m) (ap (place T.time) same ∙ place-due T.time)

  not_due :
      (m : Node)
      → (m.expire == T.time) ≡ false
      → same_loc (place T.time m.expire) (due_at T.time) ≡ false
  not_due m e = due-place T.time m.expire (λ same. cc (==-eq m.expire T.time same))

  pub fired_count :
      (m : Node) → count m (timer_execute T).0 ≡ (if m.expire == T.time then pending T m else 0)
  fired_count m = rw (timer_execute-Executed T).gives (elim (Bool-cases (m.expire == T.time)) [
    | inl e ↦ rw e (sym (due_pending m ((==_iff m.expire T.time).0 e)))
    | inr e ↦ rw e (homes (due_at T.time) m (not_due m e))
  ])

  pub left_count :
      (k : Loc) (m : Node)
      → same_loc (place T.time m.expire) k ≡ false
      → at (timer_execute T).1 k m ≡ 0
  left_count k m apart = rw ((timer_execute-Executed T).clears k m, homes k m apart) (ground arith)

  pub left_pending :
      (m : Node)
      → at (timer_execute T).1 (place T.time m.expire) m
        ≡ (if m.expire == T.time then 0 else pending T m)
  left_pending m =
      let p = place T.time m.expire in
      rw ((timer_execute-Executed T).clears p m) (elim (Bool-cases (m.expire == T.time)) [
        | inl e ↦
            let same : p ≡ due_at T.time =
              ap (place T.time) ((==_iff m.expire T.time).0 e) ∙ place-due T.time in
            rw (e, same, same_loc_refl (due_at T.time))
        | inr e ↦
            let out : same_loc (due_at T.time) p ≡ false =
              same_loc_symm (due_at T.time) p ∙ not_due m e in
            rw (e, out)
      ])

-- What `timer_update` promises, for the wheel before it and what it returns.
pub record Ticked (T : Timer) (out : List Node × Timer) : Type 0 where
  pub clock : out.1.time ≡ (T.time + 1) % 2 ^ 32
  pub valid : IsValid out.1
  -- just the nodes that expire at the new time are given
  pub fired :
      (m : Node) → count m out.0 ≡ (if m.expire == (T.time + 1) % 2 ^ 32 then pending T m else 0)
  -- and just the others wait on
  pub waits :
      (m : Node) → pending out.1 m ≡ (if m.expire == (T.time + 1) % 2 ^ 32 then 0 else pending T m)
