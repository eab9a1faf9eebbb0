-- ===== src/Queue/Overload.antt =====
-- The overload mark of a queue: when `skynet_mq_pop` sets it, and that its loop ends.
use crynet.Prelude.{
  ℕ, zero, suc, ◌+◌, ◌*◌, ◌^◌, ◌≤◌, ◌<◌, ◌≡◌, ◌≢◌, refl, ◌∙◌, List, ◌∷◌, arith, ltb, length,
  Bool-cases, inl, inr, ◌⊎◌, ==-ne, ltb→lt,
}
use crynet.Queue.{Message, MessageQueue, length_of, pop, raise, next_index, take_overload}
use crynet.Queue.Valid.{Holds, raised, length_of-step}
use mathlib.Core.Path.{subst}
use native.Mathlib.Nat.{pow-suc, mul_assoc, mul_comm}

-- The mark and the threshold `o'`, `t'` that the loop leaves for a length `n`, started at `o`, `t`:
-- nothing is changed up to the threshold; above it the length is marked, and the threshold is
-- doubled just as often as it takes to reach the length.
abbrev pub Marked : ℕ → ℕ → ℕ → ℕ → ℕ → Type 0
Marked n o t o' t' =
    ((n ≤ t) × (o' ≡ o) × (t' ≡ t))
    ⊎ ((t < n) × (o' ≡ n) × (n ≤ t') × (t' < 2 * n) × ((k : ℕ) × (t' ≡ t * 2 ^ k)))

-- One more doubling in front.
doubled :
    (n t o' t' : ℕ)
    → t < n
    → Marked n n (t * 2) o' t'
    → (t < n) × (o' ≡ n) × (n ≤ t') × (t' < 2 * n) × ((k : ℕ) × (t' ≡ t * 2 ^ k))
doubled n t o' t' lt (inl (up, e, f)) = (lt, e, omega arith, omega arith, (1, omega arith))
doubled n t o' t' lt (inr (_, e, up, close, (k, f))) =
    (lt, e, up, close, (suc k, f ∙ rw (mul_assoc t 2 (2 ^ k), pow-suc 2 k, mul_comm 2 (2 ^ k))))

raise-Marked :
    (fuel n : ℕ) (q : MessageQueue)
    → 0 < q.overload_threshold
    → n < q.overload_threshold + fuel
    → let r = raise fuel n q in
      Marked n q.overload q.overload_threshold r.overload r.overload_threshold
unfolding raise
raise-Marked zero n q pos enough = inl (omega arith, refl, refl)
raise-Marked (suc fuel) n q pos enough =
    let t = q.overload_threshold in
    elim (Bool-cases (ltb t n)) [
      | inr e ↦ rw (e, raise) (inl (ground arith, refl, refl))
      | inl e ↦
          let lt : t < n = ltb→lt t n e in
          rw (e, raise)
            (inr
              (doubled n t _ _ lt (raise-Marked fuel n (raised n q) (omega arith) (omega arith))))
    ]

-- Popping the oldest message, with a positive threshold: while the messages left are not above the
-- threshold, the mark and the threshold stay; above it their number is marked, and the threshold is
-- doubled just as often as it takes to reach it.
pub pop-Marked :
    {q : MessageQueue} {m : Message} {ms : List Message}
    → Holds q (m ∷ ms)
    → 0 < q.overload_threshold
    → let r = (pop q).2 in
      Marked (length ms) q.overload q.overload_threshold r.overload r.overload_threshold
unfolding pop
pop-Marked {q} {m} {ms} h pos =
    let head = next_index q.head q.cap in
    let n = length_of head q.tail q.cap in
    let e : n ≡ length ms = length_of-step h in
    let ne : q.head ≢ q.tail = ground (arith, h.tail_at, h.room, h.head_in) in
    let r = raise n n (record q { head = head }) in
    let done : Marked n q.overload q.overload_threshold r.overload r.overload_threshold =
      raise-Marked n n (record q { head = head }) pos (omega arith) in
    rw (==-ne q.head q.tail ne)
      (subst (λ k. Marked k q.overload q.overload_threshold r.overload r.overload_threshold) e done)

-- The mark is read once: `skynet_mq_overload` returns it, and a second call returns 0.
pub take_overload_once :
    (q : MessageQueue)
    → let (o, q') = take_overload q in
      (o ≡ q.overload) × ((take_overload q').0 ≡ 0) × (q' ≡ record q { overload = 0 })
unfolding take_overload
take_overload_once q = ground arith
