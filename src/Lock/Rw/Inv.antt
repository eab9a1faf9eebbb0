-- ===== src/Lock/Rw/Inv.antt =====
-- The counters of the lock count its threads, and a writer is alone.
use crynet.Prelude.{
  ℕ, ◌+◌, ◌≤◌, ◌≡◌, refl, sym, ◌∙◌, List, [], ◌∷◌, some, get_elem?, set, arith, ◌⊎◌, inl, inr,
  Bool-cases, ◌==◌, Option-cases,
}
use crynet.Lock.{total, total-set, total_le, total-repeat}
use crynet.Lock.Rw.{
  RwLock, RwPoint, idle, read_wait, read_count, read_check, read_back, reading, write_swap,
  write_drain, writing, RwThreads, RwEvent, call_rlock, call_wlock, next, rw_act, rw_step,
  read_step, write_step, rw_enter, rw_thread, rw_event, rw_run, rw_start, rwlock_init,
}

-- A thread that stands in the counter `read`.
abbrev pub counted : RwPoint → ℕ
counted read_check = 1
counted read_back = 1
counted reading = 1
counted _ = 0

-- A thread that has set `write`.
abbrev pub owning : RwPoint → ℕ
owning write_drain = 1
owning writing = 1
owning _ = 0

abbrev pub is_reading : RwPoint → ℕ
is_reading reading = 1
is_reading _ = 0

abbrev pub is_writing : RwPoint → ℕ
is_writing writing = 1
is_writing _ = 0

pub record IsGuarded (s : RwThreads) : Type 0 where
  pub readers : s.lock.read ≡ total counted s.threads
  pub owner : s.lock.write ≡ total owning s.threads
  pub one : s.lock.write ≤ 1
  pub apart : (total is_writing s.threads ≡ 0) ⊎ (total is_reading s.threads ≡ 0)

is_reading-counted : (p : RwPoint) → is_reading p ≤ counted p
is_reading-counted idle = omega arith
is_reading-counted read_wait = omega arith
is_reading-counted read_count = omega arith
is_reading-counted read_check = omega arith
is_reading-counted read_back = omega arith
is_reading-counted reading = omega arith
is_reading-counted write_swap = omega arith
is_reading-counted write_drain = omega arith
is_reading-counted writing = omega arith

is_writing-owning : (p : RwPoint) → is_writing p ≤ owning p
is_writing-owning idle = omega arith
is_writing-owning read_wait = omega arith
is_writing-owning read_count = omega arith
is_writing-owning read_check = omega arith
is_writing-owning read_back = omega arith
is_writing-owning reading = omega arith
is_writing-owning write_swap = omega arith
is_writing-owning write_drain = omega arith
is_writing-owning writing = omega arith

-- What a step of a thread has to keep: the other threads weigh `c`, `o`, `r` and `w`.
abbrev Weighs : ℕ → ℕ → ℕ → ℕ → RwPoint → RwLock → Type 0
Weighs c o r w p l =
    (l.read ≡ c + counted p)
    × (l.write ≡ o + owning p)
    × (l.write ≤ 1)
    × ((w + is_writing p ≡ 0) ⊎ (r + is_reading p ≡ 0))

module _ (c o r w : ℕ) (rc : r ≤ c) (wo : w ≤ o) where
  rw_enter-Weighs :
      (start p : RwPoint) (l : RwLock)
      → ((l : RwLock) → Weighs c o r w idle l → Weighs c o r w start l)
      → Weighs c o r w p l
      → Weighs c o r w (rw_enter start p) l
  unfolding rw_enter
  rw_enter-Weighs start idle l h k = h l k
  rw_enter-Weighs start read_wait l h k = k
  rw_enter-Weighs start read_count l h k = k
  rw_enter-Weighs start read_check l h k = k
  rw_enter-Weighs start read_back l h k = k
  rw_enter-Weighs start reading l h k = k
  rw_enter-Weighs start write_swap l h k = k
  rw_enter-Weighs start write_drain l h k = k
  rw_enter-Weighs start writing l h k = k

  rw_step-Weighs :
      (p : RwPoint) (l : RwLock)
      → Weighs c o r w p l
      → Weighs c o r w (rw_step p l).0 (rw_step p l).1
  unfolding rw_step read_step write_step
  rw_step-Weighs idle l k = k
  rw_step-Weighs read_wait l k = elim (Bool-cases (l.write == 0)) [
    | inl e ↦ rw e k
    | inr e ↦ rw e k
  ]
  rw_step-Weighs read_count l (a, b, one, apart) = (omega arith, b, one, apart)
  rw_step-Weighs read_check l (a, b, one, apart) = elim (Bool-cases (l.write == 0)) [
    | inl e ↦ rw e (a, b, one, inl (ground arith))
    | inr e ↦ rw e (a, b, one, apart)
  ]
  rw_step-Weighs read_back l (a, b, one, apart) = (omega arith, b, one, apart)
  rw_step-Weighs reading l (a, b, one, apart) =
      (omega arith, b, one, elim apart [ inl e ↦ inl e | inr e ↦ absurd (omega arith) ])
  rw_step-Weighs write_swap l (a, b, one, apart) = elim (Bool-cases (l.write == 0)) [
    | inl e ↦ rw e (a, ground arith, omega arith, apart)
    | inr e ↦ rw e (a, b, one, apart)
  ]
  rw_step-Weighs write_drain l (a, b, one, apart) = elim (Bool-cases (l.read == 0)) [
    | inl e ↦ rw e (a, b, one, inr (ground arith))
    | inr e ↦ rw e (a, b, one, apart)
  ]
  rw_step-Weighs writing l (a, b, one, apart) = (a, omega arith, omega arith, inl (omega arith))

  rw_act-Weighs :
      (e : RwEvent) (p : RwPoint) (l : RwLock)
      → Weighs c o r w p l
      → Weighs c o r w (rw_act e p l).0 (rw_act e p l).1
  unfolding rw_act
  rw_act-Weighs (call_rlock i) p l k = rw_enter-Weighs read_wait p l (λ l k. k) k
  rw_act-Weighs (call_wlock i) p l k = rw_enter-Weighs write_swap p l (λ l k. k) k
  rw_act-Weighs (next i) p l k = rw_step-Weighs p l k

-- The other threads, and what they weigh: a thread that is idle weighs nothing.
abbrev others_of : List RwPoint → ℕ → List RwPoint
others_of l i = set l i idle

total-others :
    (w : RwPoint → ℕ) (l : List RwPoint) (i : ℕ) (p p' : RwPoint)
    → w idle ≡ 0
    → get_elem? l i ≡ some p
    → (total w l ≡ total w (others_of l i) + w p)
      × (total w (set l i p') ≡ total w (others_of l i) + w p')
total-others w l i p p' nothing at =
    let gone = total-set w l i p idle at in
    let both = total-set w l i p p' at in (omega arith, omega arith)

apart_to : {a b a' b' : ℕ} → a ≡ a' → b ≡ b' → (a ≡ 0) ⊎ (b ≡ 0) → (a' ≡ 0) ⊎ (b' ≡ 0)
apart_to e f (inl h) = inl (sym e ∙ h)
apart_to e f (inr h) = inr (sym f ∙ h)

rw_event-IsGuarded : (e : RwEvent) (s : RwThreads) → IsGuarded s → IsGuarded (rw_event e s)
unfolding rw_event
rw_event-IsGuarded e s g = elim (Option-cases (get_elem? s.threads (rw_thread e))) [
  | inl none_there ↦ rw (rw_event, none_there) g
  | inr (p, at) ↦
      let i = rw_thread e in
      let p' = (rw_act e p s.lock).0 in
      let l = others_of s.threads i in
      let (c, c') = total-others counted s.threads i p p' refl at in
      let (o, o') = total-others owning s.threads i p p' refl at in
      let (r, r') = total-others is_reading s.threads i p p' refl at in
      let (w, w') = total-others is_writing s.threads i p p' refl at in
      let (readers, owner, one, apart) =
        rw_act-Weighs (total counted l) (total owning l) (total is_reading l) (total is_writing l)
          (total_le is_reading counted is_reading-counted l)
          (total_le is_writing owning is_writing-owning l) e p s.lock
          (g.readers ∙ c, g.owner ∙ o, g.one, apart_to w r g.apart) in
      rw (rw_event, at)
        (record {
          readers = readers ∙ sym c';
          owner = owner ∙ sym o';
          one = one;
          apart = apart_to (sym w') (sym r') apart;
        })
]

rw_start-IsGuarded : (n : ℕ) → IsGuarded (rw_start n)
unfolding rw_start rwlock_init
rw_start-IsGuarded n = record {
  readers = sym (total-repeat counted n idle refl);
  owner = sym (total-repeat owning n idle refl);
  one = omega arith;
  apart = inl (total-repeat is_writing n idle refl);
}

rw_run_kept : (es : List RwEvent) (s : RwThreads) → IsGuarded s → IsGuarded (rw_run es s)
unfolding rw_run
rw_run_kept [] s g = g
rw_run_kept (e ∷ es) s g = rw_run_kept es (rw_event e s) (rw_event-IsGuarded e s g)

-- In whatever order any number of threads take their steps and make their calls, from an unlocked
-- lock on: the two fields count the threads that have raised them, so none of them is lowered below
-- 0, and at most one thread has set `write`.
pub rw_run-IsGuarded : (n : ℕ) (es : List RwEvent) → IsGuarded (rw_run es (rw_start n))
rw_run-IsGuarded n es = rw_run_kept es (rw_start n) (rw_start-IsGuarded n)

-- In whatever order any number of threads take their steps and make their calls, from an unlocked
-- lock on, at most one thread is writing, and while one is, no thread is reading.
pub rw_run-excludes :
    (n : ℕ) (es : List RwEvent)
    → (total is_writing (rw_run es (rw_start n)).threads ≤ 1)
      × ((total is_writing (rw_run es (rw_start n)).threads ≡ 0)
          ⊎ (total is_reading (rw_run es (rw_start n)).threads ≡ 0))
rw_run-excludes n es =
    let g = rw_run-IsGuarded n es in
    let own = g.owner in
    let one = g.one in
    let fewer = total_le is_writing owning is_writing-owning (rw_run es (rw_start n)).threads in
    (omega arith, g.apart)
