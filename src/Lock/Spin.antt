-- ===== src/Lock/Spin.antt =====
-- skynet/skynet-src/spinlock.h, the variant on standard atomic operations: where a thread stands, its steps,
-- and that one thread at most has the lock.
use crynet.Prelude.{
  ℕ, ◌+◌, ◌≤◌, ◌≡◌, refl, sym, ◌==◌, List, [], ◌∷◌, some, none, get_elem?, set, if◌then◌else◌,
  arith, inl, inr, Bool-cases, Option-cases,
}
use crynet.Lock.{repeat, total, total-set, total-repeat}

pub data SpinPoint : Type 0 where
  idle : SpinPoint
  -- `spinlock_lock`: before the exchange, and before the relaxed load
  lock_swap : SpinPoint
  lock_look : SpinPoint
  -- `spinlock_trylock`: before the load, and before the exchange
  try_look : SpinPoint
  try_swap : SpinPoint
  holding : SpinPoint

-- `spinlock_init`
pub spinlock_init : ℕ
spinlock_init = 0

-- The next atomic operation of a thread: one of `spinlock_lock` or `spinlock_trylock`, where a try that
-- fails goes back without the lock, or `spinlock_unlock`. An exchange stores 1 in any case.
pub spin_step : SpinPoint → ℕ → SpinPoint × ℕ
spin_step idle lock = (idle, lock)
spin_step lock_swap lock = (if lock == 0 then holding else lock_look, 1)
spin_step lock_look lock = (if lock == 0 then lock_swap else lock_look, lock)
spin_step try_look lock = (if lock == 0 then try_swap else idle, lock)
spin_step try_swap lock = (if lock == 0 then holding else idle, 1)
spin_step holding lock = (idle, 0)

-- A thread that is idle calls `spinlock_lock` or `spinlock_trylock`, or a thread takes its next step.
pub data SpinEvent : Type 0 where
  call_lock : (thread : ℕ) → SpinEvent
  call_trylock : (thread : ℕ) → SpinEvent
  next : (thread : ℕ) → SpinEvent

pub spin_thread : SpinEvent → ℕ
spin_thread (call_lock i) = i
spin_thread (call_trylock i) = i
spin_thread (next i) = i

pub spin_act : SpinEvent → SpinPoint → ℕ → SpinPoint × ℕ
spin_act (call_lock i) idle lock = (lock_swap, lock)
spin_act (call_trylock i) idle lock = (try_look, lock)
spin_act (next i) p lock = spin_step p lock
spin_act _ p lock = (p, lock)

pub record SpinThreads : Type 0 where
  pub lock : ℕ
  pub threads : List SpinPoint

pub spin_event : SpinEvent → SpinThreads → SpinThreads
spin_event e s = elim (get_elem? s.threads (spin_thread e)) [
  | none ↦ s
  | some p ↦
      let (p', lock') = spin_act e p s.lock in
      record { lock = lock'; threads = set s.threads (spin_thread e) p' }
]

pub spin_run : List SpinEvent → SpinThreads → SpinThreads
spin_run [] s = s
spin_run (e ∷ es) s = spin_run es (spin_event e s)

pub spin_start : ℕ → SpinThreads
spin_start n = record { lock = spinlock_init; threads = repeat n idle }

abbrev pub is_holding : SpinPoint → ℕ
is_holding holding = 1
is_holding _ = 0

-- The lock is 1 for the thread that has it.
abbrev Held : ℕ → SpinPoint → ℕ → Type 0
Held rest p lock = (lock ≡ rest + is_holding p) × (lock ≤ 1)

spin_step-Held :
    (rest : ℕ) (p : SpinPoint) (lock : ℕ)
    → Held rest p lock
    → Held rest (spin_step p lock).0 (spin_step p lock).1
unfolding spin_step
spin_step-Held rest idle lock k = k
spin_step-Held rest lock_swap lock (own, one) = elim (Bool-cases (lock == 0)) [
  | inl e ↦ rw e (ground arith, omega arith)
  | inr e ↦ rw e (ground arith, omega arith)
]
spin_step-Held rest lock_look lock k = elim (Bool-cases (lock == 0)) [
  | inl e ↦ rw e k
  | inr e ↦ rw e k
]
spin_step-Held rest try_look lock k = elim (Bool-cases (lock == 0)) [
  | inl e ↦ rw e k
  | inr e ↦ rw e k
]
spin_step-Held rest try_swap lock (own, one) = elim (Bool-cases (lock == 0)) [
  | inl e ↦ rw e (ground arith, omega arith)
  | inr e ↦ rw e (ground arith, omega arith)
]
spin_step-Held rest holding lock (own, one) = (omega arith, omega arith)

spin_act-Held :
    (rest : ℕ) (e : SpinEvent) (p : SpinPoint) (lock : ℕ)
    → Held rest p lock
    → Held rest (spin_act e p lock).0 (spin_act e p lock).1
unfolding spin_act
spin_act-Held rest (next i) p lock k = spin_step-Held rest p lock k
spin_act-Held rest (call_lock i) idle lock k = k
spin_act-Held rest (call_lock i) lock_swap lock k = k
spin_act-Held rest (call_lock i) lock_look lock k = k
spin_act-Held rest (call_lock i) try_look lock k = k
spin_act-Held rest (call_lock i) try_swap lock k = k
spin_act-Held rest (call_lock i) holding lock k = k
spin_act-Held rest (call_trylock i) idle lock k = k
spin_act-Held rest (call_trylock i) lock_swap lock k = k
spin_act-Held rest (call_trylock i) lock_look lock k = k
spin_act-Held rest (call_trylock i) try_look lock k = k
spin_act-Held rest (call_trylock i) try_swap lock k = k
spin_act-Held rest (call_trylock i) holding lock k = k

abbrev IsHeld : SpinThreads → Type 0
IsHeld s = (s.lock ≡ total is_holding s.threads) × (s.lock ≤ 1)

spin_event-IsHeld : (e : SpinEvent) (s : SpinThreads) → IsHeld s → IsHeld (spin_event e s)
unfolding spin_event
spin_event-IsHeld e s (own, one) = elim (Option-cases (get_elem? s.threads (spin_thread e))) [
  | inl none_there ↦ rw (spin_event, none_there) (own, one)
  | inr (p, at) ↦
      let i = spin_thread e in
      let p' = (spin_act e p s.lock).0 in
      let gone = total-set is_holding s.threads i p idle at in
      let both = total-set is_holding s.threads i p p' at in
      let (own', one') =
        spin_act-Held (total is_holding (set s.threads i idle)) e p s.lock (omega arith, one) in
      rw (spin_event, at) (omega arith, one')
]

spin_run-IsHeld : (es : List SpinEvent) (s : SpinThreads) → IsHeld s → IsHeld (spin_run es s)
unfolding spin_run
spin_run-IsHeld [] s h = h
spin_run-IsHeld (e ∷ es) s h = spin_run-IsHeld es (spin_event e s) (spin_event-IsHeld e s h)

-- In whatever order any number of threads lock, try, look and unlock, from an unlocked lock on, at
-- most one thread has the lock, and the lock is 1 just while one has it.
pub spin_run-excludes :
    (n : ℕ) (es : List SpinEvent)
    → ((spin_run es (spin_start n)).lock ≡ total is_holding (spin_run es (spin_start n)).threads)
      × (total is_holding (spin_run es (spin_start n)).threads ≤ 1)
unfolding spin_start spinlock_init
spin_run-excludes n es =
    let (own, one) =
      spin_run-IsHeld es (spin_start n) (sym (total-repeat is_holding n idle refl), omega arith) in
    (own, omega arith)
