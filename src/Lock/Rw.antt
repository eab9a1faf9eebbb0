-- ===== src/Lock/Rw.antt =====
-- skynet/skynet-src/rwlock.h, the variant on atomic operations. A thread is known by where it stands:
-- before which atomic operation of a call, or between the calls, with the lock or without it.
pub mod Inv
pub mod Progress
mod Tests
use crynet.Prelude.{
  ℕ, zero, suc, ◌+◌, ◌-◌, ◌==◌, List, [], ◌∷◌, Option, some, none, get_elem?, set, if◌then◌else◌,
}
use crynet.Lock.{repeat}

-- `struct rwlock`
pub record RwLock : Type 0 where
  pub write : ℕ
  pub read : ℕ

-- `rwlock_init`
pub rwlock_init : RwLock
rwlock_init = record { write = 0; read = 0 }

pub data RwPoint : Type 0 where
  idle : RwPoint
  -- `rwlock_rlock`: the inner loop, the increment, the second look and the decrement
  read_wait : RwPoint
  read_count : RwPoint
  read_check : RwPoint
  read_back : RwPoint
  reading : RwPoint
  -- `rwlock_wlock`: its two loops
  write_swap : RwPoint
  write_drain : RwPoint
  writing : RwPoint

-- The next atomic operation of `rwlock_rlock`, or of `rwlock_runlock` for a thread that is reading.
pub read_step : RwPoint → RwLock → RwPoint × RwLock
read_step read_wait l = if l.write == 0 then (read_count, l) else (read_wait, l)
read_step read_count l = (read_check, record l { read = l.read + 1 })
read_step read_check l = if l.write == 0 then (reading, l) else (read_back, l)
read_step read_back l = (read_wait, record l { read = l.read - 1 })
read_step reading l = (idle, record l { read = l.read - 1 })
read_step p l = (p, l)

-- The next atomic operation of `rwlock_wlock`, or of `rwlock_wunlock` for a thread that is writing.
pub write_step : RwPoint → RwLock → RwPoint × RwLock
write_step write_swap l =
    if l.write == 0 then (write_drain, record l { write = 1 }) else (write_swap, l)
write_step write_drain l = if l.read == 0 then (writing, l) else (write_drain, l)
write_step writing l = (idle, record l { write = 0 })
write_step p l = (p, l)

pub rw_step : RwPoint → RwLock → RwPoint × RwLock
rw_step write_swap l = write_step write_swap l
rw_step write_drain l = write_step write_drain l
rw_step writing l = write_step writing l
rw_step p l = read_step p l

pub record RwThreads : Type 0 where
  pub lock : RwLock
  pub threads : List RwPoint

-- A thread that is idle calls `rwlock_rlock` or `rwlock_wlock`, or a thread takes its next step.
pub data RwEvent : Type 0 where
  call_rlock : (thread : ℕ) → RwEvent
  call_wlock : (thread : ℕ) → RwEvent
  next : (thread : ℕ) → RwEvent

-- Only a thread that is idle can make a call.
pub rw_enter : RwPoint → RwPoint → RwPoint
rw_enter start idle = start
rw_enter start p = p

pub rw_thread : RwEvent → ℕ
rw_thread (call_rlock i) = i
rw_thread (call_wlock i) = i
rw_thread (next i) = i

pub rw_act : RwEvent → RwPoint → RwLock → RwPoint × RwLock
rw_act (call_rlock i) p l = (rw_enter read_wait p, l)
rw_act (call_wlock i) p l = (rw_enter write_swap p, l)
rw_act (next i) p l = rw_step p l

pub rw_event : RwEvent → RwThreads → RwThreads
rw_event e s = elim (get_elem? s.threads (rw_thread e)) [
  | none ↦ s
  | some p ↦
      let (p', l') = rw_act e p s.lock in
      record { lock = l'; threads = set s.threads (rw_thread e) p' }
]

pub rw_run : List RwEvent → RwThreads → RwThreads
rw_run [] s = s
rw_run (e ∷ es) s = rw_run es (rw_event e s)

pub rw_start : ℕ → RwThreads
rw_start n = record { lock = rwlock_init; threads = repeat n idle }
