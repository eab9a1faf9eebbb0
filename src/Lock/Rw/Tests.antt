-- ===== src/Lock/Rw/Tests.antt =====
-- Two threads that race for a lock.
use crynet.Prelude.{ℕ, ◌≡◌, ◌≢◌, ◌≤◌, ◌⊎◌, refl, ap, List, [], ◌∷◌, ◌++◌, get_elem?, arith}
use crynet.Lock.{total}
use crynet.Lock.Rw.{
  RwPoint, idle, read_wait, read_check, write_drain, writing, RwEvent, call_rlock, call_wlock, next,
  rw_run, rw_start, rw_event, rw_act, rw_step, read_step, write_step, rw_enter, rw_thread,
  rwlock_init,
}
use crynet.Lock.Rw.Inv.{is_reading, is_writing, IsGuarded, rw_run-IsGuarded, rw_run-excludes}
use crynet.Lock.Rw.Progress.{SomeMoves, rw_run-SomeMoves}
use crynet.Lock.Spin.{
  SpinEvent, call_lock, call_trylock, spin_run, spin_start, is_holding, spin_run-excludes,
}

-- A reader sees the lock free and is counted after a writer has set `write`; the writer waits for it.
abbrev race : List RwEvent
race = call_rlock 0 ∷ next 0 ∷ call_wlock 1 ∷ next 1 ∷ next 0 ∷ next 1 ∷ []

race-threads : (rw_run race (rw_start 2)).threads ≡ read_check ∷ write_drain ∷ []
unfolding rw_run rw_start rwlock_init rw_event rw_act rw_step read_step write_step rw_enter
    rw_thread
race-threads = refl

-- The reader goes back, and the writer gets the lock.
race-settled :
    (rw_run (race ++ next 0 ∷ next 0 ∷ next 1 ∷ next 0 ∷ []) (rw_start 2)).threads
    ≡ read_wait ∷ writing ∷ []
unfolding rw_run rw_start rwlock_init rw_event rw_act rw_step read_step write_step rw_enter
    rw_thread
race-settled = refl

rw_run-IsGuarded_example : IsGuarded (rw_run race (rw_start 2))
rw_run-IsGuarded_example = rw_run-IsGuarded 2 race

rw_run-excludes_example :
    (total is_writing (rw_run race (rw_start 2)).threads ≤ 1)
    × ((total is_writing (rw_run race (rw_start 2)).threads ≡ 0)
        ⊎ (total is_reading (rw_run race (rw_start 2)).threads ≡ 0))
rw_run-excludes_example = rw_run-excludes 2 race

abbrev is_checking : RwPoint → ℕ
is_checking read_check = 1
is_checking _ = 0

check-idle : read_check ≢ idle
check-idle e = let k = ap is_checking e in absurd (omega arith)

rw_run-SomeMoves_example : SomeMoves (rw_run race (rw_start 2))
rw_run-SomeMoves_example =
    rw_run-SomeMoves 2 race 0 read_check (ap (λ l. get_elem? l 0) race-threads) check-idle

-- One thread locks, and the other one tries and fails.
abbrev tries : List SpinEvent
tries = call_lock 0 ∷ SpinEvent.next 0 ∷ call_trylock 1 ∷ SpinEvent.next 1 ∷ []

spin_run-excludes_example :
    ((spin_run tries (spin_start 2)).lock
      ≡ total is_holding (spin_run tries (spin_start 2)).threads)
    × (total is_holding (spin_run tries (spin_start 2)).threads ≤ 1)
spin_run-excludes_example = spin_run-excludes 2 tries
