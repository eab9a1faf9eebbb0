-- ===== src/Monitor.antt =====
-- skynet/skynet-src/skynet_monitor.c: whether a worker thread is in the same message for long. The
-- version is an `int` that wraps, here modulo 2 ^ 32.
mod Tests
use crynet.Prelude.{
  ℕ, zero, suc, ◌+◌, ◌%◌, ◌^◌, sym, List, [], ◌∷◌, Option, none, some, ◌==◌, ==-eq, ==-ne, ◌≢◌,
  if◌then◌else◌, length,
}

-- `struct skynet_monitor`
pub record Monitor : Type 0 where
  pub version : ℕ
  pub check_version : ℕ
  pub source : ℕ
  pub destination : ℕ

-- `skynet_monitor_new`
pub monitor_new : Monitor
monitor_new = record { version = 0; check_version = 0; source = 0; destination = 0 }

-- The three stores of `skynet_monitor_trigger`, which takes no lock.
pub data Store : Type 0 where
  set_source : ℕ → Store
  set_destination : ℕ → Store
  inc_version : Store

pub apply_store : Monitor → Store → Monitor
apply_store sm (set_source source) = record sm { source = source }
apply_store sm (set_destination destination) = record sm { destination = destination }
apply_store sm inc_version = record sm { version = (sm.version + 1) % 2 ^ 32 }

-- `skynet_monitor_trigger`
pub trigger : ℕ → ℕ → List Store
trigger source destination = set_source source ∷ set_destination destination ∷ inc_version ∷ []

-- `skynet_monitor_check`, which no store of the worker thread comes between: the handle whose context is marked as endless, if there is one.
pub check : Monitor → Option ℕ × Monitor
check sm =
    if sm.version == sm.check_version
    then (if sm.destination == 0 then none else some sm.destination, sm)
    else (none, record sm { check_version = sm.version })

-- The stores of the worker thread, one by one.
pub store_all : Monitor → List Store → Monitor
store_all sm [] = sm
store_all sm (t ∷ ts) = store_all (apply_store sm t) ts

-- How often the version is increased, and the destination that is stored last.
abbrev pub increases : List Store → ℕ
increases [] = 0
increases (set_source source ∷ ts) = increases ts
increases (set_destination destination ∷ ts) = increases ts
increases (inc_version ∷ ts) = suc (increases ts)

abbrev pub last_destination : ℕ → List Store → ℕ
last_destination d [] = d
last_destination d (set_source source ∷ ts) = last_destination d ts
last_destination d (set_destination destination ∷ ts) = last_destination destination ts
last_destination d (inc_version ∷ ts) = last_destination d ts
