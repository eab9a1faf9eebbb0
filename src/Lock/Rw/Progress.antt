-- ===== src/Lock/Rw/Progress.antt =====
-- The lock is never stuck: as long as a thread is in a call or has the lock, some thread gets on.
use crynet.Prelude.{
  ℕ, ◌≡◌, ◌≢◌, ◌<◌, refl, List, some, get_elem?, arith, inl, inr, Bool-cases, ◌==◌, true, false,
  Bool,
}
use crynet.Lock.{total_at, total_witness}
use crynet.Lock.Rw.{
  RwLock, RwPoint, idle, read_wait, read_count, read_check, read_back, reading, write_swap,
  write_drain, writing, RwThreads, RwEvent, rw_step, read_step, write_step, rw_run, rw_start,
}
use crynet.Lock.Rw.Inv.{counted, owning, IsGuarded, rw_run-IsGuarded}

-- How many steps a thread is away from the end of its call or, where it has the lock, from giving it back:
-- while `write` is not set, a reader that has stepped back starts again.
abbrev pub to_go_free : RwPoint → ℕ
to_go_free idle = 0
to_go_free reading = 1
to_go_free read_check = 2
to_go_free read_count = 3
to_go_free read_wait = 4
to_go_free read_back = 5
to_go_free writing = 1
to_go_free write_drain = 2
to_go_free write_swap = 3

-- While `write` is set, a reader that does not have the lock yet has to step back, for the writer.
abbrev pub to_go_set : RwPoint → ℕ
to_go_set idle = 0
to_go_set reading = 1
to_go_set read_wait = 0
to_go_set read_back = 1
to_go_set read_check = 2
to_go_set read_count = 3
to_go_set writing = 1
to_go_set write_drain = 2
to_go_set write_swap = 0

abbrev pub to_go : Bool → RwPoint → ℕ
to_go true p = to_go_free p
to_go false p = to_go_set p

-- The next step of a thread leads it one step on at least.
abbrev pub Moves : RwPoint → RwLock → Type 0
Moves p l = to_go (l.write == 0) (rw_step p l).0 < to_go (l.write == 0) p

abbrev pub SomeMoves : RwThreads → Type 0
SomeMoves s = (i : ℕ) × (p : RwPoint) × (get_elem? s.threads i ≡ some p) × Moves p s.lock

counted-Moves : (p : RwPoint) (l : RwLock) → 0 < counted p → Moves p l
unfolding rw_step read_step
counted-Moves idle l h = absurd (omega arith)
counted-Moves read_wait l h = absurd (omega arith)
counted-Moves read_count l h = absurd (omega arith)
counted-Moves read_check l h = elim (Bool-cases (l.write == 0)) [
  | inl e ↦ rw e (omega arith)
  | inr e ↦ rw e (omega arith)
]
counted-Moves read_back l h = elim (Bool-cases (l.write == 0)) [
  | inl e ↦ rw e (omega arith)
  | inr e ↦ rw e (omega arith)
]
counted-Moves reading l h = elim (Bool-cases (l.write == 0)) [
  | inl e ↦ rw e (omega arith)
  | inr e ↦ rw e (omega arith)
]
counted-Moves write_swap l h = absurd (omega arith)
counted-Moves write_drain l h = absurd (omega arith)
counted-Moves writing l h = absurd (omega arith)

-- A thread that has set `write` gets on, or those that are counted do.
owned-Moves :
    (s : RwThreads)
    → IsGuarded s
    → (i : ℕ) (p : RwPoint) → get_elem? s.threads i ≡ some p
    → 0 < owning p
    → SomeMoves s
unfolding rw_step write_step
owned-Moves s g i idle at h = absurd (omega arith)
owned-Moves s g i read_wait at h = absurd (omega arith)
owned-Moves s g i read_count at h = absurd (omega arith)
owned-Moves s g i read_check at h = absurd (omega arith)
owned-Moves s g i read_back at h = absurd (omega arith)
owned-Moves s g i reading at h = absurd (omega arith)
owned-Moves s g i write_swap at h = absurd (omega arith)
owned-Moves s g i write_drain at h = elim (Bool-cases (s.lock.read == 0)) [
  | inl e ↦ (
    i,
    write_drain,
    at,
    elim (Bool-cases (s.lock.write == 0)) [
      | inl f ↦ rw (e, f) (omega arith)
      | inr f ↦ rw (e, f) (omega arith)
    ],
  )
  | inr e ↦
      let readers = g.readers in
      let (j, p, at', some_reader) = total_witness counted s.threads (ground arith) in
      (j, p, at', counted-Moves p s.lock some_reader)
]
owned-Moves s g i writing at h = (
  i,
  writing,
  at,
  elim (Bool-cases (s.lock.write == 0)) [ inl f ↦ rw f (omega arith) | inr f ↦ rw f (omega arith) ],
)

-- While `write` is not set, every thread that is not idle gets on.
free-Moves :
    (s : RwThreads)
    → IsGuarded s
    → (s.lock.write == 0) ≡ true
    → (i : ℕ) (p : RwPoint) → get_elem? s.threads i ≡ some p
    → p ≢ idle
    → Moves p s.lock
unfolding rw_step read_step write_step
free-Moves s g e i idle at ne = absurd (ne refl)
free-Moves s g e i read_wait at ne = rw e (omega arith)
free-Moves s g e i read_count at ne = rw e (omega arith)
free-Moves s g e i read_check at ne = counted-Moves read_check s.lock (omega arith)
free-Moves s g e i read_back at ne = counted-Moves read_back s.lock (omega arith)
free-Moves s g e i reading at ne = counted-Moves reading s.lock (omega arith)
free-Moves s g e i write_swap at ne = rw e (omega arith)
free-Moves s g e i write_drain at ne =
    let own = g.owner in
    let here = total_at owning s.threads i write_drain at in absurd (ground arith)
free-Moves s g e i writing at ne = rw e (omega arith)

-- In whatever order any number of threads have taken their steps and made their calls, from an
-- unlocked lock on: as long as a thread is in a call or has the lock, there is a thread whose next
-- step brings it nearer to the end of its call, or to giving the lock back. While `write` is not set, the
-- call of a reader ends where it has the lock; while it is set, a reader that has not got the lock comes
-- nearer to stepping back for the writer.
pub rw_run-SomeMoves :
    (n : ℕ) (es : List RwEvent) (i : ℕ) (p : RwPoint)
    → get_elem? (rw_run es (rw_start n)).threads i ≡ some p
    → p ≢ idle
    → SomeMoves (rw_run es (rw_start n))
rw_run-SomeMoves n es i p at ne =
    let s = rw_run es (rw_start n) in
    let g = rw_run-IsGuarded n es in
    elim (Bool-cases (s.lock.write == 0)) [
      | inl e ↦ (i, p, at, free-Moves s g e i p at ne)
      | inr e ↦
          let own = g.owner in
          let (j, q, at', owner) = total_witness owning s.threads (ground arith) in
          owned-Moves s g j q at' owner
    ]
