-- ===== src/SocketServer/Slots.antt =====
-- The slots of the sockets in skynet/skynet-src/socket_server.c, and the ids that are reserved in them.
use crynet.Prelude.{
  List, [], ◌∷◌, ℕ, zero, suc, ◌+◌, ◌^◌, ◌%◌, ◌-◌, ◌<◌, ◌≡◌, refl, sym, ap, ◌∙◌, true, false, ◌⊎◌,
  inl, inr, leb, if◌then◌else◌, update, Bool-cases, arith, Bool,
}
use mathlib.Core.Path.{subst}
use crynet.SocketServer.{SocketType, is_invalid}
use native.Mathlib.Decide.{ℕ_discrete}

-- `MAX_SOCKET`
abbrev pub max_socket : ℕ
max_socket = 2 ^ 16

-- `HASH_ID`
abbrev hash_id : ℕ → ℕ
hash_id id = id % max_socket

-- What `struct socket_server` has for the ids: the last one that was given out, and the types and the
-- ids of the slots.
pub record Slots : Type 0 where
  pub alloc_id : ℕ
  pub type : ℕ → SocketType
  pub id : ℕ → ℕ

-- What other threads do to the slots in one round of `reserve_id`: before the last id is increased,
-- before its sign is dropped, before the type is read, and before the exchange.
pub record Others : Type 0 where
  pub before : Slots → Slots
  pub at_sign : Slots → Slots
  pub at_load : Slots → Slots
  pub at_exchange : Slots → Slots

-- An int that is counted past its greatest value is negative.
abbrev pub is_negative : ℕ → Bool
is_negative id = leb (2 ^ 31) id

-- `ATOM_FINC`, and `ATOM_FAND` where the id is negative: the id, and the slots.
abbrev pub next_id : Others → Slots → ℕ × Slots
next_id others ss =
    let started = others.before ss in
    let id = (started.alloc_id + 1) % 2 ^ 32 in
    let counted = record started { alloc_id = id } in
    let signed = others.at_sign counted in
    let id' = signed.alloc_id % 2 ^ 31 in
    if is_negative id then (id', record signed { alloc_id = id' }) else (id, counted)

-- The exchange: the slot is reserved for the id.
abbrev pub taken : ℕ → Slots → Slots
taken id ss = record ss {
  type = update ss.type (hash_id id) SocketType.reserve;
  id = update ss.id (hash_id id) id;
}

-- An id, -1, or a call that has not returned yet.
pub data Reservation : Type 0 where
  got : ℕ → Slots → Reservation
  gave_up : Slots → Reservation
  running : Slots → Reservation

-- The loop of `reserve_id`, by its rounds left, as far as the list of what other threads do goes. A round
-- whose exchange fails is repeated. What the loop stores in a slot besides the type and the id is left out.
unfoldable pub reserve_loop : ℕ → List Others → Slots → Reservation
reserve_loop zero env ss = gave_up ss
reserve_loop (suc i) [] ss = running ss
reserve_loop (suc i) (others ∷ env) ss =
    let (id, counted) = next_id others ss in
    let loaded = others.at_load counted in
    let now = others.at_exchange loaded in
    let again = reserve_loop (suc i) env now in
    let rest = reserve_loop i env loaded in
    if is_invalid (loaded.type (hash_id id))
    then (if is_invalid (now.type (hash_id id)) then got id (taken id now) else again)
    else rest

-- `reserve_id`
unfoldable pub reserve_id : List Others → Slots → Reservation
unfolding reserve_loop
reserve_id env ss = reserve_loop max_socket env ss

-- An id that is given out is no negative int, and its slot was free when it was reserved; nothing else is
-- changed then.
abbrev pub IsTaken : Reservation → Type 0
IsTaken (got id ss) =
    (id < 2 ^ 31)
    × ((now : Slots) × (is_invalid (now.type (hash_id id)) ≡ true) × (ss ≡ taken id now))
IsTaken (gave_up ss) = Unit
IsTaken (running ss) = Unit

-- No other thread does anything.
abbrev pub alone : Others
alone = record { before = λ ss. ss; at_sign = λ ss. ss; at_load = λ ss. ss; at_exchange = λ ss. ss }

abbrev pub alone_for : ℕ → List Others
alone_for zero = []
alone_for (suc n) = alone ∷ alone_for n

-- The id after another one.
abbrev following : ℕ → ℕ
following alloc_id = let id = (alloc_id + 1) % 2 ^ 32 in if is_negative id then id % 2 ^ 31 else id

-- The id is given out for a slot that was free, and this slot only is changed.
abbrev pub Reserved : Slots → Reservation → Type 0
Reserved ss r =
    (id : ℕ) × (id < 2 ^ 31)
    × (is_invalid (ss.type (hash_id id)) ≡ true)
    × (r ≡ got id (taken id (record ss { alloc_id = id })))

-- The call gives up, and the next `i` slots are in use.
abbrev pub InUse : ℕ → Slots → Reservation → Type 0
InUse i ss r =
    ((last : ℕ) × (r ≡ gave_up (record ss { alloc_id = last })))
    × ((j : ℕ) → j < i → is_invalid (ss.type (hash_id (ss.alloc_id + 1 + j))) ≡ false)

following-hash_id :
    (a j : ℕ)
    → a < 2 ^ 31
    → (following a < 2 ^ 31) × (hash_id (following a + j) ≡ hash_id (a + 1 + j))
following-hash_id a j small = (ground arith, ground arith)

pair_if :
    (b : Bool) (x y : ℕ) (f : ℕ → Slots)
    → ◌≡◌ {A = ℕ × Slots}
        (if b then (x, f x) else (y, f y))
        (if b then x else y, f (if b then x else y))
pair_if true x y f = refl
pair_if false x y f = refl

-- Alone, a round counts to the id that follows.
next_id-alone :
    (ss : Slots)
    → next_id alone ss ≡ (following ss.alloc_id, record ss { alloc_id = following ss.alloc_id })
next_id-alone ss =
    let id = (ss.alloc_id + 1) % 2 ^ 32 in
    pair_if (is_negative id) (id % 2 ^ 31) id (λ n. record ss { alloc_id = n })

-- One more slot is looked at.
more_InUse :
    (i : ℕ) (ss : Slots) (r : Reservation)
    → ss.alloc_id < 2 ^ 31
    → is_invalid (ss.type (hash_id (following ss.alloc_id))) ≡ false
    → InUse i (record ss { alloc_id = following ss.alloc_id }) r
    → InUse (suc i) ss r
more_InUse i ss r small busy (gave, others) = (
  gave,
  λ j lt.
      let a = ss.alloc_id in
      elim (ℕ_discrete j 0) [
        | yes first ↦
            let at : hash_id (a + 1 + j) ≡ hash_id (following a) =
              omega (arith, first, (following-hash_id a 0 small).1) in
            ap (λ k. is_invalid (ss.type k)) at ∙ busy
        | no later ↦
            let at : hash_id (a + 1 + j) ≡ hash_id (following a + 1 + (j - 1)) =
              omega (arith, later, (following-hash_id a j small).1) in
            ap (λ k. is_invalid (ss.type k)) at ∙ others (j - 1) (omega (arith, lt, later))
      ],
)

-- A round of a call alone.
round_alone :
    (i n : ℕ) (ss : Slots)
    → reserve_loop (suc i) (alone_for (suc n)) ss ≡ (
        let ss' = record ss { alloc_id = following ss.alloc_id } in
        if is_invalid (ss.type (hash_id (following ss.alloc_id)))
        then got (following ss.alloc_id) (taken (following ss.alloc_id) ss')
        else reserve_loop i (alone_for n) ss')
unfolding reserve_loop
round_alone i n ss =
    let body : ℕ × Slots → Reservation = λ p.
      if is_invalid (p.1.type (hash_id p.0))
      then (if is_invalid (p.1.type (hash_id p.0))
          then got p.0 (taken p.0 p.1)
          else reserve_loop (suc i) (alone_for n) p.1)
      else reserve_loop i (alone_for n) p.1 in
    ap body (next_id-alone ss)
    ∙ elim (Bool-cases (is_invalid (ss.type (hash_id (following ss.alloc_id))))) [
      | inl e ↦ rw (e) refl
      | inr e ↦ rw (e) refl
    ]

reserve_loop-cases :
    (i : ℕ) (ss : Slots)
    → ss.alloc_id < 2 ^ 31
    → Reserved ss (reserve_loop i (alone_for i) ss) ⊎ InUse i ss (reserve_loop i (alone_for i) ss)
unfolding reserve_loop
reserve_loop-cases zero ss small = inr ((ss.alloc_id, refl), λ j lt. absurd (omega (arith, lt)))
reserve_loop-cases (suc i) ss small =
    let id = following ss.alloc_id in
    let ss' = record ss { alloc_id = id } in
    let fits = (following-hash_id ss.alloc_id 0 small).0 in
    let one = round_alone i i ss in
    elim (Bool-cases (is_invalid (ss.type (hash_id id)))) [
      | inl free ↦ inl (id, fits, free, one ∙ rw (free) refl)
      | inr busy ↦
          let same : reserve_loop (suc i) (alone_for (suc i)) ss
              ≡ reserve_loop i (alone_for i) ss' =
            one ∙ rw (busy) refl in
          elim (reserve_loop-cases i ss' fits) [
            | inl found ↦ inl (subst (Reserved ss) (sym same) found)
            | inr none_free ↦ inr (
                subst (InUse (suc i) ss) (sym same)
                  (more_InUse i ss (reserve_loop i (alone_for i) ss') small busy none_free))
          ]
    ]

-- While no other thread calls `reserve_id` or changes a slot, and the last id is less than 2 ^ 31: either
-- an id less than 2 ^ 31 is given out whose slot was free, the slot is reserved for it, and no other slot
-- is changed; or the call gives up, every slot is in use, and no slot is changed.
pub reserve_id-Reserved :
    (ss : Slots)
    → ss.alloc_id < 2 ^ 31
    → Reserved ss (reserve_id (alone_for max_socket) ss)
      ⊎ (((last : ℕ) × (reserve_id (alone_for max_socket) ss
              ≡ gave_up (record ss { alloc_id = last })))
          × ((k : ℕ) → k < max_socket → is_invalid (ss.type k) ≡ false))
unfolding reserve_id
reserve_id-Reserved ss small = elim (reserve_loop-cases max_socket ss small) [
  | inl found ↦ inl found
  | inr (gave, busy) ↦ inr (
    gave,
    λ k lt.
        let a = ss.alloc_id in
        let j = (k + max_socket - (a + 1) % max_socket) % max_socket in
        let at : k ≡ hash_id (a + 1 + j) = omega (arith, lt) in
        ap (λ n. is_invalid (ss.type n)) at ∙ busy j (omega arith),
  )
]
