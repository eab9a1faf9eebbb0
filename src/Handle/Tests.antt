-- ===== src/Handle/Tests.antt =====
-- Runs of the functions on handles, and the theorems at concrete tables.
use crynet.Prelude.{
  if◌then◌else◌, ltb, ◌==◌, ◌-◌, Bool-cases, inl, inr, sym, ℕ, ◌≡◌, refl, Option, none, some, List,
  [], ◌∷◌, arith, ◌>>=◌, map, ◌⊎◌, ◌+◌, ◌<◌,
}
use mathlib.Core.Option.{none-ne-some, some-injective}
use crynet.Handle.{
  Storage, HandleName, init, register, new_context, store_handle, retire, grab, keep_names, scan,
}
use crynet.Handle.Valid.{IsValid}
use crynet.Handle.Register.{Registered, IsAbsent}
use crynet.Handle.Room.{new_context-Registered}
use crynet.Handle.Reach.{started, registered, grab-IsOwn}
use crynet.Handle.Register.{stored}
use crynet.Handle.Valid.{IsOwn}
use crynet.Handle.Retire.{retire-Retired, Retired}

abbrev register_all : List ℕ → Storage → Option Storage
register_all [] s = some s
register_all (c ∷ cs) s = new_context 2 c s >>= λ (handle, s'). register_all cs s'

abbrev grab_all : List ℕ → Storage → List (Option ℕ)
grab_all hs s = map (grab s) hs

abbrev seen : Storage → ℕ × List (Option ℕ)
seen s = (s.slot_size, grab_all (16777217 ∷ 16777220 ∷ 16777221 ∷ 5 ∷ []) s)

-- The fifth context makes the four slots eight.
five :
    (register_all (10 ∷ 11 ∷ 12 ∷ 13 ∷ 14 ∷ []) (init 1) >>= λ s. some (seen s))
    ≡ some (8, some 10 ∷ some 13 ∷ some 14 ∷ none ∷ [])
unfolding init new_context store_handle register grab scan crynet.Handle.grow crynet.Handle.rehash
five = refl

-- The handle past the mask is 1, and not 0.
past_the_mask : scan 4 (λ _. none) 4 16777216 ≡ some (1, 1)
unfolding scan
past_the_mask = refl

-- A table whose four slots are taken, with two names.
abbrev full : Storage
full = record {
  harbor = 16777216;
  handle_index = 5;
  slot_size = 4;
  slot = λ i. if ltb i 4 then some (10 + i) else none;
  name_cap = 2;
  name =
      record { name = 97 ∷ []; handle = 16777217 }
      ∷ record { name = 98 ∷ []; handle = 16777218 }
      ∷ [];
  handle_of = λ c. 16777216 + (if c == 10 then 4 else c - 10);
}

full_at : (i c : ℕ) → full.slot i ≡ some c → (i < 4) × (c ≡ 10 + i)
full_at i c e = elim (Bool-cases (ltb i 4)) [
  | inl low ↦ (ground arith, some-injective _ _ (sym (rw low at e)))
  | inr high ↦ absurd (none-ne-some _ (rw high at e))
]

full-IsValid : IsValid full
full-IsValid = record {
  bits = 2;
  size = refl;
  bounds = (omega arith, omega arith);
  index = (omega arith, omega arith);
  harbor = refl;
  slots = λ i c e.
      let (low, at) = full_at i c e in
      (ground arith, record { above = ground arith; below = ground arith });
}

full-IsAbsent : IsAbsent full 7
full-IsAbsent i e = let (low, at) = full_at i 7 e in absurd (omega arith)

new_context-Registered_example :
    (handle : ℕ) × (s' : Storage) × (new_context 2 7 full ≡ some (handle, s'))
    × Registered full s' 7 handle
new_context-Registered_example =
    new_context-Registered 0 full full-IsValid (omega arith) 7 full-IsAbsent

retire-Retired_example :
    ((grab full 16777217 ≡ none) × (retire 16777217 full ≡ (0, none, full)))
    ⊎ ((c : ℕ) × (s' : Storage) × (grab full 16777217 ≡ some c)
        × (retire 16777217 full ≡ (1, some c, s'))
        × Retired full s' 16777217)
retire-Retired_example = retire-Retired full full-IsValid 16777217

-- The table after the first registration.
abbrev first : Storage
first = stored (init 1) 1 1 16777217 7

first-new_context : new_context 2 7 (init 1) ≡ some (16777217, first)
unfolding init new_context store_handle register scan
first-new_context = refl

init-IsAbsent : IsAbsent (init 1) 7
unfolding init
init-IsAbsent i e = none-ne-some _ e

grab-first : grab first 16777217 ≡ some 7
unfolding init grab
grab-first = refl

grab-IsOwn_example :
    IsOwn (init 1).harbor 16777217 × ((h : ℕ) → grab first h ≡ some 7 → h ≡ 16777217)
grab-IsOwn_example =
    grab-IsOwn 1 first
      (registered 7 16777217 (init 1) first started init-IsAbsent first-new_context) 16777217 7
      grab-first
