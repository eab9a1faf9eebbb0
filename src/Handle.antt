-- ===== src/Handle.antt =====
-- skynet/skynet-src/skynet_handle.c: the table of contexts, by handle. A context is known by its
-- address; its `handle` field, which `skynet_context_handle` reads, stands in `handle_of`. The slots
-- are an array of `slot_size` cells, read only at masked indices. `none` as a result is an assertion
-- that fails.
pub mod Valid
pub mod Scan
pub mod Grow
pub mod Double
pub mod Register
pub mod Room
pub mod Reach
pub mod Names
pub mod Retire
mod Tests
use Prim.Native.Nat.{bit_and, bit_or}
use crynet.Prelude.{
  ℕ, zero, suc, ◌+◌, ◌-◌, ◌*◌, ◌^◌, List, [], ◌∷◌, Option, none, some, ltb, leb, ◌==◌,
  if◌then◌else◌, update, ◌>>=◌,
}

-- `struct handle_name`
pub record HandleName : Type 0 where
  pub name : List ℕ
  pub handle : ℕ

-- `struct handle_storage` less its lock, and the `handle` field of each context.
pub record Storage : Type 0 where
  pub harbor : ℕ
  pub handle_index : ℕ
  pub slot_size : ℕ
  pub slot : ℕ → Option ℕ
  pub name_cap : ℕ
  pub name : List HandleName
  pub handle_of : ℕ → ℕ

abbrev pub handle_mask : ℕ
handle_mask = 2 ^ 24 - 1

abbrev pub handle_remote_shift : ℕ
handle_remote_shift = 24

abbrev pub default_slot_size : ℕ
default_slot_size = 4

-- `skynet_handle_init`
pub init : ℕ → Storage
init harbor = record {
  harbor = bit_and harbor 0xff * 2 ^ handle_remote_shift;
  handle_index = 1;
  slot_size = default_slot_size;
  slot = λ _. none;
  name_cap = 2;
  name = [];
  handle_of = λ _. 0;
}

-- The inner loop of `skynet_handle_register`, by its rounds left: the slot and the handle that it
-- finds. 0 is reserved, so a handle past the mask starts again at 1.
pub scan : ℕ → (ℕ → Option ℕ) → ℕ → ℕ → Option (ℕ × ℕ)
scan zero slot slot_size handle = none
scan (suc n) slot slot_size handle =
    let h = if ltb handle_mask handle then 1 else handle in
    let hash = bit_and h (slot_size - 1) in
    let rest = scan n slot slot_size (h + 1) in
    elim (slot hash) [ none ↦ some (hash, h) | some _ ↦ rest ]

-- The loop that fills the new slots, by its rounds left.
pub rehash : ℕ → ℕ → Storage → (ℕ → Option ℕ) → Option (ℕ → Option ℕ)
rehash zero i s new = some new
rehash (suc n) i s new = elim (s.slot i) [
  | none ↦ rehash n (i + 1) s new
  | some ctx ↦
      let hash = bit_and (s.handle_of ctx) (s.slot_size * 2 - 1) in
      elim (new hash) [ none ↦ rehash n (i + 1) s (update new hash (some ctx)) | some _ ↦ none ]
]

-- The rest of the outer loop: the slots are doubled.
pub grow : Storage → Option Storage
grow s =
    let filled = rehash s.slot_size 0 s (λ _. none) in
    if leb (s.slot_size * 2 - 1) handle_mask
    then (filled >>= λ new. some (record s { slot = new; slot_size = s.slot_size * 2 }))
    else none

-- `skynet_handle_register`, on fuel: each round that finds no slot doubles them. It does not store the
-- handle in the context.
pub register : ℕ → ℕ → Storage → Option (ℕ × Storage)
register zero ctx s = none
register (suc fuel) ctx s = elim (scan s.slot_size s.slot s.slot_size s.handle_index) [
  | some (hash, h) ↦
      let handle = bit_or h s.harbor in
      some (handle, record s { slot = update s.slot hash (some ctx); handle_index = h + 1 })
  | none ↦ grow s >>= register fuel ctx
]

-- What `skynet_context_new` stores when `skynet_handle_register` has returned.
pub store_handle : ℕ → ℕ → Storage → Storage
store_handle handle ctx s = record s { handle_of = update s.handle_of ctx handle }

-- The two lines of `skynet_context_new`, where no other thread uses the table in between.
pub new_context : ℕ → ℕ → Storage → Option (ℕ × Storage)
new_context fuel ctx s =
    register fuel ctx s >>= λ (handle, s'). some (handle, store_handle handle ctx s')

-- `skynet_handle_grab`: the context that is found, if any.
pub grab : Storage → ℕ → Option ℕ
grab s handle = elim (s.slot (bit_and handle (s.slot_size - 1))) [
  | none ↦ none
  | some ctx ↦ if s.handle_of ctx == handle then some ctx else none
]

-- The loop of `skynet_handle_retire` over the names: those of the handle go, the others move up.
pub keep_names : ℕ → List HandleName → List HandleName
keep_names handle [] = []
keep_names handle (n ∷ ns) =
    let rest = keep_names handle ns in if n.handle == handle then rest else n ∷ rest

-- `skynet_handle_retire`: the result, the context that is released then, and the storage.
pub retire : ℕ → Storage → ℕ × Option ℕ × Storage
retire handle s =
    let hash = bit_and handle (s.slot_size - 1) in
    elim (s.slot hash) [
      | none ↦ (0, none, s)
      | some ctx ↦
          if s.handle_of ctx == handle
          then (
            1,
            some ctx,
            record s { slot = update s.slot hash none; name = keep_names handle s.name },
          )
          else (0, none, s)
    ]
