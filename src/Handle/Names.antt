-- ===== src/Handle/Names.antt =====
-- The names of skynet/skynet-src/skynet_handle.c: a sorted array, searched by halving. `none` as a
-- result of a search is a read past the array, or fuel that has run out.
pub mod Search
pub mod Insert
pub mod Map
mod Tests
use Prim.Native.Nat.{Ordering}
use crynet.Prelude.{
  ℕ, zero, suc, ◌+◌, ◌-◌, ◌*◌, ◌/◌, ◌^◌, ◌≡◌, ◌↔◌, List, [], ◌∷◌, ◌++◌, Option, some, none, ltb,
  leb, if◌then◌else◌, get_elem?, get_or, set, take, drop, length, ◌>>=◌, ◌⊎◌, inl, inr, Bool, true,
  false,
}
use crynet.Handle.{HandleName, Storage}

-- What is used of `strcmp`, which says that its texts stand in an order.
pub record Strcmp : Type 0 where
  pub cmp : List ℕ → List ℕ → Ordering
  pub eq_iff : (a b : List ℕ) → (cmp a b ≡ Ordering.eq) ↔ (a ≡ b)
  pub gt_iff : (a b : List ℕ) → (cmp a b ≡ Ordering.gt) ↔ (cmp b a ≡ Ordering.lt)
  pub lt_trans :
      (a b c : List ℕ) → cmp a b ≡ Ordering.lt → cmp b c ≡ Ordering.lt → cmp a c ≡ Ordering.lt

abbrev pub max_slot_size : ℕ
max_slot_size = 0x40000000

-- The loop that moves the names from `before` up, by its rounds left, at the cell `i`. The cell 0 is
-- not written, since `before` is not negative.
pub move_names : ℕ → ℕ → List HandleName → List HandleName
move_names zero i names = names
move_names (suc n) i names = elim (get_elem? names (i - 1)) [
  | none ↦ names
  | some moved ↦ move_names n (i - 1) (set names i moved)
]

-- `_insert_name_before`. Where there is room, the cell past the last one is part of the array: what it
-- holds does not matter, so it is the new name here. Else the names are copied to a new array.
pub insert_name_before : Storage → HandleName → ℕ → Option Storage
unfolding move_names
insert_name_before s n before =
    let count = length s.name in
    let shifted = set (move_names (count - before) count (s.name ++ n ∷ [])) before n in
    if leb s.name_cap count
    then (if leb (s.name_cap * 2) max_slot_size
        then some (record s {
          name_cap = s.name_cap * 2;
          name = take before s.name ++ n ∷ drop before s.name;
        })
        else none)
    else some (record s { name = shifted })

module _ (order : Strcmp) where
  open order use {cmp}

  -- The loop of `skynet_handle_findname` and of `_insert_name`, on fuel: the handle that the name has,
  -- or where the name belongs. `end` is one more than in the source, where it can be -1.
  pub search_loop : ℕ → List HandleName → List ℕ → ℕ → ℕ → Option (ℕ ⊎ ℕ)
  search_loop zero names name begin end = none
  search_loop (suc fuel) names name begin end =
      let mid = (begin + end - 1) / 2 in
      let below = search_loop fuel names name (mid + 1) end in
      let above = search_loop fuel names name begin mid in
      let looked : Option (ℕ ⊎ ℕ) = elim (get_elem? names mid) [
        | none ↦ none
        | some n ↦ elim (cmp n.name name) [
          | Ordering.eq ↦ some (inl n.handle)
          | Ordering.lt ↦ below
          | Ordering.gt ↦ above
        ]
      ] in
      if ltb begin end then looked else some (inr begin)

  -- A round leaves less than before, so one round more than there are names is enough.
  pub search_name : List HandleName → List ℕ → Option (ℕ ⊎ ℕ)
  search_name names name = search_loop (length names + 1) names name 0 (length names)

  -- `skynet_handle_findname`
  pub findname : Storage → List ℕ → Option ℕ
  findname s name =
      search_name s.name name >>= λ r. elim r [ inl handle ↦ some handle | inr _ ↦ some 0 ]

  -- `_insert_name`, and `skynet_handle_namehandle`: whether the name is returned, and the storage.
  pub namehandle : Storage → ℕ → List ℕ → Option (Bool × Storage)
  namehandle s handle name = search_name s.name name >>= λ r. elim r [
    | inl _ ↦ some (false, s)
    | inr before ↦ insert_name_before s (record { name = name; handle = handle }) before >>= λ s'.
        some (true, s')
  ]
