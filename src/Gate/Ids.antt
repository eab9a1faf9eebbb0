-- ===== src/Gate/Ids.antt =====
-- skynet/service-src/hashid.h: the table of connection ids. A node is known by its index; `none`
-- stands for the id -1 of a free node, for a null pointer, and for the result -1. Ids are sockets'
-- and not negative. The pointers `hash` and `next` are indices of nodes.
pub mod Chain
pub mod Valid
pub mod Insert
pub mod Remove
use Prim.Native.Nat.{bit_and}
use crynet.Prelude.{
  ℕ, zero, suc, ◌+◌, ◌-◌, ◌*◌, ◌%◌, ◌^◌, Bool, true, false, Option, none, some, ltb, leb, ◌==◌,
  if◌then◌else◌, update,
}

-- `struct hashid` with its nodes.
pub record Hashid : Type 0 where
  pub hashmod : ℕ
  pub cap : ℕ
  pub count : ℕ
  pub id : ℕ → Option ℕ
  pub next : ℕ → Option ℕ
  pub hash : ℕ → Option ℕ

-- `while (hashcap < max) hashcap *= 2`, by its rounds left. It doubles, so `max` rounds do.
pub double_until : ℕ → ℕ → ℕ → ℕ
double_until zero hashcap max = hashcap
double_until (suc n) hashcap max =
    let rest = double_until n (hashcap * 2) max in if ltb hashcap max then rest else hashcap

-- `hashid_init`
unfoldable pub init : ℕ → Hashid
init max = record {
  hashmod = double_until max 16 max - 1;
  cap = max;
  count = 0;
  id = λ _. none;
  next = λ _. none;
  hash = λ _. none;
}

-- `hashid_clear`
pub clear : Hashid → Hashid
clear hi = record {
  hashmod = 1;
  cap = 0;
  count = 0;
  id = λ _. none;
  next = λ _. none;
  hash = λ _. none;
}

abbrev pub has_id : Hashid → ℕ → ℕ → Bool
has_id hi c id = elim (hi.id c) [ none ↦ false | some j ↦ j == id ]

-- The loop of `hashid_lookup`, by its rounds left.
pub lookup_loop : ℕ → Hashid → Option ℕ → ℕ → Option ℕ
lookup_loop n hi none id = none
lookup_loop zero hi (some c) id = none
lookup_loop (suc n) hi (some c) id =
    let rest = lookup_loop n hi (hi.next c) id in if has_id hi c id then some c else rest

-- `hashid_lookup`. A chain has at most `cap` nodes.
unfoldable pub lookup : Hashid → ℕ → Option ℕ
unfolding lookup_loop
lookup hi id = lookup_loop hi.cap hi (hi.hash (bit_and id hi.hashmod)) id

-- What stands at the label `_clear`.
abbrev pub clear_node : Hashid → ℕ → Hashid
clear_node hi c = record hi {
  id = update hi.id c none;
  next = update hi.next c none;
  count = hi.count - 1;
}

-- The loop of `hashid_remove`, by its rounds left, from the node `c` on, which does not have the id.
pub remove_loop : ℕ → Hashid → ℕ → ℕ → Option ℕ × Hashid
remove_loop zero hi c id = (none, hi)
remove_loop (suc n) hi c id = elim (hi.next c) [
  | none ↦ (none, hi)
  | some t ↦
      let found : Option ℕ × Hashid =
        (some t, clear_node (record hi { next = update hi.next c (hi.next t) }) t) in
      let rest = remove_loop n hi t id in if has_id hi t id then found else rest
]

-- `hashid_remove`
unfoldable pub remove : Hashid → ℕ → Option ℕ × Hashid
unfolding remove_loop
remove hi id =
    let h = bit_and id hi.hashmod in
    elim (hi.hash h) [
      | none ↦ (none, hi)
      | some c ↦
          let found : Option ℕ × Hashid =
            (some c, clear_node (record hi { hash = update hi.hash h (hi.next c) }) c) in
          let rest = remove_loop hi.cap hi c id in if has_id hi c id then found else rest
    ]

-- The loop of `hashid_insert`, by its rounds left. `none` as a result is an overflow of `i + id`, or
-- the assertion that a node is found.
pub find_free : ℕ → ℕ → Hashid → ℕ → Option ℕ
find_free zero i hi id = none
find_free (suc n) i hi id =
    let index = (i + id) % hi.cap in
    let rest = find_free n (i + 1) hi id in
    let found : Option ℕ = elim (hi.id index) [ none ↦ some index | some _ ↦ rest ] in
    if leb (2 ^ 31) (i + id) then none else found

-- The rest of `hashid_insert`, with the node found, whose `next` it asserts to be null: so the head
-- of the chain, which may be null, becomes the next node.
pub link_node : Hashid → ℕ → ℕ → Option (ℕ × Hashid)
link_node hi c id =
    let h = bit_and id hi.hashmod in
    elim (hi.next c) [
      | some _ ↦ none
      | none ↦ some (
        c,
        record hi {
          count = hi.count + 1;
          id = update hi.id c (some id);
          next = update hi.next c (hi.hash h);
          hash = update hi.hash h (some c);
        },
      )
    ]

-- `hashid_insert`
unfoldable pub insert : Hashid → ℕ → Option (ℕ × Hashid)
unfolding find_free link_node
insert hi id = elim (find_free hi.cap 0 hi id) [ none ↦ none | some c ↦ link_node hi c id ]

-- `hashid_full`
pub full : Hashid → Bool
full hi = hi.count == hi.cap
