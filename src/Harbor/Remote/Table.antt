-- ===== src/Harbor/Remote/Table.antt =====
-- The hash table of names of skynet/service-src/service_harbor.c, with the functions that look a name up.
-- A chain is the list of its nodes; a node that is changed is the one that a search for its name finds.
pub mod Lookup
mod Tests
use Prim.Native.Nat.{bit_xor}
use crynet.Prelude.{
  ℕ, ◌+◌, ◌*◌, ◌%◌, ◌^◌, ◌≡◌, ◌≢◌, refl, sym, ap, ◌∙◌, List, [], ◌∷◌, ◌++◌, Option, none, some,
  ◌==◌, ==-eq, ==-ne, if◌then◌else◌, Bool, true, false, ◌&&◌, inl, inr, ◌⊎◌, update, update_self,
  update_cases, drop, Bool-cases,
}
use crynet.Handle.{handle_remote_shift}
use crynet.Gate.{ptype_text}
use crynet.Harbor.{RemoteHeader, HarborMsgQueue, new_queue, push_queue}
use crynet.Harbor.Remote.{Harbor, HarborAction, send, remote_send_handle}
use crynet.Harbor.Remote.Named.{KeyValue, name_node}
use mathlib.Core.Option.{none-ne-some}

-- What is used of `strncmp` on two names: whether their texts are the same.
pub record Strncmp : Type 0 where
  pub same : List ℕ → List ℕ → Bool
  pub same_refl : (a : List ℕ) → same a a ≡ true
  pub same_sym : (a b : List ℕ) → same a b ≡ true → same b a ≡ true
  pub same_trans : (a b c : List ℕ) → same a b ≡ true → same b c ≡ true → same a c ≡ true

abbrev pub hash_size : ℕ
hash_size = 4096

-- Four bytes of a name as a number, with the lowest first.
pub word : List ℕ → ℕ
word (a ∷ b ∷ c ∷ d ∷ _) = a + b * 2 ^ 8 + c * 2 ^ 16 + d * 2 ^ 24
word _ = 0

-- The hash of `hash_search` and `hash_insert`.
pub hash_of : List ℕ → ℕ
hash_of name =
    bit_xor (bit_xor (bit_xor (word name) (word (drop 4 name))) (word (drop 8 name)))
      (word (drop 12 name))

-- `struct hashmap`: the chains.
abbrev pub HashMap : Type 0
HashMap = ℕ → List KeyValue

-- The loop of `hash_search`.
pub find_node : (KeyValue → Bool) → List KeyValue → Option KeyValue
find_node p [] = none
find_node p (n ∷ ns) = let rest = find_node p ns in if p n then some n else rest

-- The node that a search finds is changed.
pub edit_node : (KeyValue → Bool) → KeyValue → List KeyValue → List KeyValue
edit_node p new [] = []
edit_node p new (n ∷ ns) = let rest = edit_node p new ns in if p n then new ∷ ns else n ∷ rest

pub find_node-edit_node :
    (p : KeyValue → Bool) (new : KeyValue) (ns : List KeyValue) (old : KeyValue)
    → p new ≡ true
    → find_node p ns ≡ some old
    → find_node p (edit_node p new ns) ≡ some new
unfolding find_node edit_node
find_node-edit_node p new [] old own e = absurd (none-ne-some _ e)
find_node-edit_node p new (n ∷ ns) old own e = elim (Bool-cases (p n)) [
  | inl t ↦ rw (t, find_node, own) refl
  | inr f ↦ rw (f, find_node, f) (find_node-edit_node p new ns old own (rw f at e))
]

-- Changing a node that another search does not look for does not change what that search finds.
pub find_node-edit_node_other :
    (p r : KeyValue → Bool) (new : KeyValue) (ns : List KeyValue)
    → ((n : KeyValue) → p n ≡ true → r n ≡ false)
    → r new ≡ false
    → find_node r (edit_node p new ns) ≡ find_node r ns
unfolding find_node edit_node
find_node-edit_node_other p r new [] apart other = refl
find_node-edit_node_other p r new (n ∷ ns) apart other = elim (Bool-cases (p n)) [
  | inl t ↦ rw (t, find_node, other, apart n t) refl
  | inr f ↦
      rw (f, find_node)
        (ap (λ o. if r n then some n else o) (find_node-edit_node_other p r new ns apart other))
]

module _ (strncmp : Strncmp) where
  open strncmp use {same}

  -- The test of `hash_search` on a node.
  pub is_named : List ℕ → KeyValue → Bool
  is_named name n = n.hash == hash_of name && same n.key name

  pub hash_search : HashMap → List ℕ → Option KeyValue
  hash_search table name = find_node (is_named name) (table (hash_of name % hash_size))

  -- `hash_insert`: the new node, and the table.
  pub hash_insert : HashMap → List ℕ → KeyValue × HashMap
  hash_insert table name =
      let h = hash_of name in
      let node : KeyValue = record { key = name; hash = h; value = 0; queue = none } in
      (node, update table (h % hash_size) (node ∷ table (h % hash_size)))

  -- A node is looked up, and made where there is none.
  pub node_of : HashMap → List ℕ → KeyValue × HashMap
  node_of table name = elim (hash_search table name) [
    | none ↦ hash_insert table name
    | some n ↦ (n, table)
  ]

  pub set_node : HashMap → List ℕ → KeyValue → HashMap
  set_node table name new =
      let i = hash_of name % hash_size in update table i (edit_node (is_named name) new (table i))

  -- `update_name`
  pub update_name : HashMap → Harbor → List ℕ → ℕ → List HarborAction × HashMap × Harbor
  update_name table h name handle =
      let (node, table') = node_of table name in
      let (acts, h', node') = name_node h node handle in (acts, set_node table' name node', h')

  -- The text of a name, as `strlen` measures it.
  pub text_of : List ℕ → List ℕ
  text_of [] = []
  text_of (c ∷ cs) = let rest = text_of cs in if c == 0 then [] else c ∷ rest

  -- `remote_send_name`: whether the harbor keeps the message, and what it does. A name that is not known
  -- is asked for, by `Q`, a space and the name.
  pub remote_send_name :
      HashMap → Harbor → ℕ → List ℕ → ℕ → ℕ → List ℕ → Bool × List HarborAction × HashMap × Harbor
  remote_send_name table h source name type session msg =
      let (node, table') = node_of table name in
      let kept : HarborMsgQueue = elim node.queue [ none ↦ new_queue | some q ↦ q ] in
      let header : RemoteHeader = record {
        source = source;
        destination = type * 2 ^ handle_remote_shift;
        session = session % 2 ^ 32;
      } in
      let waits : KeyValue = record node { queue = some (push_queue kept msg header) } in
      let query = send 0 h.slave ptype_text 0 (81 ∷ 32 ∷ text_of name) in
      let (ret, acts, h') = remote_send_handle h source node.value type session msg in
      if node.value == 0
      then (true, query ∷ [], set_node table' name waits, h)
      else (ret, acts, table', h')
