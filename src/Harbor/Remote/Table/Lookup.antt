-- ===== src/Harbor/Remote/Table/Lookup.antt =====
-- The hash table of names is a map: a name that gets a handle has it from then on, and the others stay.
use crynet.Prelude.{
  ℕ, ◌%◌, ◌≡◌, ◌≢◌, refl, sym, ap, ◌∙◌, List, [], ◌∷◌, none, some, ◌==◌, ==-eq, ==-ne, Bool, true,
  false, ◌&&◌, inl, inr, ◌⊎◌, update, update_self, update_cases, Bool-cases, Option-cases, arith,
}
use crynet.Harbor.Remote.{Harbor, remote_send_handle}
use crynet.Harbor.Remote.Named.{KeyValue, name_node, name_node_result}
use crynet.Harbor.Remote.Table.{
  Strncmp, HashMap, hash_size, hash_of, find_node, edit_node, find_node-edit_node,
  find_node-edit_node_other, is_named, hash_search, hash_insert, node_of, set_node, update_name,
  remote_send_name, none-ne-some,
}
use mathlib.Core.Option.{none-ne-some, some-injective}
use mathlib.Core.Path.{subst}

abbrev IsTrue : Bool → Type 0
IsTrue true = Unit
IsTrue false = ⊥

not_both : false ≡ true → ⊥
not_both e = subst IsTrue (sym e) tt

and_both : (a b : Bool) → (a && b) ≡ true → (a ≡ true) × (b ≡ true)
and_both true b e = (refl, e)
and_both false b e = absurd (not_both e)

find_node_holds :
    (p : KeyValue → Bool) (ns : List KeyValue) (n : KeyValue) → find_node p ns ≡ some n → p n ≡ true
unfolding find_node
find_node_holds p [] n e = absurd (none-ne-some _ e)
find_node_holds p (m ∷ ns) n e = elim (Bool-cases (p m)) [
  | inl t ↦ ap p (sym (some-injective _ _ (rw t at e))) ∙ t
  | inr f ↦ find_node_holds p ns n (rw f at e)
]

module _ (strncmp : Strncmp) where
  -- The texts of the names differ, or their bytes behind the text make their hashes differ.
  abbrev pub IsApart : List ℕ → List ℕ → Type 0
  IsApart name other = (hash_of name ≢ hash_of other) ⊎ (strncmp.same name other ≡ false)

  is_named_apart :
      (name other : List ℕ)
      → IsApart name other
      → (n : KeyValue) → is_named strncmp name n ≡ true
      → is_named strncmp other n ≡ false
  unfolding is_named
  is_named_apart name other apart n e = elim (Bool-cases (is_named strncmp other n)) [
    | inr f ↦ f
    | inl t ↦
        let (h, k) = and_both (n.hash == hash_of name) (strncmp.same n.key name) e in
        let (h', k') = and_both (n.hash == hash_of other) (strncmp.same n.key other) t in
        elim apart [
          | inl differ ↦ absurd (differ (ground arith))
          | inr differ ↦
              let same = strncmp.same_trans name n.key other (strncmp.same_sym n.key name k) k' in
              absurd (not_both (sym differ ∙ same))
        ]
  ]

  -- A search of another name does not see what becomes of the chain of this one.
  search_other :
      (table : HashMap) (i : ℕ) (chain : List KeyValue) (other : List ℕ)
      → find_node (is_named strncmp other) chain ≡ find_node (is_named strncmp other) (table i)
      → hash_search strncmp (update table i chain) other ≡ hash_search strncmp table other
  unfolding hash_search
  search_other table i chain other e =
      elim (update_cases table i chain (hash_of other % hash_size)) [
        | inl (here, now) ↦
            ap (find_node (is_named strncmp other)) now
            ∙ e
            ∙ ap (λ j. find_node (is_named strncmp other) (table j)) here
        | inr (_, old) ↦ ap (find_node (is_named strncmp other)) old
      ]

  -- What a node stands for that was looked up or made.
  record Stands (table : HashMap) (name : List ℕ) (found : KeyValue × HashMap) : Type 0 where
    at : hash_search strncmp found.1 name ≡ some found.0
    named : is_named strncmp name found.0 ≡ true
    others :
        (other : List ℕ)
        → IsApart name other
        → hash_search strncmp found.1 other ≡ hash_search strncmp table other

  hash_insert-Stands :
      (table : HashMap) (name : List ℕ) → Stands table name (hash_insert strncmp table name)
  unfolding hash_insert hash_search is_named find_node
  hash_insert-Stands table name =
      let i = hash_of name % hash_size in
      let node : KeyValue = record { key = name; hash = hash_of name; value = 0; queue = none } in
      let own : is_named strncmp name node ≡ true =
        rw (is_named, ==-eq (hash_of name) (hash_of name) refl, strncmp.same_refl name) refl in
      record {
        at =
            ap (find_node (is_named strncmp name)) (update_self table i (node ∷ table i))
            ∙ rw (find_node, own) refl;
        named = own;
        others = λ other apart.
            search_other table i (node ∷ table i) other
              (rw (find_node, is_named_apart name other apart node own) refl);
      }

  node_of-Stands :
      (table : HashMap) (name : List ℕ) → Stands table name (node_of strncmp table name)
  unfolding node_of hash_search
  node_of-Stands table name = elim (Option-cases (hash_search strncmp table name)) [
    | inl e ↦ rw (node_of, e) (hash_insert-Stands table name)
    | inr (n, e) ↦
        rw (node_of, e)
          (record {
            at = e;
            named = find_node_holds (is_named strncmp name) (table (hash_of name % hash_size)) n e;
            others = λ other apart. refl;
          })
  ]

  set_node_found :
      (table : HashMap) (name : List ℕ) (old new : KeyValue)
      → hash_search strncmp table name ≡ some old
      → is_named strncmp name new ≡ true
      → hash_search strncmp (set_node strncmp table name new) name ≡ some new
  unfolding set_node hash_search
  set_node_found table name old new e own =
      let i = hash_of name % hash_size in
      ap (find_node (is_named strncmp name))
        (update_self table i (edit_node (is_named strncmp name) new (table i)))
      ∙ find_node-edit_node (is_named strncmp name) new (table i) old own e

  set_node_others :
      (table : HashMap) (name : List ℕ) (new : KeyValue) (other : List ℕ)
      → is_named strncmp name new ≡ true
      → IsApart name other
      → hash_search strncmp (set_node strncmp table name new) other
        ≡ hash_search strncmp table other
  unfolding set_node
  set_node_others table name new other own apart =
      let i = hash_of name % hash_size in
      search_other table i (edit_node (is_named strncmp name) new (table i)) other (
        find_node-edit_node_other (is_named strncmp name) (is_named strncmp other) new (table i)
          (is_named_apart name other apart) (is_named_apart name other apart new own))

  -- A message to a name that is known goes to its handle.
  remote_send_name_known :
      (table : HashMap) (h : Harbor) (source : ℕ) (name : List ℕ) (type session : ℕ) (msg : List ℕ)
      (n : KeyValue)
      → hash_search strncmp table name ≡ some n
      → n.value ≢ 0
      → let sent = remote_send_handle h source n.value type session msg in
        remote_send_name strncmp table h source name type session msg
        ≡ (sent.0, sent.1, table, sent.2)
  unfolding remote_send_name node_of
  remote_send_name_known table h source name type session msg n e ne =
      rw (remote_send_name, node_of, e, ==-ne n.value 0 ne) refl

  -- What changes with a name that gets a handle.
  pub record Updates (table table' : HashMap) (h' : Harbor) (name : List ℕ) (handle : ℕ)
      : Type 0 where
    pub found :
        (n : KeyValue) × (hash_search strncmp table' name ≡ some n)
        × (n.value ≡ handle)
        × (n.queue ≡ none)
    pub others :
        (other : List ℕ)
        → IsApart name other
        → hash_search strncmp table' other ≡ hash_search strncmp table other
    pub sends :
        (source type session : ℕ) (msg : List ℕ)
        → handle ≢ 0
        → let sent = remote_send_handle h' source handle type session msg in
          remote_send_name strncmp table' h' source name type session msg
          ≡ (sent.0, sent.1, table', sent.2)

  -- When a name gets a handle, a search finds it with that handle and without a queue; a name whose
  -- text or hash is another one is found as before; and a message to the name goes where a message to
  -- the handle goes, unless the handle is 0.
  pub update_name-Updates :
      (table : HashMap) (h : Harbor) (name : List ℕ) (handle : ℕ)
      → let after = update_name strncmp table h name handle in
        Updates table after.1 after.2 name handle
  unfolding update_name is_named
  update_name-Updates table h name handle =
      let found = node_of strncmp table name in
      let stands = node_of-Stands table name in
      let new : KeyValue = record found.0 { value = handle; queue = none } in
      let result = name_node_result h found.0 handle in
      let named = set_node_found found.1 name found.0 new stands.at stands.named in
      rw (update_name, result)
        (record {
          found = (new, named, refl, refl);
          others = λ other apart.
              set_node_others found.1 name new other stands.named apart ∙ stands.others other apart;
          sends = λ source type session msg ne.
              remote_send_name_known (set_node strncmp found.1 name new)
                (name_node h found.0 handle).1 source name type session msg new named ne;
        })
