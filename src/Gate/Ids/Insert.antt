-- ===== src/Gate/Ids/Insert.antt =====
-- Inserting an id.
use Prim.Native.Nat.{bit_and}
use crynet.Prelude.{
  ℕ, zero, suc, ◌+◌, ◌%◌, ◌^◌, ◌≤◌, ◌<◌, ◌≡◌, ◌≢◌, refl, sym, ap, ◌∙◌, List, ◌∷◌, Option, some,
  none, false, arith, inl, inr, ◌⊎◌, leb, Option-cases, update, update_cases, update_self, ==-ne,
}
use mathlib.Core.Option.{none-ne-some, some-injective}
use crynet.Prelude.Residues.{reach}
use crynet.Gate.Ids.{Hashid, find_free, link_node, insert, full}
use crynet.Gate.Ids.Chain.{In, IsDistinct, Links, Links-update}
use crynet.Gate.Ids.Valid.{IsValid, used, used_at}
use native.Mathlib.Nat.{mod-lt}
use mathlib.Core.Path.{subst}
use native.Mathlib.Decide.{ℕ_discrete}

-- While not all are used, one is free.
used-lt : (n : ℕ) (id : ℕ → Option ℕ) → used n id < n → (c : ℕ) × (c < n) × (id c ≡ none)
used-lt zero id h = absurd (omega arith)
used-lt (suc n) id h = elim (Option-cases (id n)) [
  | inl e ↦ (n, omega arith, e)
  | inr (j, e) ↦
      let one : used n id + 1 < suc n = rw e at h in
      let (c, lt, f) = used-lt n id (omega arith) in (c, omega arith, f)
]

used-update_above :
    (n : ℕ) (id : ℕ → Option ℕ) (c : ℕ) (o : Option ℕ) → n ≤ c → used n (update id c o) ≡ used n id
used-update_above zero id c o h = refl
used-update_above (suc n) id c o h = elim (update_cases id c o n) [
  | inl (same, _) ↦ absurd (omega arith)
  | inr (_, old) ↦ rw (old, used-update_above n id c o (omega arith)) refl
]

pub used-update :
    (n : ℕ) (id : ℕ → Option ℕ) (c : ℕ) (o : Option ℕ)
    → c < n
    → used n (update id c o) + used_at (id c) ≡ used n id + used_at o
used-update zero id c o h = absurd (omega arith)
used-update (suc n) id c o h = elim (update_cases id c o n) [
  | inl (same, now) ↦
      let rest = used-update_above n id c o (omega arith) in
      let there : used_at (id c) ≡ used_at (id n) = ap (λ (k : ℕ). used_at (id k)) same in
      omega (arith, rest, there, ap used_at now)
  | inr (ne, old) ↦ omega (arith, used-update n id c o (omega arith), ap used_at old)
]

used-le : (n : ℕ) (id : ℕ → Option ℕ) → used n id ≤ n
used-le zero id = omega arith
used-le (suc n) id = elim (Option-cases (id n)) [
  | inl e ↦ rw e (omega (arith, used-le n id))
  | inr (j, e) ↦ rw e (omega (arith, used-le n id))
]

-- `hashid_full` says whether a node is left.
pub not_full : {hi : Hashid} → IsValid hi → full hi ≡ false → hi.count < hi.cap
unfolding full
not_full {hi} v e =
    let bound : hi.count ≤ hi.cap = omega (arith, v.counted, used-le hi.cap hi.id) in ground arith

-- Some node that the loop comes to is free.
find_free_found :
    (n i : ℕ) (hi : Hashid) (id j : ℕ)
    → 0 < hi.cap
    → i + n + id ≤ 2 ^ 31
    → i ≤ j
    → j < i + n
    → hi.id ((j + id) % hi.cap) ≡ none
    → (c : ℕ) × (find_free n i hi id ≡ some c) × (hi.id c ≡ none) × (c < hi.cap)
unfolding find_free
find_free_found zero i hi id j pos fits lo hi_j e = absurd (omega arith)
find_free_found (suc n) i hi id j pos fits lo hi_j e =
    let small : leb (2 ^ 31) (i + id) ≡ false = ground arith in
    let index = (i + id) % hi.cap in
    elim (Option-cases (hi.id index)) [
      | inl free ↦ (index, rw (small, free) refl, free, mod-lt (i + id) pos)
      | inr (k, full) ↦
          let ne : i ≢ j = λ same.
            none-ne-some _ (sym e ∙ ap (λ (k : ℕ). hi.id ((k + id) % hi.cap)) (sym same) ∙ full) in
          let (c, run, free, lt) =
            find_free_found n (i + 1) hi id j pos (omega arith) (omega arith) (omega arith) e in
          (c, rw (small, full) run, free, lt)
    ]

pub absent : {hi : Hashid} (v : IsValid hi) (h c : ℕ) → hi.id c ≡ none → In c (v.chain h) → ⊥
absent v h c e i = let (id, f, _, _) = v.home h c i in none-ne-some _ (sym e ∙ f)

-- The table with the id at the free node.
abbrev pub linked_node : Hashid → ℕ → ℕ → Hashid
linked_node hi c id =
    let h = bit_and id hi.hashmod in
    record hi {
      count = hi.count + 1;
      id = update hi.id c (some id);
      next = update hi.next c (hi.hash h);
      hash = update hi.hash h (some c);
    }

module _ {hi : Hashid} (v : IsValid hi) (c id : ℕ) (free : hi.id c ≡ none) (low : c < hi.cap)
    (new : (d : ℕ) → hi.id d ≢ some id) where
  abbrev slot : ℕ
  slot = bit_and id hi.hashmod

  chain' : ℕ → List ℕ
  chain' = update v.chain slot (c ∷ v.chain slot)

  In-chain' : (h d : ℕ) → In d (v.chain h) → In d (chain' h)
  unfolding chain'
  In-chain' h d i = elim (update_cases v.chain slot (c ∷ v.chain slot) h) [
    | inl (same, now) ↦
        subst (In d) (sym now) (inr (subst (λ (k : ℕ). In d (v.chain k)) (sym same) i))
    | inr (_, old) ↦ subst (In d) (sym old) i
  ]

  -- A node of the new chains is the new one, in its slot, or an old one.
  In-chain'-cases : (h d : ℕ) → In d (chain' h) → ((d ≡ c) × (slot ≡ h)) ⊎ In d (v.chain h)
  unfolding chain'
  In-chain'-cases h d i = elim (update_cases v.chain slot (c ∷ v.chain slot) h) [
    | inl (same, now) ↦ elim (subst (In d) now i) [
      | inl here ↦ inl (here, same)
      | inr later ↦ inr (subst (λ (k : ℕ). In d (v.chain k)) same later)
    ]
    | inr (_, old) ↦ inr (subst (In d) old i)
  ]

  linked' :
      (h : ℕ) → Links (update hi.next c (hi.hash slot)) (update hi.hash slot (some c) h) (chain' h)
  unfolding chain'
  linked' h = elim (ℕ_discrete slot h) [
    | yes same ↦
        subst
          (λ (k : ℕ).
            Links (update hi.next c (hi.hash slot)) (update hi.hash slot (some c) k)
              (update v.chain slot (c ∷ v.chain slot) k))
          same
          (rw
            (
              update_self hi.hash slot (some c),
              update_self v.chain slot (c ∷ v.chain slot),
              update_self hi.next c (hi.hash slot),
            )
            (
              refl,
              Links-update hi.next (hi.hash slot) (v.chain slot) c (hi.hash slot)
                  (absent v slot c free) (v.linked slot),
            ))
    | no ne ↦ rw (==-ne slot h ne) (
        Links-update hi.next (hi.hash h) (v.chain h) c (hi.hash slot) (absent v h c free)
          (v.linked h))
  ]

  distinct' : (h : ℕ) → IsDistinct (chain' h)
  unfolding chain'
  distinct' h = elim (update_cases v.chain slot (c ∷ v.chain slot) h) [
    | inl (_, now) ↦ subst IsDistinct (sym now) (absent v slot c free, v.distinct slot)
    | inr (_, old) ↦ subst IsDistinct (sym old) (v.distinct h)
  ]

  -- What the new ids are.
  id-cases :
      (d j : ℕ)
      → update hi.id c (some id) d ≡ some j
      → ((c ≡ d) × (id ≡ j)) ⊎ ((c ≢ d) × (hi.id d ≡ some j))
  id-cases d j e = elim (update_cases hi.id c (some id) d) [
    | inl (same, now) ↦ inl (same, some-injective _ _ (sym now ∙ e))
    | inr (ne, old) ↦ inr (ne, sym old ∙ e)
  ]

  keeps : (d j : ℕ) → hi.id d ≡ some j → update hi.id c (some id) d ≡ some j
  keeps d j e = elim (update_cases hi.id c (some id) d) [
    | inl (same, _) ↦ absurd (none-ne-some _ (sym free ∙ ap hi.id same ∙ e))
    | inr (_, old) ↦ old ∙ e
  ]

  In-new : In c (chain' slot)
  unfolding chain'
  In-new = subst (In c) (sym (update_self v.chain slot (c ∷ v.chain slot))) (inl refl)

  pub linked_node-IsValid : IsValid (linked_node hi c id)
  linked_node-IsValid = record {
    chain = chain';
    linked = linked';
    distinct = distinct';
    home = λ h d i. elim (In-chain'-cases h d i) [
      | inl (here, there) ↦ (
        id,
        ap (update hi.id c (some id)) here ∙ update_self hi.id c (some id),
        there,
        omega arith,
      )
      | inr old ↦ let (j, e, f, lt) = v.home h d old in (j, keeps d j e, f, lt)
    ];
    placed = λ d j e. elim (id-cases d j e) [
      | inl (same, same_id) ↦
          subst (λ (k : ℕ). In k (chain' (bit_and j hi.hashmod))) same
            (subst (λ (k : ℕ). In c (chain' (bit_and k hi.hashmod))) same_id In-new)
      | inr (_, old) ↦ In-chain' (bit_and j hi.hashmod) d (v.placed d j old)
    ];
    unique = λ d d' j e e'. elim (id-cases d j e) [
      | inl (same, same_id) ↦ elim (id-cases d' j e') [
        | inl (same', _) ↦ sym same ∙ same'
        | inr (_, old) ↦ absurd (new d' (old ∙ ap some (sym same_id)))
      ]
      | inr (_, old) ↦ elim (id-cases d' j e') [
        | inl (_, same_id) ↦ absurd (new d (old ∙ ap some (sym same_id)))
        | inr (_, old') ↦ v.unique d d' j old old'
      ]
    ];
    free = λ d e. elim (update_cases hi.id c (some id) d) [
      | inl (_, now) ↦ absurd (none-ne-some _ (sym e ∙ now))
      | inr (ne, old) ↦ elim (update_cases hi.next c (hi.hash slot) d) [
        | inl (same, _) ↦ absurd (ne same)
        | inr (_, old') ↦ old' ∙ v.free d (sym old ∙ e)
      ]
    ];
    counted = omega (arith, used-update hi.cap hi.id c (some id) low, ap used_at free, v.counted);
  }

-- What an insertion promises: the node was free, and has the id now; no other changes.
pub record Inserted (hi hi' : Hashid) (c id : ℕ) : Type 0 where
  pub valid : IsValid hi'
  pub low : c < hi.cap
  pub was_free : hi.id c ≡ none
  pub ids : (d : ℕ) → hi'.id d ≡ update hi.id c (some id) d
  pub same : (hi'.cap ≡ hi.cap) × (hi'.hashmod ≡ hi.hashmod) × (hi'.count ≡ hi.count + 1)

-- While the table is not full, and the id so small that no sum overflows, a new id is put at a free
-- node; no assertion fails, and the table stays valid.
pub insert-Inserted :
    (hi : Hashid) (id : ℕ)
    → IsValid hi
    → hi.count < hi.cap
    → hi.cap + id ≤ 2 ^ 31
    → ((c : ℕ) → hi.id c ≢ some id)
    → (c : ℕ) × (hi' : Hashid) × (insert hi id ≡ some (c, hi')) × Inserted hi hi' c id
unfolding insert link_node
insert-Inserted hi id v room small new =
    let (e, low, empty) = used-lt hi.cap hi.id (omega (arith, v.counted)) in
    let (j, lt, at) = reach hi.cap id e (omega arith) low in
    let order : j + id ≡ id + j = omega arith in
    let empty_j : hi.id ((j + id) % hi.cap) ≡ none =
      ap (λ (k : ℕ). hi.id (k % hi.cap)) order ∙ ap hi.id at ∙ empty in
    let (c, run, free, low') =
      find_free_found hi.cap 0 hi id j (omega arith) (omega arith) (omega arith) (omega arith)
        empty_j in
    (
      c,
      linked_node hi c id,
      rw (insert, run, link_node, v.free c free) refl,
      record {
        valid = linked_node-IsValid v c id free low' new;
        low = low';
        was_free = free;
        ids = λ d. refl;
        same = (refl, refl, refl);
      },
    )
