-- ===== src/Gate/Ids/Valid.antt =====
-- What holds of the table of ids: the chain of a slot has just the nodes whose ids belong there.
use Prim.Native.Nat.{bit_and}
use crynet.Prelude.{
  ℕ, zero, suc, ◌+◌, ◌≤◌, ◌<◌, ◌≡◌, ◌≢◌, refl, sym, ap, ◌∙◌, List, [], ◌∷◌, Option, some, none,
  true, false, arith, length, inl, inr, ◌⊎◌, ==-eq, ==-ne, Option-cases,
}
use mathlib.Core.Option.{none-ne-some, some-injective}
use crynet.Gate.Ids.{Hashid, has_id, lookup_loop, lookup, init}
use crynet.Gate.Ids.Chain.{In, IsDistinct, AllBelow, Links, length-le}
use native.Mathlib.Decide.{ℕ_discrete}

abbrev pub used_at : Option ℕ → ℕ
used_at none = 0
used_at (some id) = 1

-- How many of the first `n` nodes have an id.
abbrev pub used : ℕ → (ℕ → Option ℕ) → ℕ
used zero id = 0
used (suc n) id = used n id + used_at (id n)

used-none : (n : ℕ) → used n (λ _. none) ≡ 0
used-none zero = refl
used-none (suc n) = omega (arith, used-none n)

pub record IsValid (hi : Hashid) : Type 0 where
  pub chain : ℕ → List ℕ
  pub linked : (h : ℕ) → Links hi.next (hi.hash h) (chain h)
  pub distinct : (h : ℕ) → IsDistinct (chain h)
  pub home :
      (h c : ℕ)
      → In c (chain h)
      → (id : ℕ) × (hi.id c ≡ some id) × (bit_and id hi.hashmod ≡ h) × (c < hi.cap)
  pub placed : (c id : ℕ) → hi.id c ≡ some id → In c (chain (bit_and id hi.hashmod))
  pub unique : (c d id : ℕ) → hi.id c ≡ some id → hi.id d ≡ some id → c ≡ d
  pub free : (c : ℕ) → hi.id c ≡ none → hi.next c ≡ none
  pub counted : hi.count ≡ used hi.cap hi.id

pub has_id-cases :
    (hi : Hashid) (c id : ℕ)
    → ((has_id hi c id ≡ true) × (hi.id c ≡ some id))
      ⊎ ((has_id hi c id ≡ false) × (hi.id c ≢ some id))
has_id-cases hi c id = elim (Option-cases (hi.id c)) [
  | inl e ↦ inr (rw (has_id, e) refl, λ f. none-ne-some _ (sym e ∙ f))
  | inr (j, e) ↦ elim (ℕ_discrete j id) [
    | yes same ↦ inl (rw (has_id, e, ==-eq j id same) refl, e ∙ ap some same)
    | no ne ↦ inr (rw (has_id, e, ==-ne j id ne) refl, λ f. ne (some-injective _ _ (sym e ∙ f)))
  ]
]

AllBelow-chain : (n : ℕ) (l : List ℕ) → ((c : ℕ) → In c l → c < n) → AllBelow n l
AllBelow-chain n [] h = tt
AllBelow-chain n (b ∷ l) h = (h b (inl refl), AllBelow-chain n l (λ c i. h c (inr i)))

-- A chain is not longer than there are nodes.
pub length-chain : {hi : Hashid} (v : IsValid hi) (h : ℕ) → length (v.chain h) ≤ hi.cap
length-chain {hi} v h =
    length-le hi.cap (v.chain h) (AllBelow-chain hi.cap (v.chain h) (λ c i. (v.home h c i).3))
      (v.distinct h)

lookup_loop_found :
    (n : ℕ) (hi : Hashid) (p : Option ℕ) (l : List ℕ) (c id : ℕ)
    → Links hi.next p l
    → length l ≤ n
    → In c l
    → hi.id c ≡ some id
    → (d : ℕ) × (lookup_loop n hi p id ≡ some d) × (hi.id d ≡ some id)
unfolding lookup_loop
lookup_loop_found n hi p [] c id k len i e = absurd i
lookup_loop_found zero hi p (b ∷ l) c id k len i e = absurd (omega arith)
lookup_loop_found (suc n) hi p (b ∷ l) c id (at, k) len i e = elim (has_id-cases hi b id) [
  | inl (test, has) ↦ (b, rw (at, test) refl, has)
  | inr (test, has_not) ↦ elim i [
    | inl here ↦ absurd (has_not (ap hi.id (sym here) ∙ e))
    | inr later ↦
        let (d, run, f) = lookup_loop_found n hi (hi.next b) l c id k (omega arith) later e in
        (d, rw (at, test) run, f)
  ]
]

lookup_loop_missed :
    (n : ℕ) (hi : Hashid) (p : Option ℕ) (l : List ℕ) (id : ℕ)
    → Links hi.next p l
    → length l ≤ n
    → ((c : ℕ) → In c l → hi.id c ≢ some id)
    → lookup_loop n hi p id ≡ none
unfolding lookup_loop
lookup_loop_missed n hi p [] id k len out = rw k refl
lookup_loop_missed zero hi p (b ∷ l) id k len out = absurd (omega arith)
lookup_loop_missed (suc n) hi p (b ∷ l) id (at, k) len out = elim (has_id-cases hi b id) [
  | inl (test, has) ↦ absurd (out b (inl refl) has)
  | inr (test, has_not) ↦
      rw (at, test)
        (lookup_loop_missed n hi (hi.next b) l id k (omega arith) (λ c i. out c (inr i)))
]

-- `hashid_lookup` gives the node of an id that stands in the table.
pub lookup_found :
    {hi : Hashid} → IsValid hi → (c id : ℕ) → hi.id c ≡ some id → lookup hi id ≡ some c
unfolding lookup
lookup_found {hi} v c id e =
    let h = bit_and id hi.hashmod in
    let (d, run, f) =
      lookup_loop_found hi.cap hi (hi.hash h) (v.chain h) c id (v.linked h) (length-chain v h)
        (v.placed c id e) e in
    run ∙ ap some (v.unique d c id f e)

-- And `none` of any other.
pub lookup_missed :
    {hi : Hashid} → IsValid hi → (id : ℕ) → ((c : ℕ) → hi.id c ≢ some id) → lookup hi id ≡ none
unfolding lookup
lookup_missed {hi} v id out =
    let h = bit_and id hi.hashmod in
    lookup_loop_missed hi.cap hi (hi.hash h) (v.chain h) id (v.linked h) (length-chain v h)
      (λ c i. out c)

In-chain :
    (hi : Hashid) (id : ℕ) (l : List ℕ)
    → ((c : ℕ) × (hi.id c ≡ some id)) ⊎ ((c : ℕ) → In c l → hi.id c ≢ some id)
In-chain hi id [] = inr (λ c i e. i)
In-chain hi id (b ∷ l) = elim (has_id-cases hi b id) [
  | inl (_, has) ↦ inl (b, has)
  | inr (_, has_not) ↦ elim (In-chain hi id l) [
    | inl found ↦ inl found
    | inr out ↦ inr (λ c i. elim i [
      | inl here ↦ λ e. has_not (ap hi.id (sym here) ∙ e)
      | inr later ↦ out c later
    ])
  ]
]

-- An id stands at a node of the table, or at none.
pub found_or_missed :
    {hi : Hashid}
    → IsValid hi
    → (id : ℕ) → ((c : ℕ) × (hi.id c ≡ some id)) ⊎ ((c : ℕ) → hi.id c ≢ some id)
found_or_missed {hi} v id = elim (In-chain hi id (v.chain (bit_and id hi.hashmod))) [
  | inl found ↦ inl found
  | inr out ↦ inr (λ c e. out c (v.placed c id e) e)
]

pub init-IsValid : (max : ℕ) → IsValid (init max)
unfolding init
init-IsValid max = record {
  chain = λ h. [];
  linked = λ h. refl;
  distinct = λ h. tt;
  home = λ h c i. absurd i;
  placed = λ c id e. absurd (none-ne-some _ e);
  unique = λ c d id e e'. absurd (none-ne-some _ e);
  free = λ c e. refl;
  counted = sym (used-none max);
}

pub init-id : (max i : ℕ) → (init max).id i ≡ none
unfolding init
init-id max i = refl
