-- ===== src/Gate/Ids/Remove.antt =====
-- Removing an id.
use Prim.Native.Nat.{bit_and}
use crynet.Prelude.{
  ℕ, zero, suc, ◌-◌, ◌≤◌, ◌≡◌, ◌≢◌, refl, sym, ap, ◌∙◌, List, [], ◌∷◌, Option, some, none, true,
  false, arith, inl, inr, update, update_cases, update_self, length, ◌==◌, ==-eq, ==-ne,
}
use mathlib.Core.Option.{none-ne-some, some-injective}
use crynet.Gate.Ids.{Hashid, remove_loop, remove, clear_node}
use crynet.Gate.Ids.Chain.{
  In, IsDistinct, Links, Links-update, Links-same, erase, In-erase, In-erase_other,
  IsDistinct-erase, erase_gone,
}
use crynet.Gate.Ids.Valid.{IsValid, used_at, has_id-cases, length-chain}
use crynet.Gate.Ids.Insert.{absent, used-update}
use mathlib.Core.Path.{subst}
use native.Mathlib.Decide.{ℕ_discrete}

-- The loop passes the node `t` by, when the chain goes on from `c` with `rest`.
record Bypassed (hi : Hashid) (n : ℕ) (c : ℕ) (rest : List ℕ) (p : Option ℕ) (t id : ℕ)
    (nx : ℕ → Option ℕ) : Type 0 where
  run : remove_loop n hi c id ≡ (some t, clear_node (record hi { next = nx }) t)
  links : Links nx p (c ∷ erase t rest)
  outside : (d : ℕ) → (In d (c ∷ rest) → ⊥) → nx d ≡ hi.next d

remove_loop_found :
    (hi : Hashid) (n c : ℕ) (rest : List ℕ) (p : Option ℕ) (t id : ℕ)
    → Links hi.next p (c ∷ rest)
    → IsDistinct (c ∷ rest)
    → length rest ≤ n
    → In t rest
    → hi.id t ≡ some id
    → ((d : ℕ) → hi.id d ≡ some id → d ≡ t)
    → (nx : ℕ → Option ℕ) × Bypassed hi n c rest p t id nx
unfolding remove_loop
remove_loop_found hi n c [] p t id k d len i e only = absurd i
remove_loop_found hi zero c (b ∷ rest) p t id k d len i e only = absurd (omega arith)
remove_loop_found hi (suc n) c (b ∷ rest) p t id (at, (to, k)) (out, (out', d)) len i e only =
    elim (has_id-cases hi b id) [
      | inl (test, has) ↦
          let same = only b has in
          let first : (t == b) ≡ true = ==-eq t b (sym same) in
          let passed : ℕ → Option ℕ × Hashid =
            λ k. (some k, clear_node (record hi { next = update hi.next c (hi.next b) }) k) in
          (
            update hi.next c (hi.next b),
            record {
              run = rw (remove_loop, to, test) (ap passed same);
              links = rw first (
                at,
                rw (update_self hi.next c (hi.next b))
                    (Links-update hi.next (hi.next b) rest c (hi.next b) (λ j. out (inr j)) k),
              );
              outside = λ d' j. elim (update_cases hi.next c (hi.next b) d') [
                | inl (same', _) ↦ absurd (j (inl (sym same')))
                | inr (_, old) ↦ old
              ];
            },
          )
      | inr (test, has_not) ↦ elim i [
        | inl here ↦ absurd (has_not (ap hi.id (sym here) ∙ e))
        | inr later ↦
            let (nx, r) =
              remove_loop_found hi n b rest (hi.next c) t id (to, k) (out', d) (omega arith) later e
                only in
            let other : (t == b) ≡ false = ==-ne t b (λ same. has_not (ap hi.id (sym same) ∙ e)) in
            (
              nx,
              record {
                run = rw (remove_loop, to, test) r.run;
                links = rw other (
                  at,
                  subst (λ o. Links nx o (b ∷ erase t rest)) (sym (r.outside c out)) r.links,
                );
                outside = λ d' j. r.outside d' (λ j'. j (inr j'));
              },
            )
      ]
    ]

remove_loop_missed :
    (hi : Hashid) (n c : ℕ) (rest : List ℕ) (id : ℕ)
    → Links hi.next (hi.next c) rest
    → length rest ≤ n
    → ((d : ℕ) → hi.id d ≢ some id)
    → remove_loop n hi c id ≡ (none, hi)
unfolding remove_loop
remove_loop_missed hi zero c [] id k len out = refl
remove_loop_missed hi zero c (b ∷ rest) id k len out = absurd (omega arith)
remove_loop_missed hi (suc n) c [] id k len out = rw (remove_loop, k) refl
remove_loop_missed hi (suc n) c (b ∷ rest) id (to, k) len out = elim (has_id-cases hi b id) [
  | inl (_, has) ↦ absurd (out b has)
  | inr (test, _) ↦
      rw (remove_loop, to, test) (remove_loop_missed hi n b rest id k (omega arith) out)
]

-- The table without the node `t`, once its chain is `nx` and `hash`.
abbrev cleared : Hashid → (ℕ → Option ℕ) → (ℕ → Option ℕ) → ℕ → Hashid
cleared hi nx hash t = clear_node (record hi { next = nx; hash = hash }) t

module _ {hi : Hashid} (v : IsValid hi) (t id : ℕ) (at : hi.id t ≡ some id) (nx hash : ℕ → Option ℕ)
    (links : Links nx (hash (bit_and id hi.hashmod)) (erase t (v.chain (bit_and id hi.hashmod))))
    (others : (h : ℕ) → bit_and id hi.hashmod ≢ h → hash h ≡ hi.hash h)
    (outside : (d : ℕ) → (In d (v.chain (bit_and id hi.hashmod)) → ⊥) → nx d ≡ hi.next d) where
  abbrev slot : ℕ
  slot = bit_and id hi.hashmod

  chain' : ℕ → List ℕ
  chain' = update v.chain slot (erase t (v.chain slot))

  In-chain' : (h d : ℕ) → In d (chain' h) → In d (v.chain h)
  unfolding chain'
  In-chain' h d i = elim (update_cases v.chain slot (erase t (v.chain slot)) h) [
    | inl (same, now) ↦
        subst (λ (k : ℕ). In d (v.chain k)) same (In-erase t d (v.chain slot) (subst (In d) now i))
    | inr (_, old) ↦ subst (In d) old i
  ]

  -- A node stands in one chain at most.
  one_chain : (h h' d : ℕ) → In d (v.chain h) → In d (v.chain h') → h ≡ h'
  one_chain h h' d i i' =
      let (j, e, f, _) = v.home h d i in
      let (j', e', f', _) = v.home h' d i' in
      let same : j ≡ j' = some-injective _ _ (sym e ∙ e') in
      sym f ∙ ap (λ (k : ℕ). bit_and k hi.hashmod) same ∙ f'

  gone : (h : ℕ) → In t (chain' h) → ⊥
  unfolding chain'
  gone h i = elim (update_cases v.chain slot (erase t (v.chain slot)) h) [
    | inl (_, now) ↦ erase_gone t (v.chain slot) (v.distinct slot) (subst (In t) now i)
    | inr (ne, old) ↦ ne (one_chain slot h t (v.placed t id at) (subst (In t) old i))
  ]

  before : (h : ℕ) → Links nx (hash h) (chain' h)
  unfolding chain'
  before h = elim (ℕ_discrete slot h) [
    | yes same ↦
        subst (λ (k : ℕ). Links nx (hash k) (update v.chain slot (erase t (v.chain slot)) k)) same
          (rw (update_self v.chain slot (erase t (v.chain slot))) links)
    | no ne ↦
        rw (==-ne slot h ne, others h ne)
          (Links-same hi.next nx (hi.hash h) (v.chain h)
            (λ d i. outside d (λ j. ne (one_chain slot h d j i))) (v.linked h))
  ]

  linked' : (h : ℕ) → Links (update nx t none) (hash h) (chain' h)
  linked' h = Links-update nx (hash h) (chain' h) t none (gone h) (before h)

  distinct' : (h : ℕ) → IsDistinct (chain' h)
  unfolding chain'
  distinct' h = elim (update_cases v.chain slot (erase t (v.chain slot)) h) [
    | inl (_, now) ↦
        subst IsDistinct (sym now) (IsDistinct-erase t (v.chain slot) (v.distinct slot))
    | inr (_, old) ↦ subst IsDistinct (sym old) (v.distinct h)
  ]

  In-chain'_other : (h d : ℕ) → t ≢ d → In d (v.chain h) → In d (chain' h)
  unfolding chain'
  In-chain'_other h d ne i = elim (update_cases v.chain slot (erase t (v.chain slot)) h) [
    | inl (same, now) ↦
        subst (In d) (sym now)
          (In-erase_other t d (v.chain slot) ne (subst (λ (k : ℕ). In d (v.chain k)) (sym same) i))
    | inr (_, old) ↦ subst (In d) (sym old) i
  ]

  id-old : (d j : ℕ) → update hi.id t none d ≡ some j → (t ≢ d) × (hi.id d ≡ some j)
  id-old d j e = elim (update_cases hi.id t none d) [
    | inl (_, now) ↦ absurd (none-ne-some _ (sym now ∙ e))
    | inr (ne, old) ↦ (ne, sym old ∙ e)
  ]

  free' : (d : ℕ) → update hi.id t none d ≡ none → update nx t none d ≡ none
  free' d e = elim (update_cases nx t none d) [
    | inl (_, now) ↦ now
    | inr (ne, now) ↦ elim (update_cases hi.id t none d) [
      | inl (same, _) ↦ absurd (ne same)
      | inr (_, old) ↦
          let free = sym old ∙ e in now ∙ outside d (absent v slot d free) ∙ v.free d free
    ]
  ]

  cleared-IsValid : IsValid (cleared hi nx hash t)
  cleared-IsValid =
      let (_, _, _, low) = v.home slot t (v.placed t id at) in
      record {
        chain = chain';
        linked = linked';
        distinct = distinct';
        home = λ h d i.
            let (j, e, f, lt) = v.home h d (In-chain' h d i) in
            let ne : t ≢ d = λ same. gone h (subst (λ (k : ℕ). In k (chain' h)) (sym same) i) in
            (j, rw (==-ne t d ne) e, f, lt);
        placed = λ d j e.
            let (ne, old) = id-old d j e in
            In-chain'_other (bit_and j hi.hashmod) d ne (v.placed d j old);
        unique = λ d d' j e e'. v.unique d d' j (id-old d j e).1 (id-old d' j e').1;
        free = free';
        counted = omega (arith, used-update hi.cap hi.id t none low, ap used_at at, v.counted);
      }

-- What a removal promises: the node is free, and no other changes.
pub record Removed (hi hi' : Hashid) (c : ℕ) : Type 0 where
  pub valid : IsValid hi'
  pub ids : (d : ℕ) → hi'.id d ≡ update hi.id c none d
  pub same : (hi'.cap ≡ hi.cap) × (hi'.hashmod ≡ hi.hashmod) × (hi'.count ≡ hi.count - 1)

removed :
    {hi : Hashid} (v : IsValid hi) (c id : ℕ) (at : hi.id c ≡ some id) (nx hash : ℕ → Option ℕ)
    → Links nx (hash (bit_and id hi.hashmod)) (erase c (v.chain (bit_and id hi.hashmod)))
    → ((h : ℕ) → bit_and id hi.hashmod ≢ h → hash h ≡ hi.hash h)
    → ((d : ℕ) → (In d (v.chain (bit_and id hi.hashmod)) → ⊥) → nx d ≡ hi.next d)
    → Removed hi (cleared hi nx hash c) c
removed v c id at nx hash links others outside = record {
  valid = cleared-IsValid v c id at nx hash links others outside;
  ids = λ d. refl;
  same = (refl, refl, refl);
}

-- The removal, by the chain of the id.
remove_from :
    {hi : Hashid} (v : IsValid hi) (c id : ℕ) (at : hi.id c ≡ some id) (l : List ℕ)
    → v.chain (bit_and id hi.hashmod) ≡ l
    → Links hi.next (hi.hash (bit_and id hi.hashmod)) l
    → IsDistinct l
    → length l ≤ hi.cap
    → In c l
    → (hi' : Hashid) × (remove hi id ≡ (some c, hi')) × Removed hi hi' c
unfolding remove
remove_from v c id at [] same k d len i = absurd i
remove_from {hi} v c id at (b ∷ rest) same (to, k) d len i =
    let h = bit_and id hi.hashmod in
    elim (has_id-cases hi b id) [
      | inl (test, has) ↦
          let here = v.unique b c id has at in
          let first : (c == b) ≡ true = ==-eq c b (sym here) in
          let hash = update hi.hash h (hi.next b) in
          let found : ℕ → Option ℕ × Hashid =
            λ m. (some m, clear_node (record hi { hash = hash }) m) in
          let links : Links hi.next (hash h) (erase c (b ∷ rest)) =
            rw (update_self hi.hash h (hi.next b), first) k in
          (
            cleared hi hi.next hash c,
            rw (remove, to, test) (ap found here),
            removed v c id at hi.next hash
                (subst (λ l. Links hi.next (hash h) (erase c l)) (sym same) links)
                (λ h' ne. rw (==-ne h h' ne) refl) (λ d' j. refl),
          )
      | inr (test, has_not) ↦
          let ne : c ≢ b = λ here. has_not (ap hi.id (sym here) ∙ at) in
          let other : (c == b) ≡ false = ==-ne c b ne in
          let later : In c rest = elim i [ inl here ↦ absurd (ne here) | inr later ↦ later ] in
          let (nx, r) =
            remove_loop_found hi hi.cap b rest (hi.hash h) c id (to, k) d (omega arith) later at
              (λ d' e. v.unique d' c id e at) in
          let links : Links nx (hi.hash h) (erase c (b ∷ rest)) = rw other r.links in
          (
            cleared hi nx hi.hash c,
            rw (remove, to, test) r.run,
            removed v c id at nx hi.hash
                (subst (λ l. Links nx (hi.hash h) (erase c l)) (sym same) links) (λ h' ne. refl)
                (λ d' j. r.outside d' (λ j'. j (subst (In d') (sym same) j'))),
          )
    ]

-- Removing an id that stands in the table frees its node.
pub remove-Removed :
    (hi : Hashid) (c id : ℕ)
    → IsValid hi
    → hi.id c ≡ some id
    → (hi' : Hashid) × (remove hi id ≡ (some c, hi')) × Removed hi hi' c
remove-Removed hi c id v at =
    let h = bit_and id hi.hashmod in
    remove_from v c id at (v.chain h) refl (v.linked h) (v.distinct h) (length-chain v h)
      (v.placed c id at)

remove_absent :
    {hi : Hashid} (id : ℕ) (l : List ℕ)
    → Links hi.next (hi.hash (bit_and id hi.hashmod)) l
    → length l ≤ hi.cap
    → ((d : ℕ) → hi.id d ≢ some id)
    → remove hi id ≡ (none, hi)
unfolding remove
remove_absent {hi} id [] k len out = rw (remove, k) refl
remove_absent {hi} id (b ∷ rest) (to, k) len out = elim (has_id-cases hi b id) [
  | inl (_, has) ↦ absurd (out b has)
  | inr (test, _) ↦
      rw (remove, to, test) (remove_loop_missed hi hi.cap b rest id k (omega arith) out)
]

-- Removing any other id changes nothing.
pub remove_missed :
    (hi : Hashid) (id : ℕ) → IsValid hi → ((c : ℕ) → hi.id c ≢ some id) → remove hi id ≡ (none, hi)
remove_missed hi id v out =
    let h = bit_and id hi.hashmod in
    remove_absent id (v.chain h) (v.linked h) (length-chain v h) out
