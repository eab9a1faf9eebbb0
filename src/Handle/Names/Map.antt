-- ===== src/Handle/Names/Map.antt =====
-- The names are a map: a name is found just if it is there, and a new one leaves the others.
use Prim.Native.Nat.{Ordering}
use crynet.Prelude.{
  if◌then◌else◌, leb, [], ◌∷◌, ℕ, zero, suc, ◌*◌, ◌≤◌, ◌<◌, ◌≡◌, refl, sym, ap, ◌∙◌, List, Option,
  some, none, get_elem?, length, arith, ◌⊎◌, inl, inr, true, false, Bool-cases, ltb, ◌≢◌,
}
use crynet.Handle.{HandleName, Storage}
use crynet.Handle.Names.{Strcmp, search_name, findname, namehandle, max_slot_size}
use crynet.Handle.Names.Search.{IsSorted, Between, Tells, search_name-Tells}
use crynet.Handle.Names.Insert.{
  insert_at, named, insert_name_before-named, insert_at-cases, get_elem?-insert_at_below,
  get_elem?-insert_at_self, get_elem?-insert_at_above,
}
use mathlib.Core.Path.{subst}
use native.Mathlib.Decide.{ℕ_discrete}
use mathlib.Core.Option.{some-injective}

-- The name is there, with this handle.
abbrev pub Has : List HandleName → List ℕ → ℕ → Type 0
Has names name handle =
    (k : ℕ) × (n : HandleName) × (get_elem? names k ≡ some n)
    × (n.name ≡ name)
    × (n.handle ≡ handle)

abbrev IsLt : Ordering → Type 0
IsLt Ordering.lt = Unit
IsLt Ordering.eq = ⊥
IsLt Ordering.gt = ⊥

lt-eq : Ordering.lt ≡ Ordering.eq → ⊥
lt-eq e = subst IsLt e tt

length-insert_at :
    (b : ℕ) (x : HandleName) (l : List HandleName) → length (insert_at b x l) ≡ suc (length l)
length-insert_at zero x l = refl
length-insert_at (suc b) x [] = refl
length-insert_at (suc b) x (y ∷ l) = rw (length-insert_at b x l) (omega arith)

named-room :
    (cap count : ℕ) → count ≤ cap → 0 < cap → suc count ≤ (if leb cap count then cap * 2 else cap)
named-room cap count fits some_cap = ground arith

module _ (order : Strcmp) where
  cmp-irreflexive : (a : List ℕ) → order.cmp a a ≡ Ordering.lt → ⊥
  cmp-irreflexive a e = lt-eq (sym e ∙ (order.eq_iff a a).1 refl)

  below-above : (a b : List ℕ) → order.cmp a b ≡ Ordering.lt → order.cmp b a ≡ Ordering.lt → ⊥
  below-above a b e f = cmp-irreflexive a (order.lt_trans a b a e f)

  same-place :
      (names : List HandleName) (i j : ℕ) (a b : HandleName)
      → IsSorted order names
      → get_elem? names i ≡ some a
      → get_elem? names j ≡ some b
      → a.name ≡ b.name
      → a ≡ b
  same-place names i j a b sorted e f same = elim (ℕ_discrete i j) [
    | yes eq ↦ some-injective _ _ (sym e ∙ ap (get_elem? names) eq ∙ f)
    | no ne ↦ elim (Bool-cases (ltb i j)) [
      | inl lt ↦ absurd (
          cmp-irreflexive b.name
            (ap (λ c. order.cmp c b.name) (sym same) ∙ sorted i j a b (ground arith) e f))
      | inr ge ↦ absurd (
          cmp-irreflexive b.name
            (ap (order.cmp b.name) (sym same) ∙ sorted j i b a (ground arith) f e))
    ]
  ]

  Between-absent :
      (names : List HandleName) (name : List ℕ) (i h : ℕ)
      → Between order names name i i
      → Has names name h
      → ⊥
  Between-absent names name i h b (k, n, at, same, _) = elim (Bool-cases (ltb k i)) [
    | inl lt ↦
        cmp-irreflexive name (ap (λ c. order.cmp c name) (sym same) ∙ b.below k n (ground arith) at)
    | inr ge ↦ cmp-irreflexive name (ap (order.cmp name) (sym same) ∙ b.above k n (ground arith) at)
  ]

  -- What the search answers in a sorted table.
  abbrev Searched : List HandleName → List ℕ → Type 0
  Searched names name =
      ((h : ℕ) × (search_name order names name ≡ some (inl h)) × Has names name h)
      ⊎ ((i : ℕ) × (search_name order names name ≡ some (inr i)) × Between order names name i i)

  told :
      (names : List HandleName) (name : List ℕ) (r : Option (ℕ ⊎ ℕ))
      → search_name order names name ≡ r
      → Tells order names name r
      → Searched names name
  told names name none e t = absurd t
  told names name (some (inl h)) e t = inl (h, e, t)
  told names name (some (inr i)) e t = inr (i, e, t)

  searched : (names : List HandleName) (name : List ℕ) → IsSorted order names → Searched names name
  searched names name sorted =
      told names name (search_name order names name) refl
        (search_name-Tells order names name sorted)

  -- In a sorted table of names, looking one up gives its handle where it is there, and 0 where no
  -- handle has it.
  pub findname-Has :
      (s : Storage)
      → IsSorted order s.name
      → (name : List ℕ)
      → ((h : ℕ) × (findname order s name ≡ some h) × Has s.name name h)
        ⊎ ((findname order s name ≡ some 0) × ((h : ℕ) → Has s.name name h → ⊥))
  unfolding findname
  findname-Has s sorted name = elim (searched s.name name sorted) [
    | inl (h, e, has) ↦ inl (h, rw (findname, e) refl, has)
    | inr (i, e, b) ↦ inr (rw (findname, e) refl, λ h has. Between-absent s.name name i h b has)
  ]

  findname-found :
      (s : Storage)
      → IsSorted order s.name
      → (name : List ℕ) (h : ℕ) → Has s.name name h
      → findname order s name ≡ some h
  findname-found s sorted name h (k, n, at, same, own) = elim (findname-Has s sorted name) [
    | inl (h', e, (k', n', at', same', own')) ↦
        let one : n' ≡ n = same-place s.name k' k n' n sorted at' at (same' ∙ sym same) in
        e ∙ ap some (sym own' ∙ ap (λ (c : HandleName). c.handle) one ∙ own)
    | inr (e, never) ↦ absurd (never h (k, n, at, same, own))
  ]

  insert_at-IsSorted :
      (names : List HandleName) (n : HandleName) (b : ℕ)
      → IsSorted order names
      → Between order names n.name b b
      → IsSorted order (insert_at b n names)
  insert_at-IsSorted names n b sorted place i j x y lt e f =
      elim (insert_at-cases b n names i x place.inside.1 e) [
        | inl (low, at) ↦ elim (insert_at-cases b n names j y place.inside.1 f) [
          | inl (low', at') ↦ sorted i j x y lt at at'
          | inr (inl (self, same)) ↦
              ap (λ (c : HandleName). order.cmp x.name c.name) (sym same) ∙ place.below i x low at
          | inr (inr (k, next, past, at')) ↦ sorted i k x y (omega arith) at at'
        ]
        | inr (inl (self, same)) ↦ elim (insert_at-cases b n names j y place.inside.1 f) [
          | inl (low', at') ↦ absurd (omega arith)
          | inr (inl (self', same')) ↦ absurd (omega arith)
          | inr (inr (k, next, past, at')) ↦
              ap (λ (c : HandleName). order.cmp c.name y.name) (sym same) ∙ place.above k y past at'
        ]
        | inr (inr (k, next, past, at)) ↦ elim (insert_at-cases b n names j y place.inside.1 f) [
          | inl (low', at') ↦ absurd (omega arith)
          | inr (inl (self', same')) ↦ absurd (omega arith)
          | inr (inr (k', next', past', at')) ↦ sorted k k' x y (omega arith) at at'
        ]
      ]

  Has-insert_at :
      (names : List HandleName) (n : HandleName) (b : ℕ) (name : List ℕ) (h : ℕ)
      → b ≤ length names
      → Has names name h
      → Has (insert_at b n names) name h
  Has-insert_at names n b name h le (k, a, at, same, own) = elim (Bool-cases (ltb k b)) [
    | inl lt ↦ (k, a, get_elem?-insert_at_below b n names k (ground arith) le ∙ at, same, own)
    | inr ge ↦ (suc k, a, get_elem?-insert_at_above b n names k (ground arith) le ∙ at, same, own)
  ]

  insert_at-Has :
      (names : List HandleName) (n : HandleName) (b : ℕ) (name : List ℕ) (h : ℕ)
      → b ≤ length names
      → name ≢ n.name
      → Has (insert_at b n names) name h
      → Has names name h
  insert_at-Has names n b name h le ne (k, a, at, same, own) =
      elim (insert_at-cases b n names k a le at) [
        | inl (low, at') ↦ (k, a, at', same, own)
        | inr (inl (self, new)) ↦ absurd (ne (sym same ∙ ap (λ (c : HandleName). c.name) (sym new)))
        | inr (inr (j, next, past, at')) ↦ (j, a, at', same, own)
      ]

  findname-other :
      (s s' : Storage) (name : List ℕ)
      → IsSorted order s.name
      → IsSorted order s'.name
      → ((h : ℕ) → Has s.name name h → Has s'.name name h)
      → ((h : ℕ) → Has s'.name name h → Has s.name name h)
      → findname order s' name ≡ findname order s name
  findname-other s s' name sorted sorted' go back = elim (findname-Has s' sorted' name) [
    | inl (h, e, has) ↦ e ∙ sym (findname-found s sorted name h (back h has))
    | inr (e, never) ↦ elim (findname-Has s sorted name) [
      | inl (h, f, has) ↦ absurd (never h (go h has))
      | inr (f, _) ↦ e ∙ sym f
    ]
  ]

  -- What a name that was given to a handle changes.
  pub record Named (s s' : Storage) (handle : ℕ) (name : List ℕ) : Type 0 where
    pub sorted : IsSorted order s'.name
    pub found : findname order s' name ≡ some handle
    pub others : (other : List ℕ) → other ≢ name → findname order s' other ≡ findname order s other
    pub room : length s'.name ≤ s'.name_cap
    pub slots :
        (s'.slot ≡ s.slot) × (s'.slot_size ≡ s.slot_size) × (s'.handle_index ≡ s.handle_index)

  named-Named :
      (s : Storage) (handle : ℕ) (name : List ℕ) (b : ℕ)
      → IsSorted order s.name
      → length s.name ≤ s.name_cap
      → 0 < s.name_cap
      → Between order s.name name b b
      → Named s (named s (record { name = name; handle = handle }) b) handle name
  named-Named s handle name b sorted fits some_cap place =
      let n : HandleName = record { name = name; handle = handle } in
      let s' = named s n b in
      let le = place.inside.1 in
      let sorted' = insert_at-IsSorted s.name n b sorted place in
      record {
        sorted = sorted';
        found =
            findname-found s' sorted' name handle
              (b, n, get_elem?-insert_at_self b n s.name le, refl, refl);
        others = λ other ne.
            findname-other s s' other sorted sorted' (λ h. Has-insert_at s.name n b other h le)
              (λ h. insert_at-Has s.name n b other h le ne);
        room =
            rw (length-insert_at b n s.name) (named-room s.name_cap (length s.name) fits some_cap);
        slots = (refl, refl, refl);
      }

  -- Naming a handle in a sorted table with room: a name that is there already is refused, and the
  -- table stays as it is; else the table stays sorted and within its bounds, the name finds the
  -- handle, every other name finds what it found, and the slots stay.
  pub namehandle-Named :
      (s : Storage)
      → IsSorted order s.name
      → length s.name ≤ s.name_cap
      → 0 < s.name_cap
      → s.name_cap * 2 ≤ max_slot_size
      → (handle : ℕ) (name : List ℕ)
      → ((h : ℕ) × Has s.name name h × (namehandle order s handle name ≡ some (false, s)))
        ⊎ ((s' : Storage) × (findname order s name ≡ some 0)
            × (namehandle order s handle name ≡ some (true, s'))
            × Named s s' handle name)
  unfolding namehandle findname
  namehandle-Named s sorted fits some_cap room handle name = elim (searched s.name name sorted) [
    | inl (h, e, has) ↦ inl (h, has, rw (namehandle, e) refl)
    | inr (i, e, place) ↦
        let n : HandleName = record { name = name; handle = handle } in
        inr (
          named s n i,
          rw (findname, e) refl,
          rw (namehandle, e, insert_name_before-named s n i place.inside.1 (λ _. room)) refl,
          named-Named s handle name i sorted fits some_cap place,
        )
  ]
