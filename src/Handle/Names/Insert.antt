-- ===== src/Handle/Names/Insert.antt =====
-- A name is put in its place, by copying or by moving the others up.
use crynet.Prelude.{
  ℕ, zero, suc, ◌+◌, ◌-◌, ◌≤◌, ◌<◌, ◌≡◌, refl, sym, ap, ◌∙◌, List, [], ◌∷◌, ◌++◌, some, get_elem?,
  set, take, drop, length, arith, ◌⊎◌, inl, inr, leb, if◌then◌else◌, ◌*◌, Bool-cases, true, ltb,
}
use crynet.Handle.{HandleName, Storage, ltb}
use crynet.Handle.Names.Search.{get_elem?-lt}
use crynet.Handle.Names.{move_names, insert_name_before, max_slot_size, true}
use mathlib.Core.Option.{none-ne-some, some-injective}
use mathlib.Core.Path.{subst}
use native.Mathlib.Decide.{ℕ_discrete}

-- The list with one element more, at the place `b`.
abbrev pub insert_at {ℓ} : {A : Type ℓ} → ℕ → A → List A → List A
insert_at zero x l = x ∷ l
insert_at (suc b) x [] = x ∷ []
insert_at (suc b) x (y ∷ l) = y ∷ insert_at b x l

module _ {A : Type 0} where
  pub insert_at-take : (b : ℕ) (x : A) (l : List A) → take b l ++ x ∷ drop b l ≡ insert_at b x l
  insert_at-take zero x l = refl
  insert_at-take (suc b) x [] = refl
  insert_at-take (suc b) x (y ∷ l) = ap (λ k. y ∷ k) (insert_at-take b x l)

  pub get_elem?-insert_at_below :
      (b : ℕ) (x : A) (l : List A) (i : ℕ)
      → i < b
      → b ≤ length l
      → get_elem? (insert_at b x l) i ≡ get_elem? l i
  get_elem?-insert_at_below zero x l i h le = absurd (omega arith)
  get_elem?-insert_at_below (suc b) x [] i h le = absurd (omega arith)
  get_elem?-insert_at_below (suc b) x (y ∷ l) zero h le = refl
  get_elem?-insert_at_below (suc b) x (y ∷ l) (suc i) h le =
      get_elem?-insert_at_below b x l i (omega arith) (omega arith)

  pub get_elem?-insert_at_self :
      (b : ℕ) (x : A) (l : List A) → b ≤ length l → get_elem? (insert_at b x l) b ≡ some x
  get_elem?-insert_at_self zero x l le = refl
  get_elem?-insert_at_self (suc b) x [] le = absurd (omega arith)
  get_elem?-insert_at_self (suc b) x (y ∷ l) le = get_elem?-insert_at_self b x l (omega arith)

  pub get_elem?-insert_at_above :
      (b : ℕ) (x : A) (l : List A) (i : ℕ)
      → b ≤ i
      → b ≤ length l
      → get_elem? (insert_at b x l) (suc i) ≡ get_elem? l i
  get_elem?-insert_at_above zero x l i h le = refl
  get_elem?-insert_at_above (suc b) x [] i h le = absurd (omega arith)
  get_elem?-insert_at_above (suc b) x (y ∷ l) zero h le = absurd (omega arith)
  get_elem?-insert_at_above (suc b) x (y ∷ l) (suc i) h le =
      get_elem?-insert_at_above b x l i (omega arith) (omega arith)

  -- An element of the longer list is the new one, or an old one at its place.
  pub insert_at-cases :
      (b : ℕ) (x : A) (l : List A) (k : ℕ) (a : A)
      → b ≤ length l
      → get_elem? (insert_at b x l) k ≡ some a
      → ((k < b) × (get_elem? l k ≡ some a))
        ⊎ ((k ≡ b) × (x ≡ a))
        ⊎ ((j : ℕ) × (k ≡ suc j) × (b ≤ j) × (get_elem? l j ≡ some a))
  insert_at-cases b x l k a le e = elim (Bool-cases (ltb k b)) [
    | inl lt ↦ inl (ground arith, sym (get_elem?-insert_at_below b x l k (ground arith) le) ∙ e)
    | inr ge ↦ elim (ℕ_discrete k b) [
      | yes same ↦ inr (
          inl (
            same,
            some-injective _ _ (
                sym (get_elem?-insert_at_self b x l le)
                ∙ ap (get_elem? (insert_at b x l)) (sym same)
                ∙ e),
          ))
      | no ne ↦
          let next : k ≡ suc (k - 1) = ground arith in
          let past : b ≤ k - 1 = ground arith in
          inr (
            inr (
              k - 1,
              next,
              past,
              sym (get_elem?-insert_at_above b x l (k - 1) past le)
                  ∙ ap (get_elem? (insert_at b x l)) (sym next)
                  ∙ e,
            ))
    ]
  ]

  pub set-insert_at :
      (b : ℕ) (x y : A) (l : List A) → b ≤ length l → set (insert_at b y l) b x ≡ insert_at b x l
  set-insert_at zero x y l le = refl
  set-insert_at (suc b) x y [] le = absurd (omega arith)
  set-insert_at (suc b) x y (z ∷ l) le = ap (λ k. z ∷ k) (set-insert_at b x y l (omega arith))

  -- A step of the loop: the hole goes one place down.
  set-insert_at_moved :
      (i : ℕ) (y m : A) (l : List A)
      → get_elem? l i ≡ some m
      → set (insert_at (suc i) y l) (suc i) m ≡ insert_at i m l
  set-insert_at_moved i y m [] e = absurd (none-ne-some _ e)
  set-insert_at_moved zero y m (z ∷ l) e =
      let same : z ≡ m = some-injective _ _ e in
      ap (λ k. z ∷ k ∷ l) (sym same) ∙ ap (λ k. k ∷ z ∷ l) same
  set-insert_at_moved (suc i) y m (z ∷ l) e = ap (λ k. z ∷ k) (set-insert_at_moved i y m l e)

  insert_at-length : (x : A) (l : List A) → insert_at (length l) x l ≡ l ++ x ∷ []
  insert_at-length x [] = refl
  insert_at-length x (z ∷ l) = ap (λ k. z ∷ k) (insert_at-length x l)

move_names-insert_at :
    (n i b : ℕ) (x y : HandleName) (l : List HandleName)
    → i ≡ n + b
    → i ≤ length l
    → set (move_names n i (insert_at i y l)) b x ≡ insert_at b x l
unfolding move_names
move_names-insert_at zero i b x y l e le =
    subst (λ j. set (insert_at j y l) b x ≡ insert_at b x l) (omega arith)
      (set-insert_at b x y l (omega arith))
move_names-insert_at (suc n) zero b x y l e le = absurd (omega arith)
move_names-insert_at (suc n) (suc i) b x y l e le =
    let (m, at) = get_elem?-lt l i (omega arith) in
    let pred : suc i - 1 ≡ i = omega arith in
    rw
      (
        move_names,
        pred,
        get_elem?-insert_at_below (suc i) y l i (omega arith) le,
        at,
        set-insert_at_moved i y m l at,
        pred,
      )
      (move_names-insert_at n i b x m l (omega arith) (omega arith))

-- The storage with a name more.
abbrev pub named : Storage → HandleName → ℕ → Storage
named s n b = record s {
  name_cap = if leb s.name_cap (length s.name) then s.name_cap * 2 else s.name_cap;
  name = insert_at b n s.name;
}

pub insert_name_before-named :
    (s : Storage) (n : HandleName) (b : ℕ)
    → b ≤ length s.name
    → (s.name_cap ≤ length s.name → s.name_cap * 2 ≤ max_slot_size)
    → insert_name_before s n b ≡ some (named s n b)
unfolding insert_name_before
insert_name_before-named s n b le room = elim (Bool-cases (leb s.name_cap (length s.name))) [
  | inl e ↦
      let small = room (ground arith) in
      let fits : leb (s.name_cap * 2) max_slot_size ≡ true = ground arith in
      rw (insert_name_before, e, fits, insert_at-take b n s.name) refl
  | inr e ↦
      let shifted =
        ap (λ l. set (move_names (length s.name - b) (length s.name) l) b n)
          (sym (insert_at-length n s.name))
        ∙ move_names-insert_at (length s.name - b) (length s.name) b n n s.name (omega arith)
            (omega arith) in
      rw (insert_name_before, e, shifted) refl
]
