-- ===== src/Handle/Names/Tests.antt =====
-- A concrete order on texts, and a table of two names in it.
use Prim.Native.Nat.{Ordering}
use crynet.Prelude.{
  ℕ, zero, suc, ◌≡◌, ◌≤◌, ◌<◌, refl, sym, ap, ◌∙◌, List, [], ◌∷◌, some, true, false, ltb,
  if◌then◌else◌, ◌⊎◌, inl, inr, Bool-cases, arith,
}
use crynet.Handle.{HandleName, Storage, init}
use crynet.Handle.Names.{Strcmp, findname, namehandle, search_name, search_loop}
use crynet.Handle.Names.Search.{IsSorted}
use crynet.Handle.Names.Map.{Has, Named, findname-Has, namehandle-Named}
use mathlib.Core.Path.{subst}
use mathlib.Core.Option.{some-injective, none-ne-some}

swap : Ordering → Ordering
swap Ordering.lt = Ordering.gt
swap Ordering.eq = Ordering.eq
swap Ordering.gt = Ordering.lt

-- The first difference decides, and a text that ends is less than a longer one.
text_cmp : List ℕ → List ℕ → Ordering
text_cmp [] [] = Ordering.eq
text_cmp [] (y ∷ b) = Ordering.lt
text_cmp (x ∷ a) [] = Ordering.gt
text_cmp (x ∷ a) (y ∷ b) =
    let rest = text_cmp a b in
    if ltb x y then Ordering.lt else (if ltb y x then Ordering.gt else rest)

-- How the first characters compare, and what the texts make of it.
Compared : (x y : ℕ) (a b : List ℕ) → Type 0
Compared x y a b =
    ((x < y) × (text_cmp (x ∷ a) (y ∷ b) ≡ Ordering.lt))
    ⊎ ((y < x) × (text_cmp (x ∷ a) (y ∷ b) ≡ Ordering.gt))
    ⊎ ((x ≡ y) × (text_cmp (x ∷ a) (y ∷ b) ≡ text_cmp a b))

compared : (x y : ℕ) (a b : List ℕ) → Compared x y a b
unfolding Compared text_cmp
compared x y a b = elim (Bool-cases (ltb x y)) [
  | inl lt ↦ inl (ground arith, rw lt refl)
  | inr ge ↦ elim (Bool-cases (ltb y x)) [
    | inl gt ↦ inr (inl (ground arith, rw (ge, gt) refl))
    | inr le ↦ inr (inr (ground arith, rw (ge, le) refl))
  ]
]

abbrev IsLt : Ordering → Type 0
IsLt Ordering.lt = Unit
IsLt _ = ⊥

abbrev IsGt : Ordering → Type 0
IsGt Ordering.gt = Unit
IsGt _ = ⊥

lt-eq : Ordering.lt ≡ Ordering.eq → ⊥
lt-eq e = subst IsLt e tt

gt-eq : Ordering.gt ≡ Ordering.eq → ⊥
gt-eq e = subst IsGt e tt

gt-lt : Ordering.gt ≡ Ordering.lt → ⊥
gt-lt e = subst IsGt e tt

eq-lt : Ordering.eq ≡ Ordering.lt → ⊥
eq-lt e = lt-eq (sym e)

text_cmp-swap : (a b : List ℕ) → text_cmp b a ≡ swap (text_cmp a b)
unfolding text_cmp swap Compared
text_cmp-swap [] [] = refl
text_cmp-swap [] (y ∷ b) = refl
text_cmp-swap (x ∷ a) [] = refl
text_cmp-swap (x ∷ a) (y ∷ b) = elim (compared x y a b) [
  | inl (lt, e) ↦ elim (compared y x b a) [
    | inl (gt, f) ↦ absurd (omega arith)
    | inr (inl (_, f)) ↦ f ∙ sym (ap swap e)
    | inr (inr (same, f)) ↦ absurd (omega arith)
  ]
  | inr (inl (gt, e)) ↦ elim (compared y x b a) [
    | inl (_, f) ↦ f ∙ sym (ap swap e)
    | inr (inl (lt, f)) ↦ absurd (omega arith)
    | inr (inr (same, f)) ↦ absurd (omega arith)
  ]
  | inr (inr (same, e)) ↦ elim (compared y x b a) [
    | inl (gt, f) ↦ absurd (omega arith)
    | inr (inl (lt, f)) ↦ absurd (omega arith)
    | inr (inr (_, f)) ↦ f ∙ text_cmp-swap a b ∙ sym (ap swap e)
  ]
]

text_cmp_self : (a : List ℕ) → text_cmp a a ≡ Ordering.eq
unfolding text_cmp Compared
text_cmp_self [] = refl
text_cmp_self (x ∷ a) = elim (compared x x a a) [
  | inl (lt, _) ↦ absurd (omega arith)
  | inr (inl (gt, _)) ↦ absurd (omega arith)
  | inr (inr (_, e)) ↦ e ∙ text_cmp_self a
]

text_cmp-eq : (a b : List ℕ) → text_cmp a b ≡ Ordering.eq → a ≡ b
unfolding text_cmp Compared
text_cmp-eq [] [] e = refl
text_cmp-eq [] (y ∷ b) e = absurd (lt-eq e)
text_cmp-eq (x ∷ a) [] e = absurd (gt-eq e)
text_cmp-eq (x ∷ a) (y ∷ b) e = elim (compared x y a b) [
  | inl (_, f) ↦ absurd (lt-eq (sym f ∙ e))
  | inr (inl (_, f)) ↦ absurd (gt-eq (sym f ∙ e))
  | inr (inr (same, f)) ↦ ap (λ k. k ∷ a) same ∙ ap (λ l. y ∷ l) (text_cmp-eq a b (sym f ∙ e))
]

text_cmp-below :
    (x y : ℕ) (a b : List ℕ)
    → text_cmp (x ∷ a) (y ∷ b) ≡ Ordering.lt
    → (x < y) ⊎ ((x ≡ y) × (text_cmp a b ≡ Ordering.lt))
unfolding Compared
text_cmp-below x y a b e = elim (compared x y a b) [
  | inl (lt, _) ↦ inl lt
  | inr (inl (_, f)) ↦ absurd (gt-lt (sym f ∙ e))
  | inr (inr (same, f)) ↦ inr (same, sym f ∙ e)
]

below-text_cmp :
    (x y : ℕ) (a b : List ℕ)
    → x ≤ y
    → (x ≡ y → text_cmp a b ≡ Ordering.lt)
    → text_cmp (x ∷ a) (y ∷ b) ≡ Ordering.lt
unfolding Compared
below-text_cmp x y a b le rest = elim (compared x y a b) [
  | inl (_, f) ↦ f
  | inr (inl (gt, f)) ↦ absurd (omega arith)
  | inr (inr (same, f)) ↦ f ∙ rest same
]

text_cmp_trans :
    (a b c : List ℕ)
    → text_cmp a b ≡ Ordering.lt
    → text_cmp b c ≡ Ordering.lt
    → text_cmp a c ≡ Ordering.lt
unfolding text_cmp
text_cmp_trans [] [] c e f = absurd (eq-lt e)
text_cmp_trans [] (y ∷ b) [] e f = absurd (gt-lt f)
text_cmp_trans [] (y ∷ b) (z ∷ c) e f = refl
text_cmp_trans (x ∷ a) [] c e f = absurd (gt-lt e)
text_cmp_trans (x ∷ a) (y ∷ b) [] e f = absurd (gt-lt f)
text_cmp_trans (x ∷ a) (y ∷ b) (z ∷ c) e f = elim (text_cmp-below x y a b e) [
  | inl lt ↦ elim (text_cmp-below y z b c f) [
    | inl lt' ↦ below-text_cmp x z a c (omega arith) (λ same. absurd (omega arith))
    | inr (same', f') ↦ below-text_cmp x z a c (omega arith) (λ same. absurd (omega arith))
  ]
  | inr (same, e') ↦ elim (text_cmp-below y z b c f) [
    | inl lt' ↦ below-text_cmp x z a c (omega arith) (λ same''. absurd (omega arith))
    | inr (same', f') ↦ below-text_cmp x z a c (omega arith) (λ _. text_cmp_trans a b c e' f')
  ]
]

swap-gt : swap Ordering.gt ≡ Ordering.lt
unfolding swap
swap-gt = refl

swap-lt : swap Ordering.lt ≡ Ordering.gt
unfolding swap
swap-lt = refl

abbrev texts : Strcmp
texts = record {
  cmp = text_cmp;
  eq_iff = λ a b. (text_cmp-eq a b, λ e. ap (text_cmp a) (sym e) ∙ text_cmp_self a);
  gt_iff = λ a b.
      (λ e. text_cmp-swap a b ∙ ap swap e ∙ swap-gt, λ e. text_cmp-swap b a ∙ ap swap e ∙ swap-lt);
  lt_trans = text_cmp_trans;
}

-- `.db` is 1, and `.web` is 2; the array has room for both.
abbrev two_names : Storage
two_names = record (init 1) {
  name =
      record { name = 46 ∷ 100 ∷ 98 ∷ []; handle = 1 }
      ∷ record { name = 46 ∷ 119 ∷ 101 ∷ 98 ∷ []; handle = 2 }
      ∷ [];
}

two_names-IsSorted : IsSorted texts two_names.name
unfolding text_cmp
two_names-IsSorted zero zero x y lt e f = absurd (omega arith)
two_names-IsSorted zero (suc zero) x y lt e f =
    ap (λ (c : HandleName). text_cmp c.name y.name) (sym (some-injective _ _ e))
    ∙ ap (λ (c : HandleName). text_cmp (46 ∷ 100 ∷ 98 ∷ []) c.name) (sym (some-injective _ _ f))
two_names-IsSorted zero (suc (suc j)) x y lt e f = absurd (none-ne-some _ f)
two_names-IsSorted (suc i) zero x y lt e f = absurd (omega arith)
two_names-IsSorted (suc zero) (suc zero) x y lt e f = absurd (omega arith)
two_names-IsSorted (suc zero) (suc (suc j)) x y lt e f = absurd (none-ne-some _ f)
two_names-IsSorted (suc (suc i)) (suc j) x y lt e f = absurd (none-ne-some _ e)

two_names-findname : findname texts two_names (46 ∷ 119 ∷ 101 ∷ 98 ∷ []) ≡ some 2
unfolding findname search_name search_loop text_cmp
two_names-findname = refl

findname-Has_example :
    ((h : ℕ) × (findname texts two_names (46 ∷ 100 ∷ 98 ∷ []) ≡ some h)
      × Has two_names.name (46 ∷ 100 ∷ 98 ∷ []) h)
    ⊎ ((findname texts two_names (46 ∷ 100 ∷ 98 ∷ []) ≡ some 0)
        × ((h : ℕ) → Has two_names.name (46 ∷ 100 ∷ 98 ∷ []) h → ⊥))
findname-Has_example = findname-Has texts two_names two_names-IsSorted (46 ∷ 100 ∷ 98 ∷ [])

namehandle-Named_example :
    ((h : ℕ) × Has two_names.name (46 ∷ 108 ∷ []) h
      × (namehandle texts two_names 3 (46 ∷ 108 ∷ []) ≡ some (false, two_names)))
    ⊎ ((s' : Storage) × (findname texts two_names (46 ∷ 108 ∷ []) ≡ some 0)
        × (namehandle texts two_names 3 (46 ∷ 108 ∷ []) ≡ some (true, s'))
        × Named texts two_names s' 3 (46 ∷ 108 ∷ []))
unfolding init
namehandle-Named_example =
    namehandle-Named texts two_names two_names-IsSorted (omega arith) (omega arith) (omega arith) 3
      (46 ∷ 108 ∷ [])
