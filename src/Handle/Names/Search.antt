-- ===== src/Handle/Names/Search.antt =====
-- The search by halving finds a name just if it is there, and else the place where it belongs.
use Prim.Native.Nat.{Ordering}
use crynet.Prelude.{
  ℕ, zero, suc, ◌+◌, ◌-◌, ◌/◌, ◌≤◌, ◌<◌, ◌≡◌, refl, sym, ap, ◌∙◌, List, [], ◌∷◌, Option, some, none,
  ltb, get_elem?, length, ◌⊎◌, inl, inr, arith, Bool-cases,
}
use crynet.Handle.{HandleName}
use crynet.Handle.Names.{Strcmp, search_loop, search_name}
use native.Mathlib.Decide.{ℕ_discrete}
use mathlib.Core.Path.{subst}
use mathlib.Core.Option.{some-injective, none-ne-some}

pub get_elem?-lt :
    {A : Type 0} (l : List A) (i : ℕ) → i < length l → (a : A) × (get_elem? l i ≡ some a)
get_elem?-lt [] i h = absurd (omega arith)
get_elem?-lt (x ∷ l) zero h = (x, refl)
get_elem?-lt (x ∷ l) (suc i) h = get_elem?-lt l i (omega arith)

get_elem?-past :
    {A : Type 0} (l : List A) (i : ℕ) (a : A) → length l ≤ i → get_elem? l i ≡ some a → ⊥
get_elem?-past [] i a h e = none-ne-some _ e
get_elem?-past (x ∷ l) zero a h e = absurd (omega arith)
get_elem?-past (x ∷ l) (suc i) a h e = get_elem?-past l i a (omega arith) e

module _ (order : Strcmp) where
  -- The names go up.
  abbrev pub IsSorted : List HandleName → Type 0
  IsSorted names =
      (i j : ℕ) (a b : HandleName)
      → i < j
      → get_elem? names i ≡ some a
      → get_elem? names j ≡ some b
      → order.cmp a.name b.name ≡ Ordering.lt

  -- The names below `i` are less, and those from `j` on are greater.
  pub record Between (names : List HandleName) (name : List ℕ) (i j : ℕ) : Type 0 where
    pub inside : (i ≤ j) × (j ≤ length names)
    pub below :
        (k : ℕ) (n : HandleName)
        → k < i
        → get_elem? names k ≡ some n
        → order.cmp n.name name ≡ Ordering.lt
    pub above :
        (k : ℕ) (n : HandleName)
        → j ≤ k
        → get_elem? names k ≡ some n
        → order.cmp name n.name ≡ Ordering.lt

  -- What the search tells.
  abbrev pub Tells : List HandleName → List ℕ → Option (ℕ ⊎ ℕ) → Type 0
  Tells names name none = ⊥
  Tells names name (some (inl handle)) =
      (k : ℕ) × (n : HandleName) × (get_elem? names k ≡ some n)
      × (n.name ≡ name)
      × (n.handle ≡ handle)
  Tells names name (some (inr i)) = Between names name i i

  Ordering-cases : (o : Ordering) → (o ≡ Ordering.eq) ⊎ (o ≡ Ordering.lt) ⊎ (o ≡ Ordering.gt)
  Ordering-cases Ordering.eq = inl refl
  Ordering-cases Ordering.lt = inr (inl refl)
  Ordering-cases Ordering.gt = inr (inr refl)

  Between-below :
      (names : List HandleName) (name : List ℕ) (i j mid : ℕ) (n : HandleName)
      → IsSorted names
      → Between names name i j
      → mid < j
      → get_elem? names mid ≡ some n
      → order.cmp n.name name ≡ Ordering.lt
      → Between names name (mid + 1) j
  Between-below names name i j mid n sorted b h at lt = record {
    inside = (omega arith, omega (arith, b.inside));
    below = λ k a le e. elim (ℕ_discrete k mid) [
      | yes same ↦
          let one : a ≡ n = some-injective _ _ (sym e ∙ ap (get_elem? names) same ∙ at) in
          ap (λ (c : HandleName). order.cmp c.name name) one ∙ lt
      | no ne ↦ order.lt_trans a.name n.name name (sorted k mid a n (omega arith) e at) lt
    ];
    above = b.above;
  }

  Between-above :
      (names : List HandleName) (name : List ℕ) (i j mid : ℕ) (n : HandleName)
      → IsSorted names
      → Between names name i j
      → i ≤ mid
      → mid < j
      → get_elem? names mid ≡ some n
      → order.cmp n.name name ≡ Ordering.gt
      → Between names name i mid
  Between-above names name i j mid n sorted b lo h at gt =
      let lt = (order.gt_iff n.name name).0 gt in
      record {
        inside = (lo, omega (arith, b.inside));
        below = b.below;
        above = λ k a le e. elim (ℕ_discrete k mid) [
          | yes same ↦
              let one : a ≡ n = some-injective _ _ (sym e ∙ ap (get_elem? names) same ∙ at) in
              ap (λ (c : HandleName). order.cmp name c.name) one ∙ lt
          | no ne ↦ order.lt_trans name n.name a.name lt (sorted mid k n a (omega arith) at e)
        ];
      }

  search_loop-Tells :
      (fuel : ℕ) (names : List HandleName) (name : List ℕ) (i j : ℕ)
      → IsSorted names
      → Between names name i j
      → j - i < fuel
      → Tells names name (search_loop order fuel names name i j)
  unfolding search_loop
  search_loop-Tells zero names name i j sorted b h = absurd (omega arith)
  search_loop-Tells (suc fuel) names name i j sorted b h =
      let mid = (i + j - 1) / 2 in
      elim (Bool-cases (ltb i j)) [
        | inr e ↦
            let same : j ≡ i = let le = b.inside.0 in ground arith in
            rw (search_loop, e) (subst (Between names name i) same b)
        | inl e ↦
            let lt : i < j = ground arith in
            let (n, at) = get_elem?-lt names mid (omega (arith, b.inside)) in
            elim (Ordering-cases (order.cmp n.name name)) [
              | inl c ↦
                  rw (search_loop, e, at, c) (mid, n, at, (order.eq_iff n.name name).0 c, refl)
              | inr (inl c) ↦
                  rw (search_loop, e, at, c)
                    (search_loop-Tells fuel names name (mid + 1) j sorted
                      (Between-below names name i j mid n sorted b (omega arith) at c)
                      (omega arith))
              | inr (inr c) ↦
                  rw (search_loop, e, at, c)
                    (search_loop-Tells fuel names name i mid sorted
                      (Between-above names name i j mid n sorted b (omega arith) (omega arith) at c)
                      (omega arith))
            ]
      ]

  pub search_name-Tells :
      (names : List HandleName) (name : List ℕ)
      → IsSorted names
      → Tells names name (search_name order names name)
  unfolding search_name
  search_name-Tells names name sorted =
      search_loop-Tells (length names + 1) names name 0 (length names) sorted
        (record {
          inside = (omega arith, omega arith);
          below = λ k n h e. absurd (omega arith);
          above = λ k n h e. absurd (get_elem?-past names k n h e);
        })
        (omega arith)
