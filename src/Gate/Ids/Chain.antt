-- ===== src/Gate/Ids/Chain.antt =====
-- The chain of a hash slot as a list of nodes, and how long it can be.
use crynet.Prelude.{
  ℕ, zero, suc, ◌≤◌, ◌<◌, ◌≡◌, ◌≢◌, refl, sym, ◌∙◌, List, [], ◌∷◌, Option, some, none, arith,
  length, inl, inr, ◌⊎◌, ◌==◌, if◌then◌else◌, update, update_cases, Bool-cases,
}
use mathlib.Core.Path.{subst}

abbrev pub In : ℕ → List ℕ → Type 0
In a [] = ⊥
In a (b ∷ l) = (a ≡ b) ⊎ In a l

abbrev pub IsDistinct : List ℕ → Type 0
IsDistinct [] = Unit {0}
IsDistinct (b ∷ l) = (In b l → ⊥) × IsDistinct l

abbrev pub AllBelow : ℕ → List ℕ → Type 0
AllBelow n [] = Unit {0}
AllBelow n (b ∷ l) = (b < n) × AllBelow n l

-- The pointer leads through the nodes of the list, and ends.
abbrev pub Links : (ℕ → Option ℕ) → Option ℕ → List ℕ → Type 0
Links next p [] = p ≡ none
Links next p (c ∷ l) = (p ≡ some c) × Links next (next c) l

-- A write at a node outside of the list changes nothing.
pub Links-update :
    (next : ℕ → Option ℕ) (p : Option ℕ) (l : List ℕ) (c : ℕ) (q : Option ℕ)
    → (In c l → ⊥)
    → Links next p l
    → Links (update next c q) p l
Links-update next p [] c q out k = k
Links-update next p (b ∷ l) c q out (e, k) = elim (update_cases next c q b) [
  | inl (same, _) ↦ absurd (out (inl same))
  | inr (_, old) ↦ (
    e,
    subst (λ o. Links (update next c q) o l) (sym old)
        (Links-update next (next b) l c q (λ i. out (inr i)) k),
  )
]

-- Without one node.
abbrev pub erase : ℕ → List ℕ → List ℕ
erase a [] = []
erase a (b ∷ l) = if a == b then l else b ∷ erase a l

pub In-erase : (a b : ℕ) (l : List ℕ) → In b (erase a l) → In b l
In-erase a b [] i = i
In-erase a b (d ∷ l) i = elim (Bool-cases (a == d)) [
  | inl e ↦ inr (rw e at i)
  | inr e ↦ elim (let j : In b (d ∷ erase a l) = rw e at i in j) [
    | inl here ↦ inl here
    | inr later ↦ inr (In-erase a b l later)
  ]
]

AllBelow-strict : (n : ℕ) (l : List ℕ) → AllBelow (suc n) l → (In n l → ⊥) → AllBelow n l
AllBelow-strict n [] h out = tt
AllBelow-strict n (b ∷ l) (lt, h) out =
    let ne : n ≢ b = λ e. out (inl e) in (omega arith, AllBelow-strict n l h (λ i. out (inr i)))

-- Without its greatest possible node a list is shorter by one at most.
erase_bound :
    (n : ℕ) (l : List ℕ)
    → AllBelow (suc n) l
    → IsDistinct l
    → AllBelow n (erase n l) × IsDistinct (erase n l) × (length l ≤ suc (length (erase n l)))
erase_bound n [] h d = (tt, tt, omega arith)
erase_bound n (b ∷ l) (lt, h) (out, d) = elim (Bool-cases (n == b)) [
  | inl e ↦
      let same : n ≡ b = ground arith in
      rw e (AllBelow-strict n l h (λ i. out (subst (λ (k : ℕ). In k l) same i)), d, omega arith)
  | inr e ↦
      let other : n ≢ b = ground arith in
      let (h', d', len) = erase_bound n l h d in
      rw e ((omega arith, h'), (λ i. out (In-erase n b l i), d'), omega arith)
]

-- Distinct nodes below `n` are at most `n`.
pub length-le : (n : ℕ) (l : List ℕ) → AllBelow n l → IsDistinct l → length l ≤ n
length-le zero [] h d = omega arith
length-le zero (b ∷ l) (lt, h) d = absurd (omega arith)
length-le (suc n) l h d =
    let (h', d', len) = erase_bound n l h d in omega (arith, len, length-le n (erase n l) h' d')

pub In-erase_other : (a b : ℕ) (l : List ℕ) → a ≢ b → In b l → In b (erase a l)
In-erase_other a b [] ne i = i
In-erase_other a b (d ∷ l) ne i = elim (Bool-cases (a == d)) [
  | inl e ↦
      let same : a ≡ d = ground arith in
      rw e (elim i [ inl here ↦ absurd (ne (same ∙ sym here)) | inr later ↦ later ])
  | inr e ↦ rw e (elim i [ inl here ↦ inl here | inr later ↦ inr (In-erase_other a b l ne later) ])
]

pub IsDistinct-erase : (a : ℕ) (l : List ℕ) → IsDistinct l → IsDistinct (erase a l)
IsDistinct-erase a [] d = d
IsDistinct-erase a (b ∷ l) (out, d) = elim (Bool-cases (a == b)) [
  | inl e ↦ rw e d
  | inr e ↦ rw e ((λ i. out (In-erase a b l i)), IsDistinct-erase a l d)
]

pub erase_gone : (a : ℕ) (l : List ℕ) → IsDistinct l → In a (erase a l) → ⊥
erase_gone a [] d i = i
erase_gone a (b ∷ l) (out, d) i = elim (Bool-cases (a == b)) [
  | inl e ↦ let same : a ≡ b = ground arith in out (subst (λ (k : ℕ). In k l) same (rw e at i))
  | inr e ↦ elim (let j : In a (b ∷ erase a l) = rw e at i in j) [
    | inl here ↦ ground arith
    | inr later ↦ erase_gone a l d later
  ]
]

-- Pointers that agree on the nodes of the list.
pub Links-same :
    (next nx : ℕ → Option ℕ) (p : Option ℕ) (l : List ℕ)
    → ((d : ℕ) → In d l → nx d ≡ next d)
    → Links next p l
    → Links nx p l
Links-same next nx p [] agree k = k
Links-same next nx p (b ∷ l) agree (e, k) = (
  e,
  subst (λ o. Links nx o l) (sym (agree b (inl refl)))
      (Links-same next nx (next b) l (λ d i. agree d (inr i)) k),
)
