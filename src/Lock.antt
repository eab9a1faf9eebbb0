-- ===== src/Lock.antt =====
-- The locks of skynet/skynet-src, as threads that take one atomic operation at a time, in any order.
-- This file has what both locks count of their threads.
pub mod Rw
pub mod Spin
use crynet.Prelude.{
  ℕ, zero, suc, ◌+◌, ◌-◌, ◌≤◌, ◌<◌, ◌≡◌, refl, sym, ap, ◌∙◌, List, [], ◌∷◌, Option, some, none,
  get_elem?, set, arith, Bool-cases, ltb, inl, inr,
}
use mathlib.Core.Option.{none-ne-some, some-injective}

-- The sum of the weights of the threads.
abbrev pub total : {A : Type 0} → (A → ℕ) → List A → ℕ
total w [] = 0
total w (x ∷ l) = w x + total w l

-- `n` threads that stand at the same point.
abbrev pub repeat : {A : Type 0} → ℕ → A → List A
repeat zero a = []
repeat (suc n) a = a ∷ repeat n a

module _ {A : Type 0} (w : A → ℕ) where
  pub total-set :
      (l : List A) (i : ℕ) (old new : A)
      → get_elem? l i ≡ some old
      → total w (set l i new) + w old ≡ total w l + w new
  total-set [] i old new e = absurd (none-ne-some _ e)
  total-set (x ∷ l) zero old new e =
      let same : w x ≡ w old = ap w (some-injective _ _ e) in omega arith
  total-set (x ∷ l) (suc i) old new e = let rest = total-set l i old new e in omega arith

  pub total_witness :
      (l : List A) → 0 < total w l → (i : ℕ) × (a : A) × (get_elem? l i ≡ some a) × (0 < w a)
  total_witness [] h = absurd (omega arith)
  total_witness (x ∷ l) h = elim (Bool-cases (ltb 0 (w x))) [
    | inl lt ↦ (0, x, refl, ground arith)
    | inr ge ↦ let (i, a, e, pos) = total_witness l (ground arith) in (suc i, a, e, pos)
  ]

  pub total_at : (l : List A) (i : ℕ) (a : A) → get_elem? l i ≡ some a → w a ≤ total w l
  total_at [] i a e = absurd (none-ne-some _ e)
  total_at (x ∷ l) zero a e = let same : w x ≡ w a = ap w (some-injective _ _ e) in omega arith
  total_at (x ∷ l) (suc i) a e = let rest = total_at l i a e in omega arith

  pub total-repeat : (n : ℕ) (a : A) → w a ≡ 0 → total w (repeat n a) ≡ 0
  total-repeat zero a e = refl
  total-repeat (suc n) a e = let rest = total-repeat n a e in omega arith

pub total_le :
    {A : Type 0} (v w : A → ℕ) → ((a : A) → v a ≤ w a) → (l : List A) → total v l ≤ total w l
total_le v w h [] = omega arith
total_le v w h (x ∷ l) = let here = h x in let rest = total_le v w h l in omega arith
