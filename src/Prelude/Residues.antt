-- ===== src/Prelude/Residues.antt =====
-- Counting up by one meets every remainder.
use crynet.Prelude.Tests.{ltb, Bool-cases}
use Prim.Native.Nat.{ℕ, ◌+◌, ◌-◌, ◌*◌, ◌/◌, ◌%◌, ◌<◌, ◌≤◌}
use mathlib.Core.Path.{◌≡◌, ap, ◌∙◌}
use mathlib.Core.Logic.{◌⊎◌, inl, inr}
use native.Mathlib.Omega.{arith}
use native.Mathlib.Nat.{add-mul-mod_self_right, div-add-mod, mod-lt, mod-eq_of_lt}

pub ltb_cases : (a b : ℕ) → (a < b) ⊎ (b ≤ a)
ltb_cases a b = elim (Bool-cases (ltb a b)) [
  | inl e ↦ inl (ground arith)
  | inr e ↦ inr (ground arith)
]

-- Every remainder is met by counting up from a handle.
pub reach : (n handle r : ℕ) → 0 < n → r < n → (j : ℕ) × (j < n) × ((handle + j) % n ≡ r)
reach n handle r pos small =
    let q = handle % n in
    let d = handle / n in
    let whole : handle ≡ q + d * n = grind (arith, div-add-mod handle n) in
    elim (ltb_cases r q) [
      | inl below ↦
          let turn : handle + (n + r - q) ≡ r + (d + 1) * n = grind (arith, mod-lt handle pos) in
          (
            n + r - q,
            omega (arith, mod-lt handle pos),
            ap (λ (k : ℕ). k % n) turn ∙ add-mul-mod_self_right r (d + 1) n ∙ mod-eq_of_lt small,
          )
      | inr above ↦
          let turn : handle + (r - q) ≡ r + d * n = grind arith in
          (
            r - q,
            omega arith,
            ap (λ (k : ℕ). k % n) turn ∙ add-mul-mod_self_right r d n ∙ mod-eq_of_lt small,
          )
    ]
