-- ===== src/Handle/Scan.antt =====
-- The inner loop of `skynet_handle_register`: what it finds, and when it finds nothing.
use Prim.Native.Nat.{bit_and, suc}
use crynet.Prelude.{
  ap, ◌∙◌, sym, ◌⊎◌, inl, inr, ◌≢◌, ◌%◌, ◌^◌, Bool-cases, Option-cases, zero, suc, Option, some,
  none, if◌then◌else◌, ltb, arith, ℕ, ◌+◌, ◌-◌, ◌*◌, ◌≤◌, ◌<◌, ◌≡◌, refl, Option, none, some,
  Option-cases, inl, inr,
}
use crynet.Prelude.Residues.{ltb_cases}
use crynet.Handle.{Storage, scan, handle_mask}
use crynet.Handle.Valid.{IsValid, mask-size, size_divides, size_pos}
use native.Mathlib.Decide.{ℕ_discrete}
use mathlib.Core.Option.{none-ne-some}
use native.Mathlib.Nat.{add-mul-mod_self_right, mod-eq_of_lt}

-- What a search that succeeds says: an empty slot, and a handle of 24 bits that belongs there.
pub record IsFree (slot : ℕ → Option ℕ) (slot_size hash h : ℕ) : Type 0 where
  pub home : bit_and h (slot_size - 1) ≡ hash
  pub empty : slot hash ≡ none
  pub range : (1 ≤ h) × (h ≤ handle_mask)

-- The handle that a round looks at.
abbrev pub wrapped : ℕ → ℕ
wrapped handle = if ltb handle_mask handle then 1 else handle

wrapped-range : (handle : ℕ) → 1 ≤ handle → (1 ≤ wrapped handle) × (wrapped handle ≤ handle_mask)
wrapped-range handle lo = ground arith

IsFree-at :
    (slot : ℕ → Option ℕ) (slot_size w hash h : ℕ)
    → slot (bit_and w (slot_size - 1)) ≡ none
    → (1 ≤ w) × (w ≤ handle_mask)
    → ◌≡◌ {A = Option (ℕ × ℕ)} (some (bit_and w (slot_size - 1), w)) (some (hash, h))
    → IsFree slot slot_size hash h
IsFree-at slot slot_size w hash h empty (lo, hi) e =
    let same : w ≡ h = cc in record { home = cc; empty = cc; range = (omega arith, omega arith) }

pub scan-some :
    (n : ℕ) (slot : ℕ → Option ℕ) (slot_size handle hash h : ℕ)
    → 1 ≤ handle
    → scan n slot slot_size handle ≡ some (hash, h)
    → IsFree slot slot_size hash h
unfolding scan
scan-some zero slot slot_size handle hash h lo e = absurd (cc)
scan-some (suc n) slot slot_size handle hash h lo e =
    let w = wrapped handle in
    let hs = bit_and w (slot_size - 1) in
    elim (Option-cases (slot hs)) [
      | inl empty ↦
          let found : ◌≡◌ {A = Option (ℕ × ℕ)} (some (hs, w)) (some (hash, h)) =
            rw (scan, empty) at e in
          IsFree-at slot slot_size w hash h empty (wrapped-range handle lo) found
      | inr (ctx, full) ↦
          let later : scan n slot slot_size (w + 1) ≡ some (hash, h) = rw (scan, full) at e in
          scan-some n slot slot_size (w + 1) hash h (omega arith) later
    ]

wrapped_cases :
    (handle : ℕ)
    → handle ≤ 2 ^ 24
    → ((handle < 2 ^ 24) × (wrapped handle ≡ handle)) ⊎ ((handle ≡ 2 ^ 24) × (wrapped handle ≡ 1))
wrapped_cases handle h = elim (Bool-cases (ltb handle_mask handle)) [
  | inl e ↦ inr (ground arith, rw e refl)
  | inr e ↦ inl (ground arith, rw e refl)
]

-- The number past the mask leaves the remainder of 0.
past_mask : {s : Storage} → IsValid s → (j : ℕ) → (2 ^ 24 + j) % s.slot_size ≡ j % s.slot_size
past_mask {s} v j =
    let (c, e) = size_divides v in
    let turn : 2 ^ 24 + j ≡ j + c * s.slot_size = omega (arith, e) in
    ap (λ (k : ℕ). k % s.slot_size) turn ∙ add-mul-mod_self_right j c s.slot_size

zero_mod : {s : Storage} → IsValid s → 0 % s.slot_size ≡ 0
zero_mod v = mod-eq_of_lt (size_pos v)

-- A search that fails has looked at the slot of every handle on its way; only 0 is passed over.
pub scan-none :
    (n : ℕ) {s : Storage} (v : IsValid s) (handle j r : ℕ)
    → (1 ≤ handle) × (handle ≤ 2 ^ 24)
    → scan n s.slot s.slot_size handle ≡ none
    → j < n
    → (handle + j) % s.slot_size ≡ r
    → 1 ≤ r
    → s.slot r ≢ none
unfolding scan
scan-none zero {s} v handle j r range e lt at lo = absurd (omega arith)
scan-none (suc n) {s} v handle j r (least, most) e lt at lo =
    elim (Option-cases (s.slot (bit_and (wrapped handle) (s.slot_size - 1)))) [
      | inl empty ↦ absurd (none-ne-some _ (sym (rw (scan, empty) at e)))
      | inr (c, full) ↦
          let later : scan n s.slot s.slot_size (wrapped handle + 1) ≡ none =
            rw (scan, full) at e in
          let here : s.slot (wrapped handle % s.slot_size) ≡ some c =
            rw (mask-size v (wrapped handle)) at full in
          let hit : wrapped handle % s.slot_size ≡ r → s.slot r ≢ none =
            λ same bad. none-ne-some _ (sym bad ∙ ap s.slot (sym same) ∙ here) in
          elim (wrapped_cases handle most) [
            | inl (low, w) ↦ elim (ℕ_discrete j 0) [
              | yes z ↦
                  let same : handle ≡ handle + j = omega arith in
                  hit (ap (λ (k : ℕ). k % s.slot_size) (w ∙ same) ∙ at)
              | no ne ↦
                  let same : handle + 1 + (j - 1) ≡ handle + j = omega arith in
                  scan-none n v (handle + 1) (j - 1) r (omega arith, omega arith) (rw w at later)
                    (omega arith) (ap (λ (k : ℕ). k % s.slot_size) same ∙ at) lo
            ]
            | inr (top, w) ↦
                let turned : j % s.slot_size ≡ r =
                  sym (past_mask v j) ∙ ap (λ (k : ℕ). (k + j) % s.slot_size) (sym top) ∙ at in
                elim (ltb_cases 1 j) [
                  | inl more ↦
                      let same : 2 + (j - 2) ≡ j = omega arith in
                      scan-none n v 2 (j - 2) r (omega arith, omega arith) (rw w at later)
                        (omega arith) (ap (λ (k : ℕ). k % s.slot_size) same ∙ turned) lo
                  | inr less ↦ elim (ℕ_discrete j 0) [
                    | yes z ↦
                        absurd
                          (omega (arith, turned, ap (λ (k : ℕ). k % s.slot_size) z, zero_mod v))
                    | no ne ↦
                        let same : 1 ≡ j = omega arith in
                        hit (ap (λ (k : ℕ). k % s.slot_size) (w ∙ same) ∙ turned)
                  ]
                ]
          ]
    ]
