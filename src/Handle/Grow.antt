-- ===== src/Handle/Grow.antt =====
-- The loop that fills the new slots: every context is put in the slot of its handle, and no two in one.
use Prim.Native.Nat.{bit_and}
use crynet.Prelude.{
  ℕ, ◌+◌, ◌-◌, ◌*◌, ◌%◌, ◌<◌, ◌≡◌, refl, update, none, some, ap, ◌∙◌, sym, arith, Option,
  Option-cases, update_cases, inl, inr, zero, suc, ◌/◌, update_self,
}
use mathlib.Core.Option.{none-ne-some, some-injective}
use mathlib.Core.Path.{subst}
use native.Mathlib.Decide.{ℕ_discrete}
use native.Mathlib.Nat.{div-add-mod, add-mul-mod_self_right, pow-suc}
use crynet.Prelude.Bits.{bit_and_mask}
use crynet.Handle.{Storage, rehash}
use crynet.Handle.Valid.{IsValid, size_pos}

-- A remainder by twice a number, taken by the number.
pub mod_twice : (x n : ℕ) → 0 < n → x % (n * 2) % n ≡ x % n
mod_twice x n h =
    let whole = div-add-mod x (n * 2) in
    let e : x ≡ x % (n * 2) + x / (n * 2) * 2 * n = grind arith in
    sym (ap (λ (k : ℕ). k % n) e ∙ add-mul-mod_self_right (x % (n * 2)) (x / (n * 2) * 2) n)

pub mask_twice :
    {s : Storage} → IsValid s → (h : ℕ) → bit_and h (s.slot_size * 2 - 1) ≡ h % (s.slot_size * 2)
mask_twice v h = rw (v.size, ← pow-suc) (bit_and_mask (suc v.bits) h)

-- After the cells below `i` the new array holds just their contexts, each in the slot of its handle.
pub record Moved (s : Storage) (i : ℕ) (new : ℕ → Option ℕ) : Type 0 where
  pub from :
      (k c : ℕ)
      → new k ≡ some c
      → (s.handle_of c % (s.slot_size * 2) ≡ k) × (j : ℕ) × (j < i) × (s.slot j ≡ some c)
  pub all : (j c : ℕ) → j < i → s.slot j ≡ some c → new (s.handle_of c % (s.slot_size * 2)) ≡ some c

Moved-skip :
    {s : Storage} {i : ℕ} {new : ℕ → Option ℕ}
    → Moved s i new
    → s.slot i ≡ none
    → Moved s (i + 1) new
Moved-skip {s} {i} {new} m e = record {
  from = λ k c f. let (h, j, lt, at) = m.from k c f in (h, j, omega arith, at);
  all = λ j c lt f. elim (ℕ_discrete j i) [
    | yes same ↦ absurd (none-ne-some _ (sym e ∙ ap s.slot (sym same) ∙ f))
    | no ne ↦ m.all j c (omega arith) f
  ];
}

-- A cell that two contexts want would have been one cell before.
home_empty :
    {s : Storage} (v : IsValid s) {i : ℕ} {new : ℕ → Option ℕ}
    → Moved s i new
    → (c : ℕ) → s.slot i ≡ some c
    → new (s.handle_of c % (s.slot_size * 2)) ≡ none
home_empty {s} v {i} {new} m c e = elim (Option-cases (new (s.handle_of c % (s.slot_size * 2)))) [
  | inl r ↦ r
  | inr (d, r) ↦
      let (h, j, lt, at) = m.from (s.handle_of c % (s.slot_size * 2)) d r in
      let (ci, _) = v.slots i c e in
      let (dj, _) = v.slots j d at in
      let n = s.slot_size in
      let same : s.handle_of d % n ≡ s.handle_of c % n =
        sym (mod_twice (s.handle_of d) n (size_pos v))
        ∙ ap (λ (k : ℕ). k % n) h
        ∙ mod_twice (s.handle_of c) n (size_pos v) in
      absurd (omega arith)
]

Moved-put :
    {s : Storage} (v : IsValid s) {i : ℕ} {new : ℕ → Option ℕ}
    → Moved s i new
    → (c : ℕ) → s.slot i ≡ some c
    → Moved s (i + 1) (update new (s.handle_of c % (s.slot_size * 2)) (some c))
Moved-put {s} v {i} {new} m c e = record {
  from = λ k d f. elim (update_cases new home (some c) k) [
    | inl (here, now) ↦
        let one : c ≡ d = some-injective _ _ (sym now ∙ f) in
        (
          ap (λ (k : ℕ). s.handle_of k % (s.slot_size * 2)) (sym one) ∙ here,
          i,
          omega arith,
          e ∙ ap some one,
        )
    | inr (_, old) ↦ let (h, j, lt, at) = m.from k d (sym old ∙ f) in (h, j, omega arith, at)
  ];
  all = λ j d lt f. elim (ℕ_discrete j i) [
    | yes same ↦
        let one : c ≡ d = some-injective _ _ (sym e ∙ ap s.slot (sym same) ∙ f) in
        subst (λ (k : ℕ). update new home (some c) (s.handle_of k % (s.slot_size * 2)) ≡ some k) one
          (update_self new home (some c))
    | no ne ↦
        let old = m.all j d (omega arith) f in
        elim (update_cases new home (some c) (s.handle_of d % (s.slot_size * 2))) [
          | inl (here, _) ↦ absurd (none-ne-some _ (sym (home_empty v m c e) ∙ ap new here ∙ old))
          | inr (_, same) ↦ same ∙ old
        ]
  ];
}
  where
    home : ℕ
    home = s.handle_of c % (s.slot_size * 2)

pub rehash_lem :
    {s : Storage} (v : IsValid s) (n i : ℕ) (new : ℕ → Option ℕ)
    → i + n ≡ s.slot_size
    → Moved s i new
    → (new' : ℕ → Option ℕ) × (rehash n i s new ≡ some new') × Moved s s.slot_size new'
unfolding rehash
rehash_lem {s} v zero i new e m =
    let whole : i ≡ s.slot_size = omega arith in
    (new, refl, subst (λ (k : ℕ). Moved s k new) whole m)
rehash_lem {s} v (suc n) i new e m = elim (Option-cases (s.slot i)) [
  | inl empty ↦
      let (new', r, m') = rehash_lem v n (i + 1) new (omega arith) (Moved-skip m empty) in
      (new', rw (rehash, empty) r, m')
  | inr (c, full) ↦
      let (new', r, m') =
        rehash_lem v n (i + 1) (update new (s.handle_of c % (s.slot_size * 2)) (some c))
          (omega arith) (Moved-put v m c full) in
      (
        new',
        rw
            (
              rehash,
              full,
              mask_twice v (s.handle_of c),
              home_empty v m c full,
              mask_twice v (s.handle_of c),
            )
            r,
        m',
      )
]
