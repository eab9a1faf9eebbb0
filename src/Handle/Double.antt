-- ===== src/Handle/Double.antt =====
-- The slots are doubled: every context stays, with its handle.
use crynet.Prelude.{
  ℕ, ◌-◌, ◌*◌, ◌%◌, ◌^◌, ◌≤◌, ◌<◌, ◌≡◌, refl, none, some, ap, ◌∙◌, sym, arith, Option, zero, suc,
  leb, true,
}
use mathlib.Core.Option.{none-ne-some}
use mathlib.Core.Path.{subst}
use native.Mathlib.Decide.{ℕ_discrete}
use native.Mathlib.Nat.{pow-suc, mod-lt}
use crynet.Handle.Register.{grab_same}
use crynet.Handle.{Storage, grow, grab, leb, handle_mask}
use crynet.Handle.Valid.{IsValid, size_pos, size_divides}
use crynet.Handle.Grow.{Moved, mod_twice, rehash_lem}

-- What a doubling promises: the same contexts are found, and a cell's context was in the cell of
-- the remainder.
pub record Grown (s s' : Storage) : Type 0 where
  pub valid : IsValid s'
  pub size : s'.slot_size ≡ s.slot_size * 2
  pub same : (g : ℕ) → grab s' g ≡ grab s g
  pub kept : (s'.harbor ≡ s.harbor) × (s'.name ≡ s.name) × (s'.handle_index ≡ s.handle_index)
  pub before : (k c : ℕ) → s'.slot k ≡ some c → s.slot (k % s.slot_size) ≡ some c

abbrev doubled : Storage → (ℕ → Option ℕ) → Storage
doubled s new = record s { slot = new; slot_size = s.slot_size * 2 }

doubled-IsValid :
    {s : Storage}
    → IsValid s
    → s.slot_size < 2 ^ 24
    → (new : ℕ → Option ℕ) → Moved s s.slot_size new
    → IsValid (doubled s new)
doubled-IsValid {s} v small new m = record {
  bits = suc v.bits;
  size = rw (v.size, pow-suc) refl;
  bounds = (
    omega (arith, v.bounds),
    elim (ℕ_discrete v.bits 24) [
      | yes e ↦ absurd (omega (arith, small, v.size ∙ ap (λ (k : ℕ). 2 ^ k) e))
      | no ne ↦ omega (arith, v.bounds)
    ],
  );
  index = v.index;
  harbor = v.harbor;
  slots = λ k c f. let (h, j, lt, at) = m.from k c f in let (_, own) = v.slots j c at in (h, own);
}

doubled-Grown :
    {s : Storage}
    → IsValid s
    → s.slot_size < 2 ^ 24
    → (new : ℕ → Option ℕ) → Moved s s.slot_size new
    → Grown s (doubled s new)
doubled-Grown {s} v small new m =
    let v' = doubled-IsValid v small new m in
    record {
      valid = v';
      size = refl;
      same = λ g.
          grab_same v v' g
            (λ c e same. (
              subst (λ (k : ℕ). new (k % (s.slot_size * 2)) ≡ some c) same
                  (m.all (g % s.slot_size) c (mod-lt g (size_pos v)) e),
              same,
            ))
            (λ c e same. (
              ap (λ (k : ℕ). s.slot (k % s.slot_size)) (sym same)
                  ∙ old new m (g % (s.slot_size * 2)) c e,
              same,
            ));
      kept = (refl, refl, refl);
      before = λ k c e.
          let (h, _, _, _) = m.from k c e in
          ap s.slot (
            ap (λ (r : ℕ). r % s.slot_size) (sym h)
            ∙ mod_twice (s.handle_of c) s.slot_size (size_pos v))
          ∙ old new m k c e;
    }
  where
    old :
        (new : ℕ → Option ℕ)
        → Moved s s.slot_size new
        → (k c : ℕ) → new k ≡ some c
        → s.slot (s.handle_of c % s.slot_size) ≡ some c
    old new m k c e =
        let (h, j, lt, at) = m.from k c e in let (dj, _) = v.slots j c at in ap s.slot dj ∙ at

divides_le : (c n m : ℕ) → 0 < m → m ≡ c * n → n ≤ m
divides_le zero n m h e = absurd (omega arith)
divides_le (suc c) n m h e = grind arith

fits_mask : {s : Storage} → IsValid s → leb (s.slot_size - 1) handle_mask ≡ true
fits_mask {s} v =
    let (c, e) = size_divides v in
    let le = divides_le c s.slot_size (2 ^ 24) (omega arith) e in ground arith

pub grow_lem :
    {s : Storage}
    → IsValid s
    → s.slot_size < 2 ^ 24
    → (s' : Storage) × (grow s ≡ some s') × Grown s s'
unfolding grow
grow_lem {s} v small =
    let (new, r, m) =
      rehash_lem v s.slot_size 0 (λ _. none) (omega arith)
        (record {
          from = λ k c f. absurd (none-ne-some _ f);
          all = λ j c lt f. absurd (omega arith);
        }) in
    let fits : leb (s.slot_size * 2 - 1) handle_mask ≡ true =
      fits_mask (doubled-IsValid v small new m) in
    (doubled s new, rw (grow, fits, r) refl, doubled-Grown v small new m)
