-- ===== src/Timer/Place.antt =====
-- Where a node stands, by its expiry and the time of the wheel, in quotients and remainders.
use Prim.Native.Nat.{bit_or}
use crynet.Prelude.{
  ℕ, ◌+◌, ◌-◌, ◌*◌, ◌/◌, ◌%◌, ◌^◌, ◌<◌, ◌≡◌, Bool, false, arith, ◌==◌, ==-eq, ==-ne, if◌then◌else◌,
  Bool-cases, inl, inr, ==_iff, ◌≢◌, sym, Option, ◌∙◌, some, ap, none,
}
use crynet.Prelude.Bits.{bit_and_mask, bit_or_mask, pow_pos}
use crynet.Timer.Wheel.{same_loc}
use native.Mathlib.Nat.{mul-div_right}
use crynet.Timer.{Loc, near_at, level_at, place, find_level}

-- Two times agree above the mask when their quotients do.
scaled_eq : (m a b c : ℕ) → 0 < m → (a * m + c == b * m + c) ≡ (a == b)
scaled_eq m a b c pos = elim (Bool-cases (a == b)) [
  | inl e ↦ rw e (let same : a ≡ b = (==_iff a b).0 e in ==-eq (a * m + c) (b * m + c) (rw same))
  | inr e ↦
      let apart : a ≢ b = λ same. cc (==-eq a b same) in
      rw e (
        ==-ne (a * m + c) (b * m + c) (λ same.
          apart (
            sym (mul-div_right a pos) ∙ ap (λ (k : ℕ). k / m) (omega arith) ∙ mul-div_right b pos)))
]

masked : (k x y : ℕ) → (bit_or x (2 ^ k - 1) == bit_or y (2 ^ k - 1)) ≡ (x / 2 ^ k == y / 2 ^ k)
masked k x y =
    rw (bit_or_mask k x, bit_or_mask k y)
      (scaled_eq (2 ^ k) (x / 2 ^ k) (y / 2 ^ k) (2 ^ k - 1) (pow_pos k))

-- What `place` computes, without masks.
abbrev pub home : ℕ → ℕ → Loc
home c e =
    if e / 2 ^ 8 == c / 2 ^ 8
    then near_at (e % 2 ^ 8)
    else if e / 2 ^ 14 == c / 2 ^ 14
    then level_at 0 (e / 2 ^ 8 % 2 ^ 6)
    else if e / 2 ^ 20 == c / 2 ^ 20
    then level_at 1 (e / 2 ^ 14 % 2 ^ 6)
    else if e / 2 ^ 26 == c / 2 ^ 26
    then level_at 2 (e / 2 ^ 20 % 2 ^ 6)
    else level_at 3 (e / 2 ^ 26 % 2 ^ 6)

pub place-eq-home : (c e : ℕ) → place c e ≡ home c e
unfolding place find_level
place-eq-home c e =
    rw (masked 8 e c, masked 14 e c, masked 20 e c, masked 26 e c)
      (ground (
        arith,
        bit_and_mask 8 e,
        bit_and_mask 6 (e / 2 ^ 8),
        bit_and_mask 6 (e / 2 ^ 14),
        bit_and_mask 6 (e / 2 ^ 20),
        bit_and_mask 6 (e / 2 ^ 26),
      ))

-- The list that `timer_shift` spreads when the time becomes `ct`, if any.
abbrev pub target : ℕ → Option Loc
target ct =
    if ct == 0
    then some (level_at 3 0)
    else if ct % 2 ^ 8 == 0
    then (if ct / 2 ^ 8 % 2 ^ 6 == 0
        then (if ct / 2 ^ 14 % 2 ^ 6 == 0
            then (if ct / 2 ^ 20 % 2 ^ 6 == 0
                then some (level_at 3 (ct / 2 ^ 26 % 2 ^ 6))
                else some (level_at 2 (ct / 2 ^ 20 % 2 ^ 6)))
            else some (level_at 1 (ct / 2 ^ 14 % 2 ^ 6)))
        else some (level_at 0 (ct / 2 ^ 8 % 2 ^ 6)))
    else none

abbrev pub is_target : Option Loc → Loc → Bool
is_target none k = false
is_target (some l) k = same_loc l k

-- Ticks from the time `c` to `e`, round the 32 bits.
abbrev pub left : ℕ → ℕ → ℕ
left c e = (e + 2 ^ 32 - c) % 2 ^ 32
