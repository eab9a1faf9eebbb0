-- ===== src/Prelude/Bits.antt =====
-- Masks of low bits: `x & (2^k - 1)` and `x | (2^k - 1)` as a remainder and a quotient.
use Prim.Native.Nat.{
  ℕ, zero, suc, ◌+◌, ◌-◌, ◌*◌, ◌/◌, ◌%◌, ◌^◌, ◌≤◌, ◌<◌, min, max, bit_and, bit_or, digits,
  bit_and-bitwise, bit_or-bitwise,
}
use mathlib.Core.Path.{◌≡◌, refl, ap, ◌∙◌, sym, subst}
use native.Mathlib.Nat.{pow-suc, div-add-mod, mul_comm, div-div-eq-div-mul, mul_assoc}
use native.Mathlib.Omega.{arith}

-- Enough rounds give the same digits.
digits_rounds :
    (z : ℕ → ℕ) (f : ℕ → ℕ → ℕ) (n m a b : ℕ) → a ≤ n → a ≤ m → digits z f n a b ≡ digits z f m a b
digits_rounds z f zero zero a b p q = refl
digits_rounds z f zero (suc m) zero b p q = refl
digits_rounds z f zero (suc m) (suc a) b p q = absurd (omega arith)
digits_rounds z f (suc n) zero zero b p q = refl
digits_rounds z f (suc n) zero (suc a) b p q = absurd (omega arith)
digits_rounds z f (suc n) (suc m) zero b p q = refl
digits_rounds z f (suc n) (suc m) (suc a) b p q =
    omega (arith, digits_rounds z f n m (suc a / 2) (b / 2) (omega arith) (omega arith))

and_low : (a b : ℕ) → bit_and a b ≡ bit_and (a / 2) (b / 2) * 2 + min (a % 2) (b % 2)
and_low zero b = omega (arith, bit_and-bitwise 0 b, bit_and-bitwise 0 (b / 2))
and_low (suc a) b =
    let rounds =
      digits_rounds (λ _. 0) min a (suc a / 2) (suc a / 2) (b / 2) (omega arith) (omega arith) in
    omega (arith, bit_and-bitwise (suc a) b, bit_and-bitwise (suc a / 2) (b / 2), rounds)

or_low : (a b : ℕ) → bit_or a b ≡ bit_or (a / 2) (b / 2) * 2 + max (a % 2) (b % 2)
or_low zero b = omega (arith, bit_or-bitwise 0 b, bit_or-bitwise 0 (b / 2))
or_low (suc a) b =
    let rounds =
      digits_rounds (λ c. c) max a (suc a / 2) (suc a / 2) (b / 2) (omega arith) (omega arith) in
    omega (arith, bit_or-bitwise (suc a) b, bit_or-bitwise (suc a / 2) (b / 2), rounds)

and_zero : (n a : ℕ) → a ≤ n → (bit_and a 0 ≡ 0) × (bit_or a 0 ≡ a)
and_zero n zero h = (bit_and-bitwise 0 0, bit_or-bitwise 0 0)
and_zero zero (suc a) h = absurd (omega arith)
and_zero (suc n) (suc a) h =
    let (i, j) = and_zero n (suc a / 2) (omega arith) in
    (omega (arith, and_low (suc a) 0, i), omega (arith, or_low (suc a) 0, j))

-- Halving takes the low bit off a remainder.
div-mod_double :
    (x m : ℕ) → 0 < m → (x / (m * 2) ≡ x / 2 / m) × (x % (m * 2) ≡ x / 2 % m * 2 + x % 2)
div-mod_double x m h =
    let d : x / (m * 2) ≡ x / 2 / m =
      ap (λ (k : ℕ). x / k) (mul_comm m 2) ∙ sym (div-div-eq-div-mul x 2 m) in
    let whole : m * 2 * (x / 2 / m) + x % (m * 2) ≡ x = rw d at (div-add-mod x (m * 2)) in
    (d, omega (arith, whole, div-add-mod (x / 2) m))

pub pow_pos : (k : ℕ) → 0 < 2 ^ k
pow_pos zero = omega arith
pow_pos (suc k) = rw pow-suc (omega (arith, pow_pos k))

-- The two halves of the mask with one more bit.
mask_low : (m : ℕ) → 0 < m → ((m * 2 - 1) / 2 ≡ m - 1) × ((m * 2 - 1) % 2 ≡ 1)
mask_low m h = omega arith

pub bit_and_mask : (k x : ℕ) → bit_and x (2 ^ k - 1) ≡ x % 2 ^ k
bit_and_mask zero x = omega (arith, (and_zero x x (omega arith)).0)
bit_and_mask (suc k) x =
    let m = 2 ^ k in
    let pos : 0 < m = pow_pos k in
    let (half, one) = mask_low m pos in
    rw
      (
        pow-suc,
        (div-mod_double x m pos).1,
        and_low x (m * 2 - 1),
        half,
        one,
        bit_and_mask k (x / 2),
      )
      (omega arith)

pub bit_or_mask : (k x : ℕ) → bit_or x (2 ^ k - 1) ≡ x / 2 ^ k * 2 ^ k + (2 ^ k - 1)
bit_or_mask zero x = omega (arith, (and_zero x x (omega arith)).1)
bit_or_mask (suc k) x =
    let m = 2 ^ k in
    let pos : 0 < m = pow_pos k in
    let (half, one) = mask_low m pos in
    rw (pow-suc, (div-mod_double x m pos).0, or_low x (m * 2 - 1), half, one, bit_or_mask k (x / 2))
      (omega arith)

-- A power is a multiple of every smaller one.
pub pow_split : (b k : ℕ) → 2 ^ (b + k) ≡ 2 ^ k * 2 ^ b
pow_split zero k = let e : 0 + k ≡ k = omega arith in rw e (omega arith)
pow_split (suc b) k =
    let e : suc b + k ≡ suc (b + k) = omega arith in
    rw (e, pow-suc, pow-suc) (omega (arith, pow_split b k, mul_assoc (2 ^ k) (2 ^ b) 2))

double_parts : (p : ℕ) → (p * 2 / 2 ≡ p) × (p * 2 % 2 ≡ 0)
double_parts p = omega arith

or_shifted : (k a c : ℕ) → a < 2 ^ k → bit_or a (c * 2 ^ k) ≡ a + c * 2 ^ k
or_shifted zero zero c h = omega (arith, bit_or-bitwise 0 (c * 1))
or_shifted zero (suc a) c h = absurd (omega arith)
or_shifted (suc k) a c h =
    let m = 2 ^ k in
    let small : a < m * 2 = rw pow-suc at h in
    let e : c * (m * 2) ≡ c * m * 2 = sym (mul_assoc c m 2) in
    let (half, even) = double_parts (c * m) in
    rw (pow-suc, e, or_low a (c * m * 2), half, even, or_shifted k (a / 2) c (omega arith))
      (omega arith)

-- A number below the lowest bit of another is put beside it.
pub bit_or_beside : (k a b : ℕ) → a < 2 ^ k → b % 2 ^ k ≡ 0 → bit_or a b ≡ a + b
bit_or_beside k a b h e =
    let whole : b ≡ b / 2 ^ k * 2 ^ k = omega (arith, div-add-mod b (2 ^ k)) in
    subst (λ (c : ℕ). bit_or a c ≡ a + c) (sym whole) (or_shifted k a (b / 2 ^ k) h)

shifted_or : (k a c : ℕ) → a < 2 ^ k → bit_or (c * 2 ^ k) a ≡ c * 2 ^ k + a
shifted_or zero zero c h = omega (arith, (and_zero (c * 1) (c * 1) (omega arith)).1)
shifted_or zero (suc a) c h = absurd (omega arith)
shifted_or (suc k) a c h =
    let m = 2 ^ k in
    let small : a < m * 2 = rw pow-suc at h in
    let e : c * (m * 2) ≡ c * m * 2 = sym (mul_assoc c m 2) in
    let (half, even) = double_parts (c * m) in
    rw (pow-suc, e, or_low (c * m * 2) a, half, even, shifted_or k (a / 2) c (omega arith))
      (omega arith)

-- The same, with the greater number in front.
pub bit_or_above : (k a b : ℕ) → a < 2 ^ k → b % 2 ^ k ≡ 0 → bit_or b a ≡ b + a
bit_or_above k a b h e =
    let whole : b ≡ b / 2 ^ k * 2 ^ k = omega (arith, div-add-mod b (2 ^ k)) in
    subst (λ (c : ℕ). bit_or c a ≡ c + a) (sym whole) (shifted_or k a (b / 2 ^ k) h)
