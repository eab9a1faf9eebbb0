-- ===== src/Handle/Valid.antt =====
-- What holds of the table: every context stands in the slot of its handle.
use Prim.Native.Nat.{bit_and, bit_or}
use crynet.Prelude.{
  ℕ, ◌+◌, ◌-◌, ◌*◌, ◌/◌, ◌%◌, ◌^◌, ◌≤◌, ◌<◌, ◌≡◌, ◌≢◌, refl, some, arith, ap, sym, ◌∙◌,
}
use native.Mathlib.Nat.{div-add-mod, add-mul-mod_self_right, mul_assoc}
use crynet.Prelude.Bits.{bit_and_mask, pow_pos, bit_or_beside, pow_split}
use mathlib.Core.Option.{none-ne-some}
use crynet.Handle.{Storage, init}

-- A handle of this node: the harbor above, and a number that is not 0 below.
pub record IsOwn (harbor handle : ℕ) : Type 0 where
  pub above : handle / 2 ^ 24 * 2 ^ 24 ≡ harbor
  pub below : handle % 2 ^ 24 ≢ 0

pub record IsValid (s : Storage) : Type 0 where
  pub bits : ℕ
  pub size : s.slot_size ≡ 2 ^ bits
  pub bounds : (2 ≤ bits) × (bits ≤ 24)
  pub index : (1 ≤ s.handle_index) × (s.handle_index ≤ 2 ^ 24)
  pub harbor : s.harbor % 2 ^ 24 ≡ 0
  pub slots :
      (i ctx : ℕ)
      → s.slot i ≡ some ctx
      → (s.handle_of ctx % s.slot_size ≡ i) × IsOwn s.harbor (s.handle_of ctx)

-- The mask of the slots is a remainder.
pub mask-size :
    {s : Storage} (v : IsValid s) (h : ℕ) → bit_and h (s.slot_size - 1) ≡ h % s.slot_size
mask-size v h = rw v.size (bit_and_mask v.bits h)

pub size_pos : {s : Storage} → IsValid s → 0 < s.slot_size
size_pos v = rw v.size (pow_pos v.bits)

-- The size of the slots divides 2 ^ 24.
pub size_divides : {s : Storage} → IsValid s → (c : ℕ) × (2 ^ 24 ≡ c * s.slot_size)
size_divides v =
    let (lo, hi) = v.bounds in
    let e : v.bits + (24 - v.bits) ≡ 24 = omega arith in
    (2 ^ (24 - v.bits), rw v.size (ap (λ (k : ℕ). 2 ^ k) (sym e) ∙ pow_split v.bits (24 - v.bits)))

-- A handle with the harbor above it stands in the same slot.
pub mod_harbor :
    {s : Storage} → IsValid s → (h : ℕ) → (h + s.harbor) % s.slot_size ≡ h % s.slot_size
mod_harbor {s} v h =
    let (c, e) = size_divides v in
    let b = s.harbor / 2 ^ 24 in
    let whole : s.harbor ≡ b * 2 ^ 24 = omega (arith, div-add-mod s.harbor (2 ^ 24), v.harbor) in
    let multiple : s.harbor ≡ b * c * s.slot_size =
      whole ∙ ap (λ (k : ℕ). b * k) e ∙ sym (mul_assoc b c s.slot_size) in
    ap (λ (k : ℕ). (h + k) % s.slot_size) multiple ∙ add-mul-mod_self_right h (b * c) s.slot_size

-- The handle that is made of a number and the harbor.
pub bit_or-IsOwn :
    {s : Storage}
    → IsValid s
    → (h : ℕ) → 1 ≤ h
    → h < 2 ^ 24
    → (bit_or h s.harbor ≡ h + s.harbor) × IsOwn s.harbor (h + s.harbor)
bit_or-IsOwn {s} v h lo hi = (
  bit_or_beside 24 h s.harbor hi v.harbor,
  record { above = omega (arith, v.harbor); below = omega (arith, v.harbor) },
)

pub init-IsValid : (harbor : ℕ) → IsValid (init harbor)
unfolding init
init-IsValid harbor = record {
  bits = 2;
  size = refl;
  bounds = (omega arith, omega arith);
  index = (omega arith, omega arith);
  harbor = omega arith;
  slots = λ i ctx e. absurd (none-ne-some _ e);
}
