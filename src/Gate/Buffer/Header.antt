-- ===== src/Gate/Buffer/Header.antt =====
-- The header of a message: its length, in 2 or 4 bytes with the highest first.
use Prim.Native.Nat.{bit_or}
use crynet.Prelude.{
  ℕ, ◌+◌, ◌-◌, ◌*◌, ◌/◌, ◌%◌, ◌^◌, ◌≤◌, ◌<◌, ◌≡◌, refl, ap, List, [], ◌∷◌, arith, ltb, ◌==◌,
  if◌then◌else◌, length, ◌⊎◌, inl, inr, true, false,
}
use crynet.Prelude.Int.{pos, negsuc}
use crynet.Prelude.Bits.{bit_or_above}
use crynet.Gate.Buffer.{decode}

-- The bytes of a length, as a sender writes them.
abbrev pub be_bytes : ℕ → ℕ → List ℕ
be_bytes header_size n =
    if header_size == 2
    then n / 2 ^ 8 ∷ n % 2 ^ 8 ∷ []
    else n / 2 ^ 24 ∷ n / 2 ^ 16 % 2 ^ 8 ∷ n / 2 ^ 8 % 2 ^ 8 ∷ n % 2 ^ 8 ∷ []

-- The greatest length that a header can say and that the gate accepts, plus one.
abbrev pub limit : ℕ → ℕ
limit header_size = if header_size == 2 then 2 ^ 16 else 2 ^ 24

abbrev pub IsHeaderSize : ℕ → Type 0
IsHeaderSize header_size = (header_size ≡ 2) ⊎ (header_size ≡ 4)

decode_two : (n : ℕ) → n < 2 ^ 16 → bit_or (n / 2 ^ 8 * 2 ^ 8) (n % 2 ^ 8) ≡ n
decode_two n h = omega (arith, bit_or_above 8 (n % 2 ^ 8) (n / 2 ^ 8 * 2 ^ 8))

-- Four bytes from the highest.
pub decode_four :
    (a b c d : ℕ)
    → b < 2 ^ 8
    → c < 2 ^ 8
    → d < 2 ^ 8
    → bit_or (bit_or (bit_or (a * 2 ^ 24) (b * 2 ^ 16)) (c * 2 ^ 8)) d
      ≡ a * 2 ^ 24 + b * 2 ^ 16 + c * 2 ^ 8 + d
decode_four a b c d hb hc hd =
    let e = bit_or_above 24 (b * 2 ^ 16) (a * 2 ^ 24) (omega arith) (omega arith) in
    let f = bit_or_above 16 (c * 2 ^ 8) (a * 2 ^ 24 + b * 2 ^ 16) (omega arith) (omega arith) in
    let g = bit_or_above 8 d (a * 2 ^ 24 + b * 2 ^ 16 + c * 2 ^ 8) (omega arith) (omega arith) in
    rw (e, f) g

-- Reading the bytes of a length gives the length.
pub decode-be_bytes :
    (header_size n : ℕ)
    → IsHeaderSize header_size
    → n < limit header_size
    → decode header_size (be_bytes header_size n) ≡ pos n
unfolding decode
decode-be_bytes header_size n (inl e) h =
    let small : n < 2 ^ 16 = rw e at h in rw e (ap pos (decode_two n small))
decode-be_bytes header_size n (inr e) h =
    let small : n < 2 ^ 24 = rw e at h in
    let four =
      decode_four (n / 2 ^ 24) (n / 2 ^ 16 % 2 ^ 8) (n / 2 ^ 8 % 2 ^ 8) (n % 2 ^ 8) (omega arith)
        (omega arith) (omega arith) in
    let whole : n / 2 ^ 24 * 2 ^ 24
          + n / 2 ^ 16 % 2 ^ 8 * 2 ^ 16
          + n / 2 ^ 8 % 2 ^ 8 * 2 ^ 8
          + n % 2 ^ 8
        ≡ n =
      omega arith in
    let test : ltb n (2 ^ 31) ≡ true = ground arith in rw (e, four, whole, test) refl

pub length-be_bytes :
    (header_size n : ℕ) → IsHeaderSize header_size → length (be_bytes header_size n) ≡ header_size
length-be_bytes header_size n (inl e) = rw e refl
length-be_bytes header_size n (inr e) = rw e refl

-- Four bytes of which the first is 128 or more are a negative `int`.
pub decode_negative :
    (a b c d : ℕ)
    → 128 ≤ a
    → a < 256
    → b < 256
    → c < 256
    → d < 256
    → (n : ℕ) × (decode 4 (a ∷ b ∷ c ∷ d ∷ []) ≡ negsuc n)
unfolding decode
decode_negative a b c d lo ha hb hc hd =
    let whole = a * 2 ^ 24 + b * 2 ^ 16 + c * 2 ^ 8 + d in
    let test : ltb whole (2 ^ 31) ≡ false = ground arith in
    (2 ^ 32 - 1 - whole, rw (decode_four a b c d hb hc hd, test) refl)
