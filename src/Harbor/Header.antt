-- ===== src/Harbor/Header.antt =====
-- What a node writes in front of and behind a message is what the other node reads.
use Prim.Native.Nat.{bit_and}
use crynet.Prelude.{
  ℕ, ◌+◌, ◌-◌, ◌/◌, ◌%◌, ◌^◌, ◌<◌, ◌≡◌, refl, ap, ◌∙◌, List, [], ◌∷◌, ◌++◌, some, arith, take, drop,
  length, ltb, false, length-append, ◌==◌, true, ◌*◌,
}
use crynet.Prelude.Bits.{bit_and_mask, bit_or_above}
use crynet.Gate.Buffer.Header.{decode_four}
use crynet.Harbor.{
  RemoteHeader, to_bigendian, from_bigendian, header_to_message, message_to_header, send_remote,
  split_message, read_length,
}

-- A header as the fields hold it.
pub record Fits (h : RemoteHeader) : Type 0 where
  pub source : h.source < 2 ^ 32
  pub destination : h.destination < 2 ^ 32
  pub session : h.session < 2 ^ 32

pub length-to_bigendian : (n : ℕ) → length (to_bigendian n) ≡ 4
unfolding to_bigendian
length-to_bigendian n = refl

pub from_bigendian-to_bigendian : (n : ℕ) → n < 2 ^ 32 → from_bigendian (to_bigendian n) ≡ n
unfolding from_bigendian to_bigendian
from_bigendian-to_bigendian n h =
    let byte : (x : ℕ) → bit_and x 0xff ≡ x % 2 ^ 8 = bit_and_mask 8 in
    rw (byte (n / 2 ^ 24), byte (n / 2 ^ 16), byte (n / 2 ^ 8), byte n)
      (decode_four (n / 2 ^ 24 % 2 ^ 8) (n / 2 ^ 16 % 2 ^ 8) (n / 2 ^ 8 % 2 ^ 8) (n % 2 ^ 8)
          (omega arith) (omega arith) (omega arith)
        ∙ omega arith)

message_to_header-header_to_message :
    (h : RemoteHeader) → Fits h → message_to_header (header_to_message h) ≡ h
unfolding message_to_header header_to_message to_bigendian
message_to_header-header_to_message h fits =
    let s = from_bigendian-to_bigendian h.source fits.source in
    let d = from_bigendian-to_bigendian h.destination fits.destination in
    let e = from_bigendian-to_bigendian h.session fits.session in
    λ i. record { source = s i; destination = d i; session = e i }

length-header_to_message : (h : RemoteHeader) → length (header_to_message h) ≡ 12
unfolding header_to_message to_bigendian
length-header_to_message h = refl

drop-length : {A : Type 0} (xs ys : List A) → drop (length xs) (xs ++ ys) ≡ ys
drop-length [] ys = refl
drop-length (x ∷ xs) ys = drop-length xs ys

take-length : {A : Type 0} (xs ys : List A) → take (length xs) (xs ++ ys) ≡ xs
take-length [] ys = refl
take-length (x ∷ xs) ys = ap (λ l. x ∷ l) (take-length xs ys)

split_message-message :
    (buffer : List ℕ) (cookie : RemoteHeader)
    → Fits cookie
    → split_message (buffer ++ header_to_message cookie)
      ≡ some (record { header = cookie; buffer = buffer })
unfolding split_message
split_message-message buffer cookie fits =
    let whole = length-append buffer (header_to_message cookie) in
    let header = length-header_to_message cookie in
    let enough : ltb (length (buffer ++ header_to_message cookie)) 12 ≡ false = ground arith in
    let body : length (buffer ++ header_to_message cookie) - 12 ≡ length buffer = omega arith in
    rw
      (
        split_message,
        enough,
        body,
        drop-length buffer (header_to_message cookie),
        take-length buffer (header_to_message cookie),
        message_to_header-header_to_message cookie fits,
      )
      refl

read_length-to_bigendian : (n : ℕ) → n < 2 ^ 24 → read_length (to_bigendian n) ≡ some n
unfolding read_length to_bigendian
read_length-to_bigendian n small =
    let byte : (x : ℕ) → bit_and x 0xff ≡ x % 2 ^ 8 = bit_and_mask 8 in
    let top : (n / 2 ^ 24 % 2 ^ 8 == 0) ≡ true = ground arith in
    let high =
      bit_or_above 16 (n / 2 ^ 8 % 2 ^ 8 * 2 ^ 8) (n / 2 ^ 16 % 2 ^ 8 * 2 ^ 16) (omega arith)
        (omega arith) in
    let all =
      bit_or_above 8 (n % 2 ^ 8) (n / 2 ^ 16 % 2 ^ 8 * 2 ^ 16 + n / 2 ^ 8 % 2 ^ 8 * 2 ^ 8)
        (omega arith) (omega arith) in
    let sum : n / 2 ^ 16 % 2 ^ 8 * 2 ^ 16 + n / 2 ^ 8 % 2 ^ 8 * 2 ^ 8 + n % 2 ^ 8 ≡ n =
      omega arith in
    rw (byte (n / 2 ^ 24), byte (n / 2 ^ 16), byte (n / 2 ^ 8), byte n, top, high, all, sum) refl

-- A message that fits with its header into less than 2 ^ 24 bytes is written with its length in front:
-- the other node accepts the four bytes of the length and reads from them how many bytes follow, and
-- reads these as the same message with the same header.
pub split_message-send_remote :
    (buffer : List ℕ) (cookie : RemoteHeader)
    → Fits cookie
    → length buffer + 12 < 2 ^ 24
    → (bytes : List ℕ) × (send_remote buffer cookie ≡ some bytes)
      × (read_length (take 4 bytes) ≡ some (length (drop 4 bytes)))
      × (split_message (drop 4 bytes) ≡ some (record { header = cookie; buffer = buffer }))
unfolding send_remote to_bigendian
split_message-send_remote buffer cookie fits small =
    let n = length buffer + 12 in
    let body = buffer ++ header_to_message cookie in
    let fine : ltb (2 ^ 32 - 1) n ≡ false = ground arith in
    let follow : n ≡ length body =
      omega
        (arith, length-append buffer (header_to_message cookie), length-header_to_message cookie) in
    (
      to_bigendian n ++ body,
      rw (send_remote, fine) refl,
      read_length-to_bigendian n small ∙ ap some follow,
      split_message-message buffer cookie fits,
    )
