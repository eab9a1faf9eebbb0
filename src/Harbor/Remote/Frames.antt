-- ===== src/Harbor/Remote/Frames.antt =====
-- What goes to another node, byte by byte: the length, the text, and the header behind it.
use Prim.Native.Nat.{bit_and, bit_or}
use crynet.Prelude.{
  ℕ, ◌+◌, ◌*◌, ◌/◌, ◌%◌, ◌^◌, ◌≡◌, refl, ap, ◌∙◌, List, [], ◌∷◌, ◌++◌, none, some, ltb,
  if◌then◌else◌, length, arith, Bool-cases, inl, inr, ◌-◌, sym,
}
use crynet.Prelude.Bits.{bit_and_mask, bit_or_above}
use crynet.Harbor.{RemoteHeader, HarborMsg, to_bigendian, header_to_message, send_remote}
use crynet.Harbor.Remote.{HarborAction, send_socket, written, write_all, header_of}

abbrev number : ℕ → List ℕ
number n = n / 2 ^ 24 % 2 ^ 8 ∷ n / 2 ^ 16 % 2 ^ 8 ∷ n / 2 ^ 8 % 2 ^ 8 ∷ n % 2 ^ 8 ∷ []

abbrev pub frame : HarborMsg → List ℕ
frame m =
    number (length m.buffer + 12)
    ++ m.buffer
    ++ (number m.header.source ++ number m.header.destination ++ number m.header.session)

-- The writes for the messages, but for those whose length does not fit into 4 bytes.
abbrev pub frames : ℕ → List HarborMsg → List HarborAction
frames fd [] = []
frames fd (m ∷ ms) =
    let rest = frames fd ms in
    if ltb (2 ^ 32 - 1) (length m.buffer + 12) then rest else send_socket fd (frame m) ∷ rest

to_bigendian-number : (n : ℕ) → to_bigendian n ≡ number n
unfolding to_bigendian
to_bigendian-number n =
    let byte : (x : ℕ) → bit_and x 0xff ≡ x % 2 ^ 8 = bit_and_mask 8 in
    rw (byte (n / 2 ^ 24), byte (n / 2 ^ 16), byte (n / 2 ^ 8), byte n) refl

send_remote-frame :
    (m : HarborMsg)
    → send_remote m.buffer m.header
      ≡ (if ltb (2 ^ 32 - 1) (length m.buffer + 12) then none else some (frame m))
unfolding send_remote header_to_message
send_remote-frame m =
    ap
      (λ (n : List ℕ).
        if ltb (2 ^ 32 - 1) (length m.buffer + 12)
        then none
        else some (
            n
            ++ m.buffer
            ++ (to_bigendian m.header.source
                ++ to_bigendian m.header.destination
                ++ to_bigendian m.header.session)))
      (to_bigendian-number (length m.buffer + 12))
    ∙ ap
        (λ (n : List ℕ).
          if ltb (2 ^ 32 - 1) (length m.buffer + 12)
          then none
          else some (number (length m.buffer + 12) ++ m.buffer ++ n))
        (rw
          (
            to_bigendian-number m.header.source,
            to_bigendian-number m.header.destination,
            to_bigendian-number m.header.session,
          )
          refl)

written-frames : (fd : ℕ) (m : HarborMsg) → written fd m.buffer m.header ≡ frames fd (m ∷ [])
unfolding written
written-frames fd m = elim (Bool-cases (ltb (2 ^ 32 - 1) (length m.buffer + 12))) [
  | inl e ↦ rw (written, send_remote-frame m, e) refl
  | inr e ↦ rw (written, send_remote-frame m, e) refl
]

frames-cons :
    (fd : ℕ) (m : HarborMsg) (ms : List HarborMsg)
    → frames fd (m ∷ ms) ≡ frames fd (m ∷ []) ++ frames fd ms
frames-cons fd m ms = elim (Bool-cases (ltb (2 ^ 32 - 1) (length m.buffer + 12))) [
  | inl e ↦ rw (e) refl
  | inr e ↦ rw (e) refl
]

pub write_all-frames : (fd : ℕ) (ms : List HarborMsg) → write_all fd ms ≡ frames fd ms
unfolding write_all
write_all-frames fd [] = refl
write_all-frames fd (m ∷ ms) =
    ap (λ l. l ++ write_all fd ms) (written-frames fd m)
    ∙ ap (λ l. frames fd (m ∷ []) ++ l) (write_all-frames fd ms)
    ∙ sym (frames-cons fd m ms)

-- A message to a handle of another node: the type stands above the lower part of the handle.
abbrev pub header_for : ℕ → ℕ → ℕ → ℕ → RemoteHeader
header_for source destination type session = record {
  source = source;
  destination = type * 2 ^ 24 + destination % 2 ^ 24;
  session = session % 2 ^ 32;
}

pub header_of-header_for :
    (source destination type session : ℕ)
    → header_of source destination type session ≡ header_for source destination type session
unfolding header_of
header_of-header_for source destination type session =
    ap (λ (d : ℕ). record { source = source; destination = d; session = session % 2 ^ 32 })
      (ap (λ (d : ℕ). bit_or (type * 2 ^ 24) d) (bit_and_mask 24 destination)
        ∙ bit_or_above 24 (destination % 2 ^ 24) (type * 2 ^ 24) (omega arith) (omega arith))
