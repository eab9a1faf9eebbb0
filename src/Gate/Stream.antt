-- ===== src/Gate/Stream.antt =====
-- What `dispatch_message` makes of the bytes of a connection: the messages that they are the frames
-- of, wherever the bytes are cut into chunks.
pub mod Round
pub mod Receive
pub mod Faults
pub mod Total
use Prim.Native.Nat.{bit_or}
use crynet.Prelude.{
  ℕ, zero, suc, ◌+◌, ◌-◌, ◌≤◌, ◌<◌, ◌≡◌, refl, sym, ap, ◌∙◌, List, [], ◌∷◌, ◌++◌, Option, some,
  none, true, false, arith, ltb, leb, ◌==◌, if◌then◌else◌, take, drop, length, Bool-cases, inl, inr,
  ◌⊎◌, length-append, take-append_left, drop-append_left, take-append_right, drop-append_right,
  ◌>>=◌, ◌^◌, length-drop,
}
use crynet.Prelude.Int.{pos, negsuc}
use crynet.Gate.{
  Gate, Connection, Action, send, forward, deliver, dispatch_loop, dispatch_message, after, fd_of,
  ptype_text, ptype_tag_dontcopy,
}
use crynet.Gate.Buffer.{Databuffer, MessagePool, readheader, read, decode, reset}
use crynet.Gate.Buffer.Step.{asked, readheader_short, readheader_known, readheader_parse}
use crynet.Gate.Buffer.Read.{IsValid, contents, Reads, read-Reads}
use crynet.Gate.Buffer.Push.{push-Pushes, Pushes}
use crynet.Gate.Buffer.Header.{be_bytes, limit, IsHeaderSize, decode-be_bytes, length-be_bytes}
use mathlib.Core.List.{append-nil, Subset, append_assoc}
use mathlib.Core.Path.{subst}

-- The bytes that a sender writes for messages.
abbrev pub frame : ℕ → List ℕ → List ℕ
frame h m = be_bytes h (length m) ++ m

abbrev pub stream : ℕ → List (List ℕ) → List ℕ
stream h [] = []
stream h (m ∷ ms) = frame h m ++ stream h ms

abbrev pub AllFit : ℕ → List (List ℕ) → Type 0
AllFit h [] = Unit {0}
AllFit h (m ∷ ms) = (length m < limit h) × AllFit h ms

-- An empty message is sent to nobody.
abbrev pub sent : (List ℕ → Action) → List (List ℕ) → List Action
sent act [] = []
sent act ([] ∷ ms) = sent act ms
sent act ((b ∷ m) ∷ ms) = act (b ∷ m) ∷ sent act ms

-- What a connection still has to make of its bytes, and of those that will come: the messages
-- `ms`, of which the header of the first may be read already.
pub data Waits (h : ℕ) (db : Databuffer) (future : List ℕ) : List (List ℕ) → Type 0 where
  between :
      (ms : List (List ℕ))
      → db.header ≡ pos 0
      → contents db ++ future ≡ stream h ms
      → Waits h db future ms
  inside :
      (m : List ℕ) (ms : List (List ℕ)) (n : ℕ)
      → length m ≡ suc n
      → db.header ≡ pos (suc n)
      → contents db ++ future ≡ m ++ stream h ms
      → Waits h db future (m ∷ ms)

-- A prefix that is long enough is the prefix of the left list.
pub prefix :
    (xs ys a b : List ℕ)
    → xs ++ ys ≡ a ++ b
    → length a ≤ length xs
    → (take (length a) xs ≡ a) × (drop (length a) xs ++ ys ≡ b)
prefix xs ys a b e h =
    let none_left : length a - length a ≡ 0 = omega arith in
    (
      sym (take-append_left (length a) xs ys h)
          ∙ ap (take (length a)) e
          ∙ take-append_right (length a) a b (omega arith)
          ∙ ap (λ (k : ℕ). a ++ take k b) none_left
          ∙ append-nil a,
      sym (drop-append_left (length a) xs ys h)
          ∙ ap (drop (length a)) e
          ∙ drop-append_right (length a) a b (omega arith)
          ∙ ap (λ (k : ℕ). drop k b) none_left,
    )

pub after_nil : (r : Option (List Action × Connection × MessagePool)) → after [] r ≡ r
after_nil none = refl
after_nil (some (acts, c', mp)) = refl
