-- ===== src/SocketServer/Order.antt =====
-- What holds of a socket between the steps of its threads: the bytes that were written are those of
-- texts in an order that keeps the order of the calls for each priority.
use crynet.Prelude.{
  ℕ, ◌+◌, ◌≡◌, refl, sym, ap, ◌∙◌, List, [], ◌∷◌, ◌++◌, Bool, true, false, ◌||◌, ◌⊎◌, inl, inr,
  Option, none, some, if◌then◌else◌, length, drop, flatten, Bool-cases,
}
use crynet.SocketServer.{
  SocketType, is_invalid, is_halfclose_read, is_halfclose_write, WriteBuffer, DirectWrite, Socket,
  force_close, close_write, enable_write,
}
use crynet.SocketServer.Loop.{head_of, texts_of, total, AllFresh}
use crynet.SocketServer.Threads.{Request, send, trigger, close, resume, pause, Text}
use mathlib.Core.List.{append_assoc, cons-ne-nil}

-- The texts of the messages, and those of one priority.
abbrev pub texts : List Text → List (List ℕ)
texts [] = []
texts (m ∷ ms) = m.bytes ∷ texts ms

abbrev pub same_priority : Bool → Bool → Bool
same_priority true low = low
same_priority false low = if low then false else true

abbrev pub keep : Bool → List Text → List (List ℕ)
keep p [] = []
keep p (m ∷ ms) = let rest = keep p ms in if same_priority p m.low then m.bytes ∷ rest else rest

pub keep-append : (p : Bool) (xs ys : List Text) → keep p (xs ++ ys) ≡ keep p xs ++ keep p ys
keep-append p [] ys = refl
keep-append p (m ∷ xs) ys = elim (Bool-cases (same_priority p m.low)) [
  | inl e ↦ rw (e) (ap (λ l. m.bytes ∷ l) (keep-append p xs ys))
  | inr e ↦ rw (e) (keep-append p xs ys)
]

pub texts-append : (xs ys : List Text) → texts (xs ++ ys) ≡ texts xs ++ texts ys
texts-append [] ys = refl
texts-append (m ∷ xs) ys = ap (λ l. m.bytes ∷ l) (texts-append xs ys)

pub flatten-append : (xs ys : List (List ℕ)) → flatten (xs ++ ys) ≡ flatten xs ++ flatten ys
flatten-append [] ys = refl
flatten-append (x ∷ xs) ys =
    ap (λ l. x ++ l) (flatten-append xs ys) ∙ sym (append_assoc x (flatten xs) (flatten ys))

-- Messages are split where their texts are.
pub texts-split :
    (ms : List Text) (a b : List (List ℕ))
    → texts ms ≡ a ++ b
    → (xs : List Text) × (ys : List Text) × (ms ≡ xs ++ ys) × (texts xs ≡ a) × (texts ys ≡ b)
texts-split ms [] b e = ([], ms, refl, refl, e)
texts-split [] (t ∷ a) b e = absurd (cons-ne-nil _ _ (sym e))
texts-split (m ∷ ms) (t ∷ a) b e =
    let (xs, ys, same, first, second) = texts-split ms a b (ap (drop 1) e) in
    (
      m ∷ xs,
      ys,
      ap (λ l. m ∷ l) same,
      ap (λ l. m.bytes ∷ l) first ∙ ap (λ k. k ∷ a) (ap head_of e),
      second,
    )

pub texts-nil : (ms : List Text) → texts ms ≡ [] → ms ≡ []
texts-nil [] e = refl
texts-nil (m ∷ ms) e = absurd (cons-ne-nil _ _ e)

-- The messages whose requests stand in the pipe.
abbrev pub pending : List Request → List Text
pending [] = []
pending (send low o ∷ rs) = record { low = low; bytes = o.bytes } ∷ pending rs
pending (trigger ∷ rs) = pending rs
pending (close shutdown ∷ rs) = pending rs
pending (resume ∷ rs) = pending rs
pending (pause ∷ rs) = pending rs

pub pending-append : (xs ys : List Request) → pending (xs ++ ys) ≡ pending xs ++ pending ys
pending-append [] ys = refl
pending-append (send low o ∷ xs) ys =
    ap (λ l. record { low = low; bytes = o.bytes } ∷ l) (pending-append xs ys)
pending-append (trigger ∷ xs) ys = pending-append xs ys
pending-append (close shutdown ∷ xs) ys = pending-append xs ys
pending-append (resume ∷ xs) ys = pending-append xs ys
pending-append (pause ∷ xs) ys = pending-append xs ys

-- A request of low priority is not for a user object: its text stands where its buffer is.
abbrev pub IsPlain : Request → Type 0
IsPlain (send true o) = o.text ≡ o.buffer
IsPlain (send false o) = Unit
IsPlain trigger = Unit
IsPlain (close shutdown) = Unit
IsPlain resume = Unit
IsPlain pause = Unit

abbrev pub AllPlain : List Request → Type 0
AllPlain [] = Unit {0}
AllPlain (r ∷ rs) = IsPlain r × AllPlain rs

pub AllPlain-append : (xs ys : List Request) → AllPlain xs → AllPlain ys → AllPlain (xs ++ ys)
AllPlain-append [] ys hx hy = hy
AllPlain-append (r ∷ xs) ys (h, hx) hy = (h, AllPlain-append xs ys hx hy)

-- What is left of a direct write.
abbrev pub direct_texts : Option DirectWrite → List (List ℕ)
direct_texts none = []
direct_texts (some d) = drop d.offset d.object.bytes ∷ []

-- A socket that takes more texts: `begun` are written, but for what is left of `front`; `first` and
-- `second` stand in the lists, and `late` in the pipe, or come too late when the socket is closing.
pub record Live (dw : Option DirectWrite) (high low : List WriteBuffer) (closing : Bool)
    (pipe : List Request) (wire : List ℕ) (asked : List Text) : Type 0 where
  pub begun : List Text
  pub first : List Text
  pub second : List Text
  pub late : List Text
  pub front : List (List ℕ)
  pub written : wire ++ flatten front ≡ flatten (texts begun)
  pub high_texts : direct_texts dw ++ texts_of high ≡ front ++ texts first
  pub low_texts : texts_of low ≡ texts second
  pub low_only : keep false second ≡ []
  pub coming : closing ≡ false → late ≡ pending pipe
  pub order : (p : Bool) → keep p asked ≡ keep p (begun ++ (first ++ (second ++ late)))

-- A socket that is closed, or cannot be written to: nothing more will be written.
pub record Over (wire : List ℕ) (asked : List Text) : Type 0 where
  pub begun : List Text
  pub late : List Text
  pub front : List (List ℕ)
  pub written : wire ++ flatten front ≡ flatten (texts begun)
  pub order : (p : Bool) → keep p asked ≡ keep p (begun ++ late)

pub Live-Over :
    {dw : Option DirectWrite} {high low : List WriteBuffer} {closing : Bool} {pipe : List Request}
    {wire : List ℕ} {asked : List Text}
    → Live dw high low closing pipe wire asked
    → Over wire asked
Live-Over v = record {
  begun = v.begun;
  late = v.first ++ (v.second ++ v.late);
  front = v.front;
  written = v.written;
  order = v.order;
}

abbrev pub is_live : SocketType → Bool
is_live SocketType.connecting = true
is_live SocketType.connected = true
is_live SocketType.halfclose_read = true
is_live _ = false

abbrev pub is_dead : SocketType → Bool
is_dead SocketType.invalid = true
is_dead SocketType.halfclose_write = true
is_dead _ = false

-- The count of the buffers, while there is a socket.
abbrev pub Counts : SocketType → ℕ → List WriteBuffer → List WriteBuffer → Type 0
Counts type size high low = is_invalid type ≡ false → (size ≡ total high + total low) × AllFresh low

abbrev pub Stands :
    SocketType
    → Option DirectWrite
    → List WriteBuffer
    → List WriteBuffer
    → Bool
    → List Request
    → List ℕ
    → List Text
    → Type 0
Stands type dw high low closing pipe wire asked =
    ((is_live type ≡ true) × Live dw high low closing pipe wire asked)
    ⊎ ((is_dead type ≡ true) × Over wire asked)

abbrev pub Inv : Socket → List Request → List ℕ → List Text → Type 0
Inv s pipe wire asked =
    (s.sending ≡ length (pending pipe))
    × AllPlain pipe
    × Counts s.type s.wb_size s.high s.low
    × Stands s.type s.dw s.high s.low s.closing pipe wire asked

closed_Counts : (size : ℕ) → Counts SocketType.invalid size [] []
unfolding is_invalid
closed_Counts size e = cc

module _ {pipe : List Request} {wire : List ℕ} {asked : List Text} where
  pub Stands-Over :
      (s : Socket) → Stands s.type s.dw s.high s.low s.closing pipe wire asked → Over wire asked
  Stands-Over s (inl (_, v)) = Live-Over v
  Stands-Over s (inr (_, v)) = v

  pub force_close-Inv : (s : Socket) → Inv s pipe wire asked → Inv (force_close s) pipe wire asked
  unfolding force_close
  force_close-Inv s (count, plain, counts, status) = elim (Bool-cases (is_invalid s.type)) [
    | inl e ↦ rw (force_close, e) (count, plain, counts, status)
    | inr e ↦
        rw (force_close, e)
          (count, plain, closed_Counts s.wb_size, inr (refl, Stands-Over s status))
  ]

  pub close_write-Inv :
      (s : Socket)
      → is_invalid s.type ≡ false
      → Inv s pipe wire asked
      → Inv (close_write s).1 pipe wire asked
  unfolding close_write enable_write
  close_write-Inv s valid (count, plain, counts, status) =
      elim (Bool-cases (s.closing || is_halfclose_read s.type)) [
        | inl e ↦ rw (close_write, e) (force_close-Inv s (count, plain, counts, status))
        | inr e ↦ elim (Bool-cases (is_halfclose_write s.type)) [
          | inl f ↦ rw (close_write, e, f) (count, plain, counts, status)
          | inr f ↦
              rw (close_write, e, f)
                (count, plain, λ _. counts valid, inr (refl, Stands-Over s status))
        ]
      ]
