-- ===== src/SocketServer/Append.antt =====
-- A text that is appended to a list of the socket, taken from the pipe or put there.
use crynet.Prelude.{
  ℕ, ◌+◌, ◌≡◌, refl, sym, ap, ◌∙◌, List, [], ◌∷◌, ◌++◌, Bool, true, false, Option, arith,
}
use crynet.SocketServer.{SendObject, WriteBuffer, DirectWrite}
use crynet.SocketServer.Buffers.{buffer_of}
use crynet.SocketServer.Loop.{texts_of, total, AllFresh}
use crynet.SocketServer.Threads.{Request, send, Text}
use crynet.SocketServer.Order.{
  texts, keep, keep-append, texts-append, direct_texts, Live, Over, pending,
}
use mathlib.Core.List.{append_assoc}

texts_of-append : (xs ys : List WriteBuffer) → texts_of (xs ++ ys) ≡ texts_of xs ++ texts_of ys
texts_of-append [] ys = refl
texts_of-append (x ∷ xs) ys = ap (λ l. x.bytes ∷ l) (texts_of-append xs ys)

pub total-append : (xs ys : List WriteBuffer) → total (xs ++ ys) ≡ total xs + total ys
total-append [] ys = omega arith
total-append (x ∷ xs) ys = omega (arith, total-append xs ys)

pub AllFresh-append : (xs ys : List WriteBuffer) → AllFresh xs → AllFresh ys → AllFresh (xs ++ ys)
AllFresh-append [] ys hx hy = hy
AllFresh-append (x ∷ xs) ys (h, hx) hy = (h, AllFresh-append xs ys hx hy)

-- Messages of low priority may come before or after one of high priority.
pub past_low :
    (low later : List Text) (bytes : List ℕ)
    → keep false low ≡ []
    → (p : Bool)
    → keep p (low ++ record { low = false; bytes = bytes } ∷ later)
      ≡ keep p (record { low = false; bytes = bytes } ∷ (low ++ later))
past_low low later bytes e false =
    keep-append false low (record { low = false; bytes = bytes } ∷ later)
    ∙ ap (λ l. l ++ (bytes ∷ keep false later)) e
    ∙ ap (λ l. bytes ∷ (l ++ keep false later)) (sym e)
    ∙ ap (λ l. bytes ∷ l) (sym (keep-append false low later))
past_low low later bytes e true =
    keep-append true low (record { low = false; bytes = bytes } ∷ later)
    ∙ sym (keep-append true low later)

move_front :
    (p : Bool) (b f s l : List Text) (m : Text)
    → keep p (s ++ m ∷ l) ≡ keep p (m ∷ (s ++ l))
    → keep p (b ++ (f ++ (s ++ m ∷ l))) ≡ keep p (b ++ ((f ++ m ∷ []) ++ (s ++ l)))
move_front p b f s l m e =
    keep-append p b (f ++ (s ++ m ∷ l))
    ∙ ap (λ k. keep p b ++ k)
        (keep-append p f (s ++ m ∷ l)
          ∙ ap (λ k. keep p f ++ k) e
          ∙ sym (keep-append p f (m ∷ (s ++ l)))
          ∙ ap (keep p) (sym (append_assoc f (m ∷ []) (s ++ l))))
    ∙ sym (keep-append p b ((f ++ m ∷ []) ++ (s ++ l)))

module _ {dw : Option DirectWrite} {high low : List WriteBuffer} {closing : Bool}
    {pipe : List Request} {wire : List ℕ} {asked : List Text}
    (v : Live dw high low closing pipe wire asked) where
  -- The same texts are to come from another pipe, or too late.
  pub repipe :
      (closing' : Bool) (pipe' : List Request)
      → (closing' ≡ false → v.late ≡ pending pipe')
      → Live dw high low closing' pipe' wire asked
  repipe closing' pipe' coming = record {
    begun = v.begun;
    first = v.first;
    second = v.second;
    late = v.late;
    front = v.front;
    written = v.written;
    high_texts = v.high_texts;
    low_texts = v.low_texts;
    low_only = v.low_only;
    coming = coming;
    order = v.order;
  }

  -- One more text is to come.
  pub ask :
      (m : Text) (pipe' : List Request)
      → (closing ≡ false → v.late ++ m ∷ [] ≡ pending pipe')
      → Live dw high low closing pipe' wire (asked ++ m ∷ [])
  ask m pipe' coming = record {
    begun = v.begun;
    first = v.first;
    second = v.second;
    late = v.late ++ m ∷ [];
    front = v.front;
    written = v.written;
    high_texts = v.high_texts;
    low_texts = v.low_texts;
    low_only = v.low_only;
    coming = coming;
    order = λ p.
        keep-append p asked (m ∷ [])
        ∙ ap (λ l. l ++ keep p (m ∷ [])) (v.order p)
        ∙ sym (keep-append p (v.begun ++ (v.first ++ (v.second ++ v.late))) (m ∷ []))
        ∙ ap (keep p) (
            append_assoc v.begun (v.first ++ (v.second ++ v.late)) (m ∷ [])
            ∙ ap (λ l. v.begun ++ l)
                (append_assoc v.first (v.second ++ v.late) (m ∷ [])
                  ∙ ap (λ l. v.first ++ l) (append_assoc v.second v.late (m ∷ []))));
  }

pub Over-ask :
    {wire : List ℕ} {asked : List Text} (v : Over wire asked) (m : Text)
    → Over wire (asked ++ m ∷ [])
Over-ask {asked} v m = record {
  begun = v.begun;
  late = v.late ++ m ∷ [];
  front = v.front;
  written = v.written;
  order = λ p.
      keep-append p asked (m ∷ [])
      ∙ ap (λ l. l ++ keep p (m ∷ [])) (v.order p)
      ∙ sym (keep-append p (v.begun ++ v.late) (m ∷ []))
      ∙ ap (keep p) (append_assoc v.begun v.late (m ∷ []));
}

abbrev pub text_of : Bool → SendObject → Text
text_of low o = record { low = low; bytes = o.bytes }

-- The first request of the pipe goes to one of the lists.
module _ {dw : Option DirectWrite} {high low : List WriteBuffer} {closing : Bool} {priority : Bool}
    (o : SendObject) {pipe : List Request} {wire : List ℕ} {asked : List Text}
    (v : Live dw high low closing (send priority o ∷ pipe) wire asked)
    (going : closing ≡ false) where
  pub append_high :
      ((p : Bool)
        → keep p (v.second ++ text_of priority o ∷ pending pipe)
          ≡ keep p (text_of priority o ∷ (v.second ++ pending pipe)))
      → Live dw (high ++ buffer_of o ∷ []) low closing pipe wire asked
  unfolding buffer_of
  append_high past = record {
    begun = v.begun;
    first = v.first ++ text_of priority o ∷ [];
    second = v.second;
    late = pending pipe;
    front = v.front;
    written = v.written;
    high_texts =
        ap (λ l. direct_texts dw ++ l) (texts_of-append high (buffer_of o ∷ []))
        ∙ sym (append_assoc (direct_texts dw) (texts_of high) (o.bytes ∷ []))
        ∙ ap (λ l. l ++ o.bytes ∷ []) v.high_texts
        ∙ append_assoc v.front (texts v.first) (o.bytes ∷ [])
        ∙ ap (λ l. v.front ++ l) (sym (texts-append v.first (text_of priority o ∷ [])));
    low_texts = v.low_texts;
    low_only = v.low_only;
    coming = λ _. refl;
    order = λ p.
        v.order p
        ∙ ap (λ l. keep p (v.begun ++ (v.first ++ (v.second ++ l)))) (v.coming going)
        ∙ move_front p v.begun v.first v.second (pending pipe) (text_of priority o) (past p);
  }

  pub append_low : priority ≡ true → Live dw high (low ++ buffer_of o ∷ []) closing pipe wire asked
  unfolding buffer_of
  append_low is_low = record {
    begun = v.begun;
    first = v.first;
    second = v.second ++ text_of priority o ∷ [];
    late = pending pipe;
    front = v.front;
    written = v.written;
    high_texts = v.high_texts;
    low_texts =
        texts_of-append low (buffer_of o ∷ [])
        ∙ ap (λ l. l ++ o.bytes ∷ []) v.low_texts
        ∙ sym (texts-append v.second (text_of priority o ∷ []));
    low_only =
        keep-append false v.second (text_of priority o ∷ [])
        ∙ ap (λ l. l ++ keep false (text_of priority o ∷ [])) v.low_only
        ∙ rw (is_low) refl;
    coming = λ _. refl;
    order = λ p.
        v.order p
        ∙ ap (λ l. keep p (v.begun ++ (v.first ++ (v.second ++ l)))) (v.coming going)
        ∙ ap (λ l. keep p (v.begun ++ (v.first ++ l)))
            (sym (append_assoc v.second (text_of priority o ∷ []) (pending pipe)));
  }
