-- ===== src/SocketServer/Begin.antt =====
-- A direct write finds nothing that waits, and begins a text.
use crynet.Prelude.{
  ℕ, ◌≡◌, refl, sym, ap, ◌∙◌, List, [], ◌∷◌, ◌++◌, Bool, true, false, Option, none, some, length,
  flatten, arith, ◌==◌,
}
use crynet.SocketServer.{
  is_connected, is_halfclose_write, Socket, DirectWrite, is_nil, send_buffer_empty,
}
use crynet.SocketServer.Threads.{Request, Text}
use crynet.SocketServer.Buffers.{nomore_sending_data, no_direct}
use crynet.SocketServer.Order.{
  texts, texts-nil, texts-append, flatten-append, keep, keep-append, direct_texts, Live, is_live,
  is_dead, pending,
}
use crynet.SocketServer.Cases.{not_both, both, nil_list, append_nils, first_of, is_connected_live}
use mathlib.Core.List.{append_assoc, append-nil}

direct_none : (dw : Option DirectWrite) → no_direct dw ≡ true → dw ≡ none
unfolding no_direct
direct_none none e = refl
direct_none (some d) e = absurd (not_both e)

-- A direct write finds nothing that waits.
pub idle :
    (s : Socket)
    → nomore_sending_data s ≡ true
    → is_connected s.type ≡ true
    → (s.high ≡ [])
      × (s.low ≡ [])
      × (s.dw ≡ none)
      × (s.sending ≡ 0)
      × (is_live s.type ≡ true)
      × (is_dead s.type ≡ false)
unfolding nomore_sending_data send_buffer_empty
idle s more is_open =
    let (live, not_shut, not_dead) = is_connected_live s.type is_open in
    let (empty, rest) =
      both (send_buffer_empty s) _ (first_of _ (is_halfclose_write s.type) more not_shut) in
    let (high, low) = both (is_nil s.high) (is_nil s.low) empty in
    let (direct, count) = both (no_direct s.dw) (s.sending == 0) rest in
    (
      nil_list s.high high,
      nil_list s.low low,
      direct_none s.dw direct,
      ground (arith, count),
      live,
      not_dead,
    )

pub no_text_left : (ms : List Text) → length ms ≡ 0 → ms ≡ []
no_text_left [] e = refl
no_text_left (m ∷ ms) e = absurd (omega (arith, e))

-- A message is begun when nothing waits; `dw'` holds what is not written of it.
pub begin :
    {pipe : List Request} {wire : List ℕ} {asked : List Text} (closing : Bool)
    (pipe' : List Request) (m : Text) (dw' : Option DirectWrite) (bytes : List ℕ)
    → bytes ++ flatten (direct_texts dw') ≡ m.bytes
    → pending pipe ≡ []
    → pending pipe' ≡ []
    → closing ≡ false
    → Live none [] [] closing pipe wire asked
    → Live dw' [] [] closing pipe' (wire ++ bytes) (asked ++ m ∷ [])
begin {wire} {asked} closing pipe' m dw' bytes whole none_before none_after going v =
    let (no_front, no_texts) = append_nils v.front (texts v.first) v.high_texts in
    let no_first = texts-nil v.first no_texts in
    let no_second = texts-nil v.second (sym v.low_texts) in
    let no_late = v.coming going ∙ none_before in
    let before : wire ≡ flatten (texts v.begun) =
      sym (append-nil wire) ∙ ap (λ l. wire ++ flatten l) (sym no_front) ∙ v.written in
    record {
      begun = v.begun ++ m ∷ [];
      first = [];
      second = [];
      late = [];
      front = direct_texts dw';
      written =
          append_assoc wire bytes (flatten (direct_texts dw'))
          ∙ ap (λ l. wire ++ l) whole
          ∙ ap (λ l. l ++ m.bytes) before
          ∙ ap (λ l. flatten (texts v.begun) ++ l) (sym (append-nil m.bytes))
          ∙ sym (flatten-append (texts v.begun) (m.bytes ∷ []))
          ∙ ap flatten (sym (texts-append v.begun (m ∷ [])));
      high_texts = refl;
      low_texts = refl;
      low_only = refl;
      coming = λ _. sym none_after;
      order = λ p.
          keep-append p asked (m ∷ [])
          ∙ ap (λ l. l ++ keep p (m ∷ []))
              (v.order p
                ∙ ap (keep p) (
                    ap (λ l. v.begun ++ (l ++ (v.second ++ v.late))) no_first
                    ∙ ap (λ l. v.begun ++ (l ++ v.late)) no_second
                    ∙ ap (λ l. v.begun ++ l) no_late
                    ∙ append-nil v.begun))
          ∙ sym (keep-append p v.begun (m ∷ []))
          ∙ ap (keep p) (sym (append-nil (v.begun ++ m ∷ [])));
    }
