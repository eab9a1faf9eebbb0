-- ===== src/SocketServer/Calls.antt =====
-- The calls of other threads keep what holds of the socket and its pipe: a direct write is one where
-- nothing waits, and the other texts come last in the pipe.
use crynet.Prelude.{
  ℕ, ◌+◌, ◌≡◌, refl, sym, ap, ◌∙◌, List, [], ◌∷◌, ◌++◌, Bool, true, false, ◌||◌, ◌&&◌, inl, inr,
  Option, none, some, if◌then◌else◌, length, take, drop, flatten, arith, if_both, ◌==◌,
  take-append-drop, length-append,
}
use crynet.SocketServer.{is_invalid, is_connected, SendObject, Socket, DirectWrite, Answer}
use crynet.SocketServer.Threads.{
  Request, send, trigger, Text, can_direct_write, direct_bytes, send_request, server_send,
  server_send_lowpriority, Channel, asked_by,
}
use crynet.SocketServer.Buffers.{nomore_sending_data}
use crynet.SocketServer.Order.{
  direct_texts, Live, Inv, pending, pending-append, AllPlain, AllPlain-append, IsPlain,
}
use crynet.SocketServer.Append.{ask, Over-ask, text_of}
use crynet.SocketServer.Begin.{idle, no_text_left, begin}
use crynet.SocketServer.Cases.{not_both, both, not_second, is_live_valid}
use mathlib.Core.List.{append-nil}
use mathlib.Core.Path.{subst}

-- What holds of a socket and its pipe.
abbrev pub IsGood : Channel → Type 0
IsGood x = Inv x.socket x.pipe x.wire x.asked

module _ (x : Channel) (good : IsGood x) where
  abbrev s : Socket
  s = x.socket

  -- A request that comes last in the pipe.
  send_request-IsGood :
      (priority : Bool) (o : SendObject)
      → IsPlain (send priority o)
      → IsGood (asked_by x (text_of priority o) (send_request priority o s))
  unfolding send_request asked_by
  send_request-IsGood priority o plain_object =
      if_both (λ r. IsGood (asked_by x (text_of priority o) r)) (s.sending == 0xffff) (λ _. good)
        (λ _.
          let (sending, plain, counts, status) = good in
          let m = text_of priority o in
          let pipe' = x.pipe ++ send priority o ∷ [] in
          let more = pending-append x.pipe (send priority o ∷ []) in
          let count : s.sending + 1 ≡ length (pending pipe') =
            omega (arith, sending, ap length more, length-append (pending x.pipe) (m ∷ [])) in
          let plain' = AllPlain-append x.pipe (send priority o ∷ []) plain (plain_object, tt) in
          subst (λ w. Inv (record s { sending = s.sending + 1 }) pipe' w (x.asked ++ m ∷ []))
            (sym (append-nil x.wire))
            (
              count,
              plain',
              counts,
              elim status [
                | inl (live, v) ↦
                    inl (live, ask v m pipe' (λ e. ap (λ l. l ++ m ∷ []) (v.coming e) ∙ sym more))
                | inr (dead, over) ↦ inr (dead, Over-ask over m)
              ],
            ))

  -- A text for a socket that is closed or closing.
  too_late :
      (m : Text)
      → (is_invalid s.type || s.closing) ≡ true
      → IsGood (asked_by x m (some ([], s, [])))
  unfolding asked_by
  too_late m e =
      let (sending, plain, counts, status) = good in
      let same : IsGood (record x { asked = x.asked ++ m ∷ [] }) = (
        sending,
        plain,
        counts,
        elim status [
          | inl (live, v) ↦ inl (
            live,
            ask v m x.pipe
                (λ going. absurd (not_both (sym (rw (is_live_valid s.type live, going) refl) ∙ e))),
          )
          | inr (dead, over) ↦ inr (dead, Over-ask over m)
        ],
      ) in
      subst (λ w. Inv s (x.pipe ++ []) w (x.asked ++ m ∷ [])) (sym (append-nil x.wire))
        (subst (λ p. Inv s p x.wire (x.asked ++ m ∷ [])) (sym (append-nil x.pipe)) same)

  begin_idle :
      (m : Text) (dw' : Option DirectWrite) (bytes : List ℕ) (requests : List Request)
      → bytes ++ flatten (direct_texts dw') ≡ m.bytes
      → pending x.pipe ≡ []
      → pending (x.pipe ++ requests) ≡ []
      → s.closing ≡ false
      → s.high ≡ []
      → s.low ≡ []
      → s.dw ≡ none
      → Live s.dw s.high s.low s.closing x.pipe x.wire x.asked
      → Live dw' s.high s.low s.closing (x.pipe ++ requests) (x.wire ++ bytes) (x.asked ++ m ∷ [])
  begin_idle m dw' bytes requests whole before after going high low dw v =
      let pipe' = x.pipe ++ requests in
      let v1 = subst (λ h. Live s.dw h s.low s.closing x.pipe x.wire x.asked) high v in
      let v2 = subst (λ l. Live s.dw [] l s.closing x.pipe x.wire x.asked) low v1 in
      let v3 = subst (λ d. Live d [] [] s.closing x.pipe x.wire x.asked) dw v2 in
      subst (λ h. Live dw' h s.low s.closing pipe' (x.wire ++ bytes) (x.asked ++ m ∷ [])) (sym high)
        (subst (λ l. Live dw' [] l s.closing pipe' (x.wire ++ bytes) (x.asked ++ m ∷ [])) (sym low)
          (begin s.closing pipe' m dw' bytes whole before after going v3))

  -- A direct write: what it did not write is all that waits.
  written_at_once :
      (m : Text) (dw' : Option DirectWrite) (bytes : List ℕ) (requests : List Request) (written : ℕ)
      → bytes ++ flatten (direct_texts dw') ≡ m.bytes
      → pending requests ≡ []
      → AllPlain requests
      → s.closing ≡ false
      → can_direct_write s ≡ true
      → IsGood (asked_by x m (some (bytes, record s { written = written; dw = dw' }, requests)))
  unfolding asked_by can_direct_write
  written_at_once m dw' bytes requests written whole none_more plain_more going direct =
      let (more, is_open) = both (nomore_sending_data s) (is_connected s.type) direct in
      let (high, low, dw, zero_sending, live, not_dead) = idle s more is_open in
      let (sending, plain, counts, status) = good in
      let empty = no_text_left (pending x.pipe) (sym sending ∙ zero_sending) in
      let empty' : pending (x.pipe ++ requests) ≡ [] =
        pending-append x.pipe requests ∙ ap (λ l. l ++ pending requests) empty ∙ none_more in
      (
        sending ∙ ap length (empty ∙ sym empty'),
        AllPlain-append x.pipe requests plain plain_more,
        counts,
        elim status [
          | inl (_, v) ↦
              inl (live, begin_idle m dw' bytes requests whole empty empty' going high low dw v)
          | inr (dead, _) ↦ absurd (not_both (sym not_dead ∙ dead))
        ],
      )

  idle_dw : can_direct_write s ≡ true → s.dw ≡ none
  unfolding can_direct_write
  idle_dw direct =
      let (more, is_open) = both (nomore_sending_data s) (is_connected s.type) direct in
      (idle s more is_open).2

  pub server_send-IsGood :
      (locked : Bool) (answer : Answer) (o : SendObject)
      → IsGood (asked_by x (text_of false o) (server_send locked answer o s))
  unfolding server_send
  server_send-IsGood locked answer o =
      let m = text_of false o in
      let n = direct_bytes answer o.bytes in
      let P : Option (List ℕ × Socket × List Request) → Type 0 = λ r. IsGood (asked_by x m r) in
      if_both P (is_invalid s.type || s.closing) (λ e. too_late m e)
        (λ e.
          let going = not_second (is_invalid s.type) s.closing e in
          if_both P (can_direct_write s && (if locked then false else true))
            (λ direct.
              let free = (both (can_direct_write s) _ direct).0 in
              if_both P (n == length o.bytes)
                (λ _.
                  written_at_once m s.dw o.bytes [] (s.written + n)
                    (ap (λ d. o.bytes ++ flatten (direct_texts d)) (idle_dw free)
                      ∙ append-nil o.bytes)
                    refl tt going free)
                (λ _.
                  written_at_once m (some (record { object = o; offset = n })) (take n o.bytes)
                    (trigger ∷ []) (s.written + n)
                    (ap (λ l. take n o.bytes ++ l) (append-nil (drop n o.bytes))
                      ∙ take-append-drop n o.bytes)
                    refl (tt, tt) going free))
            (λ _. send_request-IsGood false o tt))

  pub server_send_lowpriority-IsGood :
      (o : SendObject)
      → o.text ≡ o.buffer
      → IsGood (asked_by x (text_of true o) (server_send_lowpriority o s))
  unfolding server_send_lowpriority
  server_send_lowpriority-IsGood o plain_object =
      if_both (λ r. IsGood (asked_by x (text_of true o) r)) (is_invalid s.type)
        (λ e. too_late (text_of true o) (rw (e) refl))
        (λ _. send_request-IsGood true o plain_object)
