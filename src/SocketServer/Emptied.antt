-- ===== src/SocketServer/Emptied.antt =====
-- A connection that takes all its bytes leaves nothing in the lists of the socket.
use crynet.Prelude.{
  ℕ, ◌≡◌, refl, sym, ap, ◌∙◌, List, [], ◌∷◌, ◌++◌, Bool, true, false, ◌&&◌, Option, none, some,
  length, arith, if_both, ◌==◌, ltb,
}
use crynet.SocketServer.{
  SocketType, DirectWrite, is_connected, is_halfclose_write, WriteBuffer, Socket, Outcome, ignore,
  Answer, wrote, min_of, send_loop, list_uncomplete, is_nil, count_written, enable_write,
  send_buffer_empty,
}
use crynet.SocketServer.Buffers.{sent_all, send_low, send_lists, take_direct, send_buffer}
use crynet.SocketServer.Threads.{Request, Text, poll_write, answers_of}
use crynet.SocketServer.Cases.{not_both}
use crynet.SocketServer.Writes.{Keeps}
use mathlib.Core.List.{append-nil}
use mathlib.Core.Path.{subst}

-- Answers that take each buffer whole.
abbrev whole : List WriteBuffer → List Answer
whole [] = []
whole (b ∷ bs) = wrote (length b.bytes) ∷ whole bs

-- Answers to a writable event that take all that waits.
unfoldable pub whole_answers : Socket → List Answer
unfolding take_direct
whole_answers s = let t = take_direct s in whole t.high ++ whole t.low

send_loop-whole :
    (bs : List WriteBuffer) (rest : List Answer)
    → ((send_loop (whole bs ++ rest) bs).broken ≡ false)
      × ((send_loop (whole bs ++ rest) bs).list ≡ [])
      × ((send_loop (whole bs ++ rest) bs).rest ≡ rest)
unfolding send_loop
send_loop-whole [] rest = (refl, refl, refl)
send_loop-whole (b ∷ bs) rest =
    let n = length b.bytes in
    let all : (min_of n n == n) ≡ true = ground arith in
    rw (send_loop, all) (send_loop-whole bs rest)

-- A write that leaves nothing.
module _ (s : Socket) (going : s.closing ≡ false) where
  abbrev pub Emptied : Option (Outcome × List ℕ × Socket) → Type 0
  Emptied none = ⊥
  Emptied (some (_, _, t)) =
      (t.high ≡ [])
      × (t.low ≡ [])
      × (t.dw ≡ none)
      × (t.sending ≡ s.sending)
      × (t.type ≡ s.type)
      × (t.closing ≡ false)

  module _ (pipe : List Request) (wire : List ℕ) (asked : List Text) where
    abbrev Leaves : Option (Outcome × List ℕ × Socket) → Type 0
    Leaves r = Keeps pipe wire asked r → Emptied r

    sent_all-Leaves :
        (poll_fails : Bool) (bytes : List ℕ) (t : Socket)
        → Emptied (some (ignore, bytes, t))
        → Leaves (sent_all poll_fails bytes t)
    unfolding sent_all enable_write
    sent_all-Leaves poll_fails bytes t h =
        if_both Leaves (send_buffer_empty t && (t.wb_size == 0))
          (λ _.
            if_both Leaves t.closing (λ e. absurd (not_both (sym h.5 ∙ e)))
              (λ _.
                if_both Leaves (poll_fails && t.writing) (λ _ _. h)
                  (λ _. if_both Leaves (ltb 0 t.warn_size) (λ _ _. h) (λ _ _. h))))
          (λ _ bad. bad)

    send_low-Leaves :
        (poll_fails : Bool) (before : List ℕ) (t : Socket)
        → Emptied (some (ignore, before, record t { low = [] }))
        → Leaves (send_low poll_fails (whole t.low) before t)
    unfolding send_low count_written list_uncomplete is_nil
    send_low-Leaves poll_fails before t h =
        let answers = whole t.low in
        let r = send_loop answers t.low in
        let (fine, all, _) =
          subst
            (λ (a : List Answer).
              ((send_loop a t.low).broken ≡ false)
              × ((send_loop a t.low).list ≡ [])
              × ((send_loop a t.low).rest ≡ []))
            (append-nil answers) (send_loop-whole t.low []) in
        let t' = count_written (length r.bytes) (record t { low = r.list }) in
        if_both Leaves r.broken (λ e. absurd (not_both (sym fine ∙ e)))
          (λ _.
            if_both Leaves (list_uncomplete r.list)
              (λ e. absurd (not_both (sym (ap list_uncomplete all) ∙ e)))
              (λ _.
                if_both Leaves (is_nil r.list)
                  (λ _.
                    sent_all-Leaves poll_fails (before ++ r.bytes) t'
                      (h.0, all, h.2, h.3, h.4, h.5))
                  (λ e. absurd (not_both (sym e ∙ ap is_nil all)))))

    send_lists-Leaves :
        (poll_fails : Bool) (t : Socket)
        → t.dw ≡ none
        → t.sending ≡ s.sending
        → t.type ≡ s.type
        → t.closing ≡ s.closing
        → Leaves (send_lists poll_fails (whole t.high ++ whole t.low) t)
    unfolding send_lists count_written is_nil
    send_lists-Leaves poll_fails t dw sending type closing =
        let r = send_loop (whole t.high ++ whole t.low) t.high in
        let (fine, all, left) = send_loop-whole t.high (whole t.low) in
        let t' = count_written (length r.bytes) (record t { high = r.list }) in
        if_both Leaves (list_uncomplete t.low) (λ _ bad. absurd bad)
          (λ _.
            if_both Leaves r.broken (λ e. absurd (not_both (sym fine ∙ e)))
              (λ _.
                if_both Leaves (is_nil r.list)
                  (λ _.
                    subst (λ (a : List Answer). Leaves (send_low poll_fails a r.bytes t'))
                      (sym left)
                      (send_low-Leaves poll_fails r.bytes t'
                        (all, refl, dw, sending, type, closing ∙ going)))
                  (λ e. absurd (not_both (sym e ∙ ap is_nil all)))))

    direct-Leaves :
        (poll_fails : Bool) (dw : Option DirectWrite)
        → Leaves (
            send_lists poll_fails
              (whole_answers (record s { dw = dw }))
              (take_direct (record s { dw = dw })))
    unfolding take_direct whole_answers
    direct-Leaves poll_fails none =
        send_lists-Leaves poll_fails (record s { dw = none }) refl refl refl refl
    direct-Leaves poll_fails (some d) =
        send_lists-Leaves poll_fails (take_direct (record s { dw = some d })) refl refl refl refl

-- A writable event of a connected socket, when each buffer is taken whole.
pub poll_write-Emptied :
    (pipe : List Request) (wire : List ℕ) (asked : List Text) (s : Socket) (type : SocketType)
    → is_connected type ≡ true
    → (going : s.closing ≡ false)
    → Keeps pipe wire asked (
        poll_write false false false
          (whole_answers (record s { type = type }))
          (record s { type = type }))
    → Emptied
        (record s { type = type })
        going
        (poll_write false false false
          (whole_answers (record s { type = type }))
          (record s { type = type }))
unfolding poll_write send_buffer answers_of is_halfclose_write is_connected
poll_write-Emptied pipe wire asked s SocketType.connected e going keeps =
    direct-Leaves (record s { type = SocketType.connected }) going pipe wire asked false s.dw keeps
poll_write-Emptied pipe wire asked s SocketType.invalid e going keeps = absurd (not_both e)
poll_write-Emptied pipe wire asked s SocketType.reserve e going keeps = absurd (not_both e)
poll_write-Emptied pipe wire asked s SocketType.plisten e going keeps = absurd (not_both e)
poll_write-Emptied pipe wire asked s SocketType.listen e going keeps = absurd (not_both e)
poll_write-Emptied pipe wire asked s SocketType.connecting e going keeps = absurd (not_both e)
poll_write-Emptied pipe wire asked s SocketType.halfclose_read e going keeps = absurd (not_both e)
poll_write-Emptied pipe wire asked s SocketType.halfclose_write e going keeps = absurd (not_both e)
poll_write-Emptied pipe wire asked s SocketType.paccept e going keeps = absurd (not_both e)
poll_write-Emptied pipe wire asked s SocketType.bind e going keeps = absurd (not_both e)
