-- ===== src/SocketServer/Progress.antt =====
-- What waits in a socket and in its pipe is written when the socket thread takes its requests and the
-- connection takes the bytes.
use crynet.Prelude.{
  ℕ, ◌≡◌, refl, sym, inl, inr, Bool-cases, if◌then◌else◌, ap, ◌∙◌, List, [], ◌++◌, Bool, true,
  false, ◌&&◌, ◌||◌, Option, none, some, length, flatten, ◌==◌, ==-eq,
}
use crynet.SocketServer.{
  is_connected, is_halfclose_write, is_nil, DirectWrite, Socket, Outcome, send_buffer_empty,
}
use crynet.SocketServer.Buffers.{nomore_sending_data, no_direct}
use crynet.SocketServer.Threads.{
  Text, Channel, SocketEvent, writable, poll_write, socket_event, step, run, new_channel,
}
use crynet.SocketServer.Order.{texts, pending}
use crynet.SocketServer.Writes.{Keeps}
use crynet.SocketServer.Polls.{poll_write-Keeps}
use crynet.SocketServer.Calls.{IsGood}
use crynet.SocketServer.Steps.{AllPlainEvents, run-GoesWell}
use crynet.SocketServer.Delivery.{
  first_type, KeepsOrder, new_channel-IsGood, some-IsGood, idle_sent,
}
use crynet.SocketServer.Cases.{not_both, both, nil_list, is_connected_live}
use crynet.SocketServer.Wakes.{is_empty, Wakes}
use crynet.SocketServer.Awoken.{run-Wakes, new_channel-Wakes}
use crynet.SocketServer.Drain.{AllSends, commands, commands-Drained, at_pipe}
use crynet.SocketServer.Emptied.{whole_answers, Emptied, poll_write-Emptied}

nothing_left :
    (s : Socket)
    → s.high ≡ []
    → s.low ≡ []
    → s.dw ≡ none
    → s.sending ≡ 0
    → nomore_sending_data s ≡ true
unfolding nomore_sending_data send_buffer_empty is_nil no_direct
nothing_left s high low dw sending =
    ap
      (λ h.
        ((is_nil h && is_nil s.low) && (no_direct s.dw && (s.sending == 0)))
        || is_halfclose_write s.type)
      high
    ∙ ap (λ l. (is_nil l && (no_direct s.dw && (s.sending == 0))) || is_halfclose_write s.type) low
    ∙ ap (λ d. (no_direct d && (s.sending == 0)) || is_halfclose_write s.type) dw
    ∙ ap (λ b. b || is_halfclose_write s.type) (==-eq s.sending 0 sending)

-- What a channel writes at last.
abbrev pub AllWritten : Channel → Type 0
AllWritten z =
    (nomore_sending_data z.socket ≡ true)
    × ((sent : List Text) × KeepsOrder z.asked sent × (z.wire ≡ flatten (texts sent)))

finish :
    (y : Channel) (going : y.socket.closing ≡ false) (o : Option (Outcome × List ℕ × Socket))
    → y.pipe ≡ []
    → IsGood y
    → is_connected y.socket.type ≡ true
    → Keeps y.pipe y.wire y.asked o
    → Emptied y.socket going o
    → (z : Channel) × (socket_event y o ≡ some z) × (z.asked ≡ y.asked) × AllWritten z
unfolding socket_event
finish y going none empty good is_open keeps left = absurd left
finish y going (some (out, bytes, u)) empty good is_open keeps
      (high, low, dw, sending, type, closing) =
    let z : Channel = record y { socket = u; wire = y.wire ++ bytes } in
    let zero_sending = sending ∙ good.0 ∙ ap (λ p. length (pending p)) empty in
    let more = nothing_left u high low dw zero_sending in
    (z, refl, refl, (more, idle_sent z keeps (ap is_connected type ∙ is_open) closing more))

direct_none : (d : Option DirectWrite) → no_direct d ≡ true → d ≡ none
unfolding no_direct
direct_none none e = refl
direct_none (some d) e = absurd (not_both e)

-- A socket in which nothing waits, and for which nothing stands in the pipe.
empty_sent : (s : Socket) → is_empty s ≡ true → s.sending ≡ 0 → nomore_sending_data s ≡ true
empty_sent s empty sending =
    let (high, rest) = both (is_nil s.high) _ empty in
    let (low, dw) = both (is_nil s.low) (no_direct s.dw) rest in
    nothing_left s (nil_list s.high high) (nil_list s.low low) (direct_none s.dw dw) sending

-- A writable event, when the pipe is empty. Where `writing` is not set, nothing waits.
written_at_last :
    (wire : List ℕ) (asked : List Text) (t : Socket)
    → IsGood (at_pipe wire asked t [])
    → is_connected t.type ≡ true
    → t.closing ≡ false
    → Wakes t []
    → (z : Channel) × (step (writable false false false (whole_answers t)) (at_pipe wire asked t [])
        ≡ some z)
      × (z.asked ≡ asked)
      × AllWritten z
unfolding step
written_at_last wire asked t good is_open going wakes =
    let y = at_pipe wire asked t [] in
    let answers = whole_answers t in
    let event = socket_event y (poll_write false false false answers t) in
    elim (Bool-cases t.writing) [
      | inl set ↦
          let keeps = poll_write-Keeps [] wire asked false false false answers t t.type good in
          let (z, writes, asks, all) =
            finish y going (poll_write false false false answers t) refl good is_open keeps
              (poll_write-Emptied [] wire asked t t.type is_open going keeps) in
          (z, ap (λ b. if b then event else some y) set ∙ writes, asks, all)
      | inr idle ↦
          let empty : is_empty t ≡ true = elim (Bool-cases (is_empty t)) [
            | inl e ↦ e
            | inr waits ↦ elim (wakes (is_connected_live t.type is_open).2 waits) [
              | inl set ↦ absurd (not_both (sym idle ∙ set))
              | inr none_comes ↦ absurd none_comes
            ]
          ] in
          let more = empty_sent t empty good.0 in
          (
            y,
            ap (λ b. if b then event else some y) idle,
            refl,
            (more, idle_sent y good is_open going more),
          )
    ]

-- For a socket that is being connected or is connected, and for any steps of its threads, of which no
-- low-priority text is a user object, after which the socket is connected and not being closed and
-- only texts stand in the pipe, or requests to enable writing: when the socket thread takes these
-- requests, one event for each, and then the connection takes all the bytes of a writable event, which
-- the poll reports only while `writing` is set and which otherwise does nothing, no assertion fails and
-- the socket has no more data to send. Then the bytes that are written are the texts of all that were
-- asked to be sent, whole and one after the other, in an order that keeps the order of the calls for
-- each of the two priorities.
pub run-AllWritten :
    (connecting : Bool) (es : List SocketEvent) (x : Channel)
    → AllPlainEvents es
    → run es (new_channel (first_type connecting)) ≡ some x
    → is_connected x.socket.type ≡ true
    → x.socket.closing ≡ false
    → AllSends x.pipe
    → (y z : Channel) × (run (commands x.pipe) x ≡ some y)
      × (step (writable false false false (whole_answers y.socket)) y ≡ some z)
      × (z.asked ≡ x.asked)
      × AllWritten z
run-AllWritten connecting es x plain runs is_open going sends =
    let good = some-IsGood _ x runs (
      run-GoesWell es (new_channel (first_type connecting)) plain
        (new_channel-IsGood connecting)) in
    let (t, drains, inv, type, closing) =
      commands-Drained x.wire x.asked x.pipe x.socket sends good in
    let (z, writes, asked, all) =
      written_at_last x.wire x.asked t inv (ap is_connected type ∙ is_open) (closing ∙ going) (
        run-Wakes (commands x.pipe) x _
          (run-Wakes es (new_channel (first_type connecting)) x (new_channel-Wakes connecting) runs)
          drains) in
    (at_pipe x.wire x.asked t [], z, drains, writes, asked, all)
