-- ===== src/SocketServer/Steps.antt =====
-- Every step of a thread keeps what holds of the socket and its pipe.
use crynet.Prelude.{
  ℕ, ◌≡◌, refl, sym, ap, ◌∙◌, List, [], ◌∷◌, ◌++◌, Bool, true, false, ◌&&◌, inl, inr, Option, none,
  some, if◌then◌else◌, length, if_both, ◌>>=◌,
}
use crynet.SocketServer.{
  SocketType, is_invalid, is_halfclose_read, Socket, Outcome, ignore, socket_err, socket_open,
  enable_read,
}
use crynet.SocketServer.Threads.{
  Request, send, trigger, close, resume, pause, Text, resume_socket, ctrl_cmd, Channel, SocketEvent,
  other_request, socket_event, step, run, call_send, call_send_low, call_other, command, writable,
  readable, eof,
}
use crynet.SocketServer.Order.{Inv, pending, pending-append, AllPlain, AllPlain-append}
use crynet.SocketServer.Cases.{not_both}
use crynet.SocketServer.Writes.{Keeps}
use crynet.SocketServer.Polls.{poll_write-Keeps, poll_read-Inv, poll_eof-Inv}
use crynet.SocketServer.Append.{repipe}
use crynet.SocketServer.Calls.{IsGood, server_send-IsGood, server_send_lowpriority-IsGood}
use crynet.SocketServer.Commands.{other_Inv, trigger_write-Inv, pause_socket-Inv, close_socket-Inv}
use crynet.SocketServer.Taken.{Done, dec_sending_ref-Done, send_socket-Taken}
use mathlib.Core.List.{append-nil}

module _ (poll_fails : Bool) (rs : List Request) (wire : List ℕ) (asked : List Text) where
  resume_socket-Inv :
      (s : Socket) (type : SocketType)
      → Inv (record s { type = type }) rs wire asked
      → Inv (resume_socket poll_fails (record s { type = type })).1 rs wire asked
  unfolding resume_socket enable_read is_invalid is_halfclose_read
  resume_socket-Inv s SocketType.invalid inv = inv
  resume_socket-Inv s SocketType.halfclose_read inv = inv
  resume_socket-Inv s SocketType.reserve (_, _, _, inl (e, _)) = absurd (not_both e)
  resume_socket-Inv s SocketType.reserve (_, _, _, inr (e, _)) = absurd (not_both e)
  resume_socket-Inv s SocketType.plisten (_, _, _, inl (e, _)) = absurd (not_both e)
  resume_socket-Inv s SocketType.plisten (_, _, _, inr (e, _)) = absurd (not_both e)
  resume_socket-Inv s SocketType.listen (_, _, _, inl (e, _)) = absurd (not_both e)
  resume_socket-Inv s SocketType.listen (_, _, _, inr (e, _)) = absurd (not_both e)
  resume_socket-Inv s SocketType.paccept (_, _, _, inl (e, _)) = absurd (not_both e)
  resume_socket-Inv s SocketType.paccept (_, _, _, inr (e, _)) = absurd (not_both e)
  resume_socket-Inv s SocketType.bind (_, _, _, inl (e, _)) = absurd (not_both e)
  resume_socket-Inv s SocketType.bind (_, _, _, inr (e, _)) = absurd (not_both e)
  resume_socket-Inv s SocketType.connecting inv =
      if_both (λ (r : Outcome × Socket). Inv r.1 rs wire asked)
        (poll_fails && (if s.reading then false else true))
        {x = (socket_err, record s { type = SocketType.connecting; reading = true })}
        {y = (ignore, record s { type = SocketType.connecting; reading = true })} (λ _. inv)
        (λ _. inv)
  resume_socket-Inv s SocketType.connected inv =
      if_both (λ (r : Outcome × Socket). Inv r.1 rs wire asked)
        (poll_fails && (if s.reading then false else true))
        {x = (socket_err, record s { type = SocketType.connected; reading = true })}
        {y = (socket_open, record s { type = SocketType.connected; reading = true })} (λ _. inv)
        (λ _. inv)
  resume_socket-Inv s SocketType.halfclose_write inv =
      if_both (λ (r : Outcome × Socket). Inv r.1 rs wire asked)
        (poll_fails && (if s.reading then false else true))
        {x = (socket_err, record s { type = SocketType.halfclose_write; reading = true })}
        {y = (ignore, record s { type = SocketType.halfclose_write; reading = true })} (λ _. inv)
        (λ _. inv)

  pub ctrl_cmd-Done :
      (r : Request) (s : Socket)
      → Inv s (r ∷ rs) wire asked
      → Done rs wire asked (ctrl_cmd poll_fails r s)
  unfolding ctrl_cmd
  ctrl_cmd-Done (send priority o) s inv =
      dec_sending_ref-Done priority o rs wire asked _
        (send_socket-Taken poll_fails rs wire asked s priority o inv)
  ctrl_cmd-Done trigger s inv =
      trigger_write-Inv poll_fails rs wire asked s
        (other_Inv poll_fails rs wire asked s trigger refl inv)
  ctrl_cmd-Done (close shutdown) s inv =
      close_socket-Inv poll_fails rs wire asked s shutdown
        (other_Inv poll_fails rs wire asked s (close shutdown) refl inv)
  ctrl_cmd-Done resume s inv =
      resume_socket-Inv s s.type (other_Inv poll_fails rs wire asked s resume refl inv)
  ctrl_cmd-Done pause s inv =
      pause_socket-Inv poll_fails rs wire asked s
        (other_Inv poll_fails rs wire asked s pause refl inv)

-- An event whose text, if it is of low priority, is no user object.
abbrev pub IsPlainEvent : SocketEvent → Type 0
IsPlainEvent (call_send_low o) = o.text ≡ o.buffer
IsPlainEvent _ = Unit

abbrev pub AllPlainEvents : List SocketEvent → Type 0
AllPlainEvents [] = Unit {0}
AllPlainEvents (e ∷ es) = IsPlainEvent e × AllPlainEvents es

abbrev pub GoesWell : Option Channel → Type 0
GoesWell none = ⊥
GoesWell (some x) = IsGood x

bind-GoesWell :
    (o : Option Channel) (f : Channel → Option Channel)
    → GoesWell o
    → ((x : Channel) → IsGood x → GoesWell (f x))
    → GoesWell (o >>= f)
bind-GoesWell none f good h = good
bind-GoesWell (some x) f good h = h x good

written-GoesWell :
    (x : Channel) (r : Option (Outcome × List ℕ × Socket))
    → Keeps x.pipe x.wire x.asked r
    → GoesWell (socket_event x r)
unfolding socket_event
written-GoesWell x none h = h
written-GoesWell x (some r) h = h

taken-GoesWell :
    (rs : List Request) (x : Channel) (o : Option (Outcome × Socket))
    → Done rs x.wire x.asked o
    → GoesWell (o >>= λ (r : Outcome × Socket). some (record x { socket = r.1; pipe = rs }))
taken-GoesWell rs x none h = h
taken-GoesWell rs x (some r) h = h

command-GoesWell :
    (poll_fails : Bool) (pipe : List Request) (x : Channel)
    → Inv x.socket pipe x.wire x.asked
    → GoesWell (step (command poll_fails) (record x { pipe = pipe }))
unfolding step
command-GoesWell poll_fails [] x good = good
command-GoesWell poll_fails (r ∷ rs) x good =
    taken-GoesWell rs x _ (ctrl_cmd-Done poll_fails rs x.wire x.asked r x.socket good)

other_plain : (r : Request) → (pending (other_request r) ≡ []) × AllPlain (other_request r)
unfolding other_request
other_plain (send priority o) = (refl, tt)
other_plain trigger = (refl, (tt, tt))
other_plain (close shutdown) = (refl, (tt, tt))
other_plain resume = (refl, (tt, tt))
other_plain pause = (refl, (tt, tt))

-- A call that only puts a request in the pipe.
other-IsGood :
    (r : Request) (x : Channel) → IsGood x → IsGood (record x { pipe = x.pipe ++ other_request r })
other-IsGood r x (sending, plain, counts, status) =
    let pipe' = x.pipe ++ other_request r in
    let (no_text, plain') = other_plain r in
    let same : pending x.pipe ≡ pending pipe' =
      sym (append-nil (pending x.pipe))
      ∙ ap (λ l. pending x.pipe ++ l) (sym no_text)
      ∙ sym (pending-append x.pipe (other_request r)) in
    (
      sending ∙ ap length same,
      AllPlain-append x.pipe (other_request r) plain plain',
      counts,
      elim status [
        | inl (live, v) ↦ inl (live, repipe v x.socket.closing pipe' (λ e. v.coming e ∙ same))
        | inr over ↦ inr over
      ],
    )

pub step-GoesWell :
    (e : SocketEvent) (x : Channel) → IsPlainEvent e → IsGood x → GoesWell (step e x)
unfolding step
step-GoesWell (call_send locked answer o) x plain good = server_send-IsGood x good locked answer o
step-GoesWell (call_send_low o) x plain good = server_send_lowpriority-IsGood x good o plain
step-GoesWell (call_other r) x plain good = other-IsGood r x good
step-GoesWell (command poll_fails) x plain good = command-GoesWell poll_fails x.pipe x good
step-GoesWell (writable locked poll_fails error answers) x plain good =
    if_both GoesWell x.socket.writing
      (λ _. written-GoesWell x _ (
        poll_write-Keeps x.pipe x.wire x.asked locked poll_fails error answers x.socket
          x.socket.type good))
      (λ _. good)
step-GoesWell (readable poll_fails error answer) x plain good =
    poll_read-Inv x.pipe x.wire x.asked poll_fails error answer x.socket x.socket.type good
step-GoesWell (eof poll_fails error) x plain good =
    poll_eof-Inv x.pipe x.wire x.asked poll_fails error x.socket x.socket.type good

pub run-GoesWell :
    (es : List SocketEvent) (x : Channel) → AllPlainEvents es → IsGood x → GoesWell (run es x)
unfolding run
run-GoesWell [] x plain good = good
run-GoesWell (e ∷ es) x (plain, more) good =
    bind-GoesWell (step e x) (run es) (step-GoesWell e x plain good)
      (λ y h. run-GoesWell es y more h)
