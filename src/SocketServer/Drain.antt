-- ===== src/SocketServer/Drain.antt =====
-- The socket thread takes the requests to send from the pipe.
use crynet.Prelude.{
  ℕ, ◌≡◌, refl, ap, ◌∙◌, List, [], ◌∷◌, Bool, true, false, ◌&&◌, ◌||◌, Option, none, some,
  if◌then◌else◌, if_both, ◌==◌, ◌>>=◌,
}
use crynet.SocketServer.{
  is_invalid, is_halfclose_write, is_paccept, is_listen, Socket, SendObject, Outcome, ignore,
  socket_err, enable_write, send_buffer_empty,
}
use crynet.SocketServer.Buffers.{warn, append_sendbuffer, append_sendbuffer_low, send_socket}
use crynet.SocketServer.Threads.{
  Request, send, trigger, close, resume, pause, Text, Channel, SocketEvent, command, ctrl_cmd,
  trigger_write, dec_sending_ref, step, run,
}
use crynet.SocketServer.Order.{Inv}
use crynet.SocketServer.Taken.{Done}
use crynet.SocketServer.Steps.{ctrl_cmd-Done}

-- Requests that only send.
abbrev pub IsSend : Request → Type 0
IsSend (send low o) = Unit
IsSend trigger = Unit
IsSend (close shutdown) = ⊥
IsSend resume = ⊥
IsSend pause = ⊥

abbrev pub AllSends : List Request → Type 0
AllSends [] = Unit {0}
AllSends (r ∷ rs) = IsSend r × AllSends rs

-- A socket that is of the same type, and is being closed or not as before.
module _ (s : Socket) where
  abbrev Same : Socket → Type 0
  Same t = (t.type ≡ s.type) × (t.closing ≡ s.closing)

  abbrev SameResult : Option (Outcome × Socket) → Type 0
  SameResult none = ⊥
  SameResult (some r) = Same r.1

  warn-Same : (t : Socket) → Same t → Same (warn t).1
  unfolding warn
  warn-Same t h = if_both (λ (r : Outcome × Socket). Same r.1) _ {y = (ignore, t)} (λ _. h) (λ _. h)

  send_socket-Same :
      (poll_fails low : Bool) (o : SendObject) → Same (send_socket poll_fails low o s).1
  unfolding send_socket append_sendbuffer append_sendbuffer_low enable_write
  send_socket-Same poll_fails low o =
      let P : Outcome × Socket → Type 0 = λ r. Same r.1 in
      if_both P
        (is_invalid s.type || (is_halfclose_write s.type || (is_paccept s.type || s.closing)))
        {x = (ignore, s)} (λ _. (refl, refl))
        (λ _.
          if_both P (is_listen s.type) {x = (ignore, s)} (λ _. (refl, refl))
            (λ _.
              if_both P (send_buffer_empty s)
                (λ _.
                  if_both P (poll_fails && (if s.writing then false else true))
                    {x = (socket_err, enable_write true (append_sendbuffer o s))}
                    (λ _. (refl, refl))
                    (λ _. warn-Same (enable_write true (append_sendbuffer o s)) (refl, refl)))
                (λ _. warn-Same _ (if_both Same low (λ _. (refl, refl)) (λ _. (refl, refl))))))

  counted_Same :
      (rs : List Request) (wire : List ℕ) (asked : List Text) (r : Outcome × Socket)
      → Same r.1
      → Done rs wire asked (dec_sending_ref r.1 >>= λ (t : Socket). some (r.0, t))
      → SameResult (dec_sending_ref r.1 >>= λ (t : Socket). some (r.0, t))
  unfolding dec_sending_ref
  counted_Same rs wire asked r h =
      if_both
        (λ (d : Option Socket).
          Done rs wire asked (d >>= λ (t : Socket). some (r.0, t))
          → SameResult (d >>= λ (t : Socket). some (r.0, t)))
        (r.1.sending == 0) (λ _ bad. bad) (λ _ _. h)

  ctrl_cmd-Same :
      (r : Request) (rs : List Request) (wire : List ℕ) (asked : List Text)
      → IsSend r
      → Done rs wire asked (ctrl_cmd false r s)
      → SameResult (ctrl_cmd false r s)
  unfolding ctrl_cmd trigger_write enable_write
  ctrl_cmd-Same (send low o) rs wire asked sends done =
      counted_Same rs wire asked (send_socket false low o s) (send_socket-Same false low o) done
  ctrl_cmd-Same trigger rs wire asked sends done =
      if_both (λ (r : Outcome × Socket). Same r.1) (is_invalid s.type) {x = (ignore, s)}
        {y = (ignore, enable_write true s)} (λ _. (refl, refl)) (λ _. (refl, refl))
  ctrl_cmd-Same (close shutdown) rs wire asked sends done = absurd sends
  ctrl_cmd-Same resume rs wire asked sends done = absurd sends
  ctrl_cmd-Same pause rs wire asked sends done = absurd sends

-- One command for each request.
abbrev pub commands : List Request → List SocketEvent
commands [] = []
commands (r ∷ rs) = command false ∷ commands rs

module _ (wire : List ℕ) (asked : List Text) where
  abbrev pub at_pipe : Socket → List Request → Channel
  at_pipe s rs = record { socket = s; pipe = rs; wire = wire; asked = asked }

  abbrev pub Drained : Socket → List Request → Type 0
  Drained s rs =
      (t : Socket) × (run (commands rs) (at_pipe s rs) ≡ some (at_pipe t []))
      × Inv t [] wire asked
      × (t.type ≡ s.type)
      × (t.closing ≡ s.closing)

  next_Drained :
      (r : Request) (rs : List Request) (s : Socket) (o : Option (Outcome × Socket))
      → ctrl_cmd false r s ≡ o
      → Done rs wire asked o
      → SameResult s o
      → ((t : Socket) → Inv t rs wire asked → Drained t rs)
      → Drained s (r ∷ rs)
  unfolding run step
  next_Drained r rs s none e done same ih = absurd done
  next_Drained r rs s (some (out, t)) e done same ih =
      let (u, runs, inv, type, closing) = ih t done in
      (
        u,
        ap
              (λ (o : Option (Outcome × Socket)).
                (o >>= λ (q : Outcome × Socket). some (at_pipe q.1 rs)) >>= run (commands rs))
              e
            ∙ runs,
        inv,
        type ∙ same.0,
        closing ∙ same.1,
      )

  pub commands-Drained :
      (rs : List Request) (s : Socket) → AllSends rs → Inv s rs wire asked → Drained s rs
  unfolding run
  commands-Drained [] s sends inv = (s, refl, inv, refl, refl)
  commands-Drained (r ∷ rs) s (now, later) inv =
      let done = ctrl_cmd-Done false rs wire asked r s inv in
      next_Drained r rs s (ctrl_cmd false r s) refl done (ctrl_cmd-Same s r rs wire asked now done)
        (λ t h. commands-Drained rs t later h)
